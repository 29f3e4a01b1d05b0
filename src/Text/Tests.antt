-- ===== src/Text/Tests.antt =====
-- Tests of the model of StringUtils: its theorems at short texts.
use turbo_multimedia_server.Common.{◌≡◌, ℕ, List, [], ◌∷◌, ok, arith}
use turbo_multimedia_server.Text.{split}
use turbo_multimedia_server.Text.Splits.{split_returns}

-- "a/b.c"
abbrev path : List ℕ
path = b'a' ∷ b'/' ∷ b'b' ∷ b'.' ∷ b'c' ∷ []

split_returns_example : (parts : List (List ℕ)) × (split 6 (b'/' ∷ []) path ≡ ok parts)
split_returns_example = split_returns 6 b'/' [] path (omega arith)
