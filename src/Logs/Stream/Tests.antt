-- ===== src/Logs/Stream/Tests.antt =====
-- Tests of the model of the lines of the log: its theorems at one line.
use turbo_multimedia_server.Common.{ℕ, ◌≡◌, ◌⊎◌, ◌≤◌, ◌<◌, List, [], ◌∷◌, some}
use turbo_multimedia_server.Text.{get_file_name}
use turbo_multimedia_server.Logs.{new_log}
use turbo_multimedia_server.Logs.Stream.{info, warning, rank, Logger, file_name, Source, log}
use turbo_multimedia_server.Logs.Stream.Lines.{file_name-get_file_name, line, written, log_lem}

-- "b/a.c"
abbrev path : List ℕ
path = b'b' ∷ b'/' ∷ b'a' ∷ b'.' ∷ b'c' ∷ []

file_name-get_file_name_example : file_name path ≡ get_file_name path
file_name-get_file_name_example = file_name-get_file_name path

abbrev logger : Logger
logger = record { file_log = some new_log; level = info }

abbrev place : Source
place = record { file = path; line = 7; func = b'f' ∷ [] }

abbrev digit : ℕ → List ℕ
digit n = n ∷ []

abbrev words : List (List ℕ)
words = (b'o' ∷ []) ∷ (b'k' ∷ []) ∷ []

log_lem_example :
    let out = log digit (some logger) (b'1' ∷ []) 3 warning place words in
    ((rank info ≤ rank warning)
      × (out ≡ written logger (line digit (b'1' ∷ []) 3 warning place words) ∷ []))
    ⊎ ((rank warning < rank info) × (out ≡ []))
log_lem_example = log_lem digit logger (b'1' ∷ []) 3 warning place words
