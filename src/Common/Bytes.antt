-- ===== src/Common/Bytes.antt =====
-- Integers as bytes in network order, most significant first: what `htobe64`, `htobe32` and
-- `htobe16` put into memory. A signed integer is its two's complement bit pattern.
use turbo_multimedia_server.Common.Lists.{length, length-append}
use Prim.Native.Nat.{ℕ, zero, suc, ◌+◌, ◌*◌, ◌/◌, ◌%◌, ◌^◌, ◌<◌}
use mathlib.Core.Path.{◌≡◌, refl, ◌∙◌}
use mathlib.Core.List.{List, [], ◌∷◌, ◌++◌}
use native.Mathlib.Nat.{pow-suc}
use native.Mathlib.Omega.{arith}

-- The `k` low bytes of `x`, most significant first.
pub be_bytes : ℕ → ℕ → List ℕ
be_bytes zero x = []
be_bytes (suc k) x = be_bytes k (x / 256) ++ (x % 256 ∷ [])

from_be_acc : ℕ → List ℕ → ℕ
from_be_acc acc [] = acc
from_be_acc acc (c ∷ cs) = from_be_acc (acc * 256 + c) cs

pub from_be : List ℕ → ℕ
from_be cs = from_be_acc 0 cs

pub length-be_bytes : (k x : ℕ) → length (be_bytes k x) ≡ k
unfolding be_bytes
length-be_bytes zero x = refl
length-be_bytes (suc k) x =
    omega (arith, length-append (be_bytes k (x / 256)) (x % 256 ∷ []), length-be_bytes k (x / 256))

from_be_acc-append :
    (acc : ℕ) (xs ys : List ℕ) → from_be_acc acc (xs ++ ys) ≡ from_be_acc (from_be_acc acc xs) ys
unfolding from_be_acc
from_be_acc-append acc [] ys = refl
from_be_acc-append acc (x ∷ xs) ys = from_be_acc-append (acc * 256 + x) xs ys

from_be_acc-be_bytes : (k x : ℕ) → x < 256 ^ k → from_be_acc 0 (be_bytes k x) ≡ x
unfolding from_be_acc be_bytes
from_be_acc-be_bytes zero x h = omega arith
from_be_acc-be_bytes (suc k) x h =
    from_be_acc-append 0 (be_bytes k (x / 256)) (x % 256 ∷ [])
    ∙ omega (arith, from_be_acc-be_bytes k (x / 256) (omega (arith, pow-suc 256 k)))

pub from_be-be_bytes : (k x : ℕ) → x < 256 ^ k → from_be (be_bytes k x) ≡ x
unfolding from_be
from_be-be_bytes k x h = from_be_acc-be_bytes k x h
