-- ===== src/Common/Fault.antt =====
-- Failing operations, and the arithmetic of `size_t`.
use Prim.Native.Nat.{ℕ, ◌+◌, ◌-◌, ◌%◌, ◌^◌}
use turbo_multimedia_server.Common.Tests.{ltb, if◌then◌else◌}
use mathlib.Core.Bool.{Bool, true, false}
use mathlib.Core.Path.{◌≡◌, ap}

-- What stops an operation: an `assert` that does not hold, `std::length_error` of a container or
-- text, an index outside a container, which is undefined behaviour, and fuel that runs out in a
-- recursion that the source does not bound.
pub data Fault : Type 0 where
  assertion length_error out_of_range unfinished : Fault

-- The value of an operation, or what stopped it.
pub data Result {ℓ} (Value : Type ℓ) : Type ℓ where
  fail : Fault → Result Value
  ok : Value → Result Value

abbrev pub assert : Bool → Result (Unit {0})
assert false = fail assertion
assert true = ok tt

-- The operation goes on with what the first part gives, and stops where it stops.
abbrev pub ◌>>=◌ {κ ℓ} : {B : Type κ} {A : Type ℓ} → Result B → (B → Result A) → Result A
fail stop >>= next = fail stop
ok value >>= next = next value

abbrev pub ◌>>◌ {ℓ} : {A : Type ℓ} → Result (Unit {0}) → Result A → Result A
first >> next = first >>= λ _. next

infixl 5 ◌>>=◌ ◌>>◌
abbrev pub size_mod : ℕ
size_mod = 2 ^ 64

-- `a + b` and `a - b` on `size_t`.
abbrev pub add_size : ℕ → ℕ → ℕ
add_size a b = (a + b) % size_mod

abbrev pub sub_size : ℕ → ℕ → ℕ
sub_size a b = (a + size_mod - b) % size_mod

-- An `int` as a `size_t`: a negative one gets its sign's bits in front.
abbrev pub size_of_int : ℕ → ℕ
size_of_int i = if ltb i (2 ^ 31) then i else i + (size_mod - 2 ^ 32)

-- Results of the same kind have the same value.
pub ok_inj {ℓ} : {A : Type ℓ} {a b : A} → ok a ≡ ok b → a ≡ b
ok_inj {A} {a} e = ap (λ r. elim r [ ok x ↦ x | fail f ↦ a ]) e
