-- ===== src/Common/Texts.antt =====
-- Texts as lists of bytes, and maps from texts.
use turbo_multimedia_server.Common.Tests.{◌==◌, ==_iff, if◌then◌else◌, Bool-cases}
use Prim.Native.Nat.{ℕ}
use mathlib.Core.Path.{◌≡◌, refl, sym, ap, ◌∙◌, ap₂}
use mathlib.Core.Logic.{◌≢◌, inl, inr}
use mathlib.Core.Bool.{Bool, true, false, ◌&&◌}
use mathlib.Core.Option.{Option, none, some}
use mathlib.Core.List.{List, [], ◌∷◌}
use native.Mathlib.Omega.{arith}

abbrev pub same_text : List ℕ → List ℕ → Bool
same_text [] [] = true
same_text [] (y ∷ ys) = false
same_text (x ∷ xs) [] = false
same_text (x ∷ xs) (y ∷ ys) = x == y && same_text xs ys

pub same_text→eq : (xs ys : List ℕ) → same_text xs ys ≡ true → xs ≡ ys
same_text→eq [] [] h = refl
same_text→eq [] (y ∷ ys) h = cc
same_text→eq (x ∷ xs) [] h = cc
same_text→eq (x ∷ xs) (y ∷ ys) h = elim (Bool-cases (x == y)) [
  | inl b ↦
      ap₂ (λ z zs. z ∷ zs) ((==_iff x y).0 b)
        (same_text→eq xs ys (ap (λ c. c && same_text xs ys) (sym b) ∙ h))
  | inr b ↦ absurd (ground arith)
]

pub same_text_refl : (xs : List ℕ) → same_text xs xs ≡ true
same_text_refl [] = refl
same_text_refl (x ∷ xs) = rw ((==_iff x x).1 refl) (same_text_refl xs)

contradiction : {b : Bool} → b ≡ false → b ≢ true
contradiction f t = cc

-- `find` of a map from texts, and the assignment `map[key] = value`, which keeps the order of the keys.
module _ {ℓ} {A : Type ℓ} where
  abbrev pub find_text : List ℕ → List (List ℕ × A) → Option A
  find_text key [] = none
  find_text key ((k, v) ∷ entries) =
      let rest = find_text key entries in if same_text key k then some v else rest

  abbrev pub assign_text : List ℕ → A → List (List ℕ × A) → List (List ℕ × A)
  assign_text key v [] = (key, v) ∷ []
  assign_text key v ((k, old) ∷ entries) =
      let rest = assign_text key v entries in
      if same_text key k then (k, v) ∷ entries else (k, old) ∷ rest

  pub find_text-assign_text :
      (x key : List ℕ) (v : A) (entries : List (List ℕ × A))
      → find_text x (assign_text key v entries)
        ≡ (if same_text x key then some v else find_text x entries)
  find_text-assign_text x key v [] = refl
  find_text-assign_text x key v ((k, old) ∷ entries) = elim (Bool-cases (same_text key k)) [
    | inl here ↦
        rw (here, same_text→eq key k here)
          (elim (Bool-cases (same_text x k)) [ inl b ↦ rw b | inr b ↦ rw b ])
    | inr there ↦ rw there (elim (Bool-cases (same_text x k)) [
      | inl b ↦ elim (Bool-cases (same_text x key)) [
        | inl c ↦
            absurd (contradiction there (ap (λ z. same_text z k) (sym (same_text→eq x key c)) ∙ b))
        | inr c ↦ rw (b, c) refl
      ]
      | inr b ↦ rw b (find_text-assign_text x key v entries)
    ])
  ]
