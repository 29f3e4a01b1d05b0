-- ===== src/Common/Points.antt =====
-- Single elements of a list of which a part was written over.
use Prim.Native.Nat.{ℕ, zero, suc, ◌+◌, ◌-◌, ◌≤◌, ◌<◌}
use mathlib.Core.Path.{◌≡◌, refl, ap, ◌∙◌}
use mathlib.Core.List.{List, [], ◌∷◌, ◌++◌}
use native.Mathlib.Omega.{arith}
use turbo_multimedia_server.Common.Lists.{length, take, drop, get_or, length-take}
use turbo_multimedia_server.Common.Slices.{splice}

module _ {ℓ} {A : Type ℓ} where
  pub get_or-append_left :
      (xs ys : List A) (i : ℕ) (v : A) → i < length xs → get_or (xs ++ ys) i v ≡ get_or xs i v
  get_or-append_left [] ys i v h = absurd (omega arith)
  get_or-append_left (x ∷ xs) ys zero v h = refl
  get_or-append_left (x ∷ xs) ys (suc i) v h = get_or-append_left xs ys i v (omega arith)

  pub get_or-append_right :
      (xs ys : List A) (i : ℕ) (v : A) → get_or (xs ++ ys) (length xs + i) v ≡ get_or ys i v
  get_or-append_right [] ys i v = ap (λ k. get_or ys k v) (omega arith)
  get_or-append_right (x ∷ xs) ys i v =
      ap (λ k. get_or (x ∷ xs ++ ys) k v) {x = suc (length xs) + i} {y = suc (length xs + i)}
        (omega arith)
      ∙ get_or-append_right xs ys i v

  pub get_or-take :
      (n : ℕ) (xs : List A) (i : ℕ) (v : A) → i < n → get_or (take n xs) i v ≡ get_or xs i v
  get_or-take zero xs i v h = absurd (omega arith)
  get_or-take (suc n) [] i v h = refl
  get_or-take (suc n) (x ∷ xs) zero v h = refl
  get_or-take (suc n) (x ∷ xs) (suc i) v h = get_or-take n xs i v (omega arith)

  pub get_or-drop :
      (n : ℕ) (xs : List A) (i : ℕ) (v : A) → get_or (drop n xs) i v ≡ get_or xs (n + i) v
  get_or-drop zero xs i v = ap (λ k. get_or xs k v) (omega arith)
  get_or-drop (suc n) [] i v = refl
  get_or-drop (suc n) (x ∷ xs) i v =
      get_or-drop n xs i v
      ∙ ap (λ k. get_or (x ∷ xs) k v) {x = suc (n + i)} {y = suc n + i} (omega arith)

  -- Elements before and behind what is written stay.
  pub get_or-splice_left :
      (p : ℕ) (d xs : List A) (i : ℕ) (v : A)
      → i < p
      → p ≤ length xs
      → get_or (splice p d xs) i v ≡ get_or xs i v
  get_or-splice_left p d xs i v h l =
      get_or-append_left (take p xs) (d ++ drop (p + length d) xs) i v
        (omega (arith, length-take p xs))
      ∙ get_or-take p xs i v h

  pub get_or-splice_right :
      (p : ℕ) (d xs : List A) (i : ℕ) (v : A)
      → p + length d ≤ i
      → p + length d ≤ length xs
      → get_or (splice p d xs) i v ≡ get_or xs i v
  get_or-splice_right p d xs i v h l =
      ap (λ k. get_or (splice p d xs) k v)
        {y = length (take p xs) + (length d + (i - (p + length d)))}
        (omega (arith, length-take p xs))
      ∙ get_or-append_right (take p xs) (d ++ drop (p + length d) xs)
          (length d + (i - (p + length d))) v
      ∙ get_or-append_right d (drop (p + length d) xs) (i - (p + length d)) v
      ∙ get_or-drop (p + length d) xs (i - (p + length d)) v
      ∙ ap (λ k. get_or xs k v) (omega arith)

  -- The element that a single one is written over.
  pub get_or-splice_first :
      (p : ℕ) (x : A) (d xs : List A) (v : A) → p ≤ length xs → get_or (splice p (x ∷ d) xs) p v ≡ x
  get_or-splice_first p x d xs v l =
      ap (λ k. get_or (splice p (x ∷ d) xs) k v) {y = length (take p xs) + 0}
        (omega (arith, length-take p xs))
      ∙ get_or-append_right (take p xs) (x ∷ d ++ drop (p + length (x ∷ d)) xs) 0 v

  -- Without its first element.
  pub drop_one-splice :
      (p : ℕ) (d xs : List A)
      → 0 < length xs
      → drop 1 (splice (1 + p) d xs) ≡ splice p d (drop 1 xs)
  drop_one-splice p d [] h = absurd (omega arith)
  drop_one-splice p d (x ∷ xs) h =
      ap (λ k. drop 1 (splice k d (x ∷ xs))) {y = suc p} (omega arith)
      ∙ ap (λ k. take p xs ++ (d ++ drop k (x ∷ xs))) {x = suc p + length d}
          {y = suc (p + length d)} (omega arith)
