-- ===== src/Common/Slices.antt =====
-- Parts of a list: the elements from a position on, and writing a run of elements over others,
-- as `std::copy` and `memcpy` do.
use Prim.Native.Nat.{ℕ, zero, suc, ◌+◌, ◌-◌, ◌≤◌}
use mathlib.Core.Path.{◌≡◌, refl, ap, ap₂, sym, ◌∙◌}
use mathlib.Core.List.{List, [], ◌∷◌, ◌++◌, append_assoc}
use native.Mathlib.Omega.{arith}
use turbo_multimedia_server.Common.Lists.{
  length, take, drop, length-append, length-take, length-drop, take-append-drop,
}

module _ {ℓ} {A : Type ℓ} where
  -- The `n` elements from position `i` on.
  abbrev pub slice : ℕ → ℕ → List A → List A
  slice i n xs = take n (drop i xs)

  -- `d` written over the elements from position `p` on.
  abbrev pub splice : ℕ → List A → List A → List A
  splice p d xs = take p xs ++ (d ++ drop (p + length d) xs)

  pub take_all : (n : ℕ) (xs : List A) → length xs ≤ n → take n xs ≡ xs
  take_all zero [] h = refl
  take_all zero (x ∷ xs) h = elim h [ ]
  take_all (suc n) [] h = refl
  take_all (suc n) (x ∷ xs) h = ap (λ l. x ∷ l) (take_all n xs (omega arith))

  pub take-take : (n m : ℕ) (xs : List A) → n ≤ m → take n (take m xs) ≡ take n xs
  take-take zero m xs h = refl
  take-take (suc n) zero xs h = elim h [ ]
  take-take (suc n) (suc m) [] h = refl
  take-take (suc n) (suc m) (x ∷ xs) h = ap (λ l. x ∷ l) (take-take n m xs (omega arith))

  pub drop_all : (n : ℕ) (xs : List A) → length xs ≤ n → drop n xs ≡ []
  drop_all zero [] h = refl
  drop_all zero (x ∷ xs) h = elim h [ ]
  drop_all (suc n) [] h = refl
  drop_all (suc n) (x ∷ xs) h = drop_all n xs (omega arith)

  pub take-append_left : (n : ℕ) (xs ys : List A) → n ≤ length xs → take n (xs ++ ys) ≡ take n xs
  take-append_left zero xs ys h = refl
  take-append_left (suc n) [] ys h = elim h [ ]
  take-append_left (suc n) (x ∷ xs) ys h = ap (λ l. x ∷ l) (take-append_left n xs ys (omega arith))

  pub take-append_right :
      (n : ℕ) (xs ys : List A) → take (length xs + n) (xs ++ ys) ≡ xs ++ take n ys
  take-append_right n [] ys = ap (λ k. take k ys) (omega arith)
  take-append_right n (x ∷ xs) ys =
      ap (λ k. take k (x ∷ xs ++ ys)) {x = suc (length xs) + n} {y = suc (length xs + n)}
        (omega arith)
      ∙ ap (λ l. x ∷ l) (take-append_right n xs ys)

  pub drop-append_left :
      (n : ℕ) (xs ys : List A) → n ≤ length xs → drop n (xs ++ ys) ≡ drop n xs ++ ys
  drop-append_left zero xs ys h = refl
  drop-append_left (suc n) [] ys h = elim h [ ]
  drop-append_left (suc n) (x ∷ xs) ys h = drop-append_left n xs ys (omega arith)

  pub drop-append_right : (n : ℕ) (xs ys : List A) → drop (length xs + n) (xs ++ ys) ≡ drop n ys
  drop-append_right n [] ys = ap (λ k. drop k ys) (omega arith)
  drop-append_right n (x ∷ xs) ys =
      ap (λ k. drop k (x ∷ xs ++ ys)) {x = suc (length xs) + n} {y = suc (length xs + n)}
        (omega arith)
      ∙ drop-append_right n xs ys

  pub take-nil : (n : ℕ) → take {A = A} n [] ≡ []
  take-nil zero = refl
  take-nil (suc n) = refl

  drop-nil : (n : ℕ) → drop {A = A} n [] ≡ []
  drop-nil zero = refl
  drop-nil (suc n) = refl

  pub drop-take : (r w : ℕ) (xs : List A) → drop r (take w xs) ≡ take (w - r) (drop r xs)
  drop-take zero w xs = ap (λ k. take k xs) (omega arith)
  drop-take (suc r) zero xs = ap (λ k. take k (drop (suc r) xs)) {x = 0} (omega arith)
  drop-take (suc r) (suc w) [] = sym (take-nil (suc w - suc r))
  drop-take (suc r) (suc w) (x ∷ xs) = drop-take r w xs ∙ ap (λ k. take k (drop r xs)) (omega arith)

  pub drop-drop : (a b : ℕ) (xs : List A) → drop a (drop b xs) ≡ drop (b + a) xs
  drop-drop a zero xs = ap (λ k. drop k xs) (omega arith)
  drop-drop a (suc b) [] = drop-nil a ∙ sym (drop-nil (suc b + a))
  drop-drop a (suc b) (x ∷ xs) =
      drop-drop a b xs ∙ ap (λ k. drop k (x ∷ xs)) {x = suc (b + a)} {y = suc b + a} (omega arith)

  pub length-slice : (i n : ℕ) (xs : List A) → i + n ≤ length xs → length (slice i n xs) ≡ n
  length-slice i n xs h = omega (arith, length-take n (drop i xs), length-drop i xs)

  pub length-splice :
      (p : ℕ) (d xs : List A) → p + length d ≤ length xs → length (splice p d xs) ≡ length xs
  length-splice p d xs h = omega (
    arith,
    length-append (take p xs) (d ++ drop (p + length d) xs),
    length-append d (drop (p + length d) xs),
    length-take p xs,
    length-drop (p + length d) xs,
  )

  -- A part of the front of a list.
  pub slice-append_left :
      (i n : ℕ) (xs ys : List A) → i + n ≤ length xs → slice i n (xs ++ ys) ≡ slice i n xs
  slice-append_left i n xs ys h =
      ap (take n) (drop-append_left i xs ys (omega arith))
      ∙ take-append_left n (drop i xs) ys (omega (arith, length-drop i xs))

  -- A part that begins at the seam.
  slice-append_seam : (i n : ℕ) (xs ys : List A) → i ≡ length xs → slice i n (xs ++ ys) ≡ take n ys
  slice-append_seam i n xs ys h =
      ap (λ k. take n (drop k (xs ++ ys))) {x = i} {y = length xs + 0} (omega arith)
      ∙ ap (take n) (drop-append_right 0 xs ys)

  -- A part across the seam.
  slice-append_across :
      (i n m : ℕ) (xs ys : List A)
      → i + n ≡ length xs
      → slice i (n + m) (xs ++ ys) ≡ slice i n xs ++ take m ys
  slice-append_across i n m xs ys h =
      ap (take (n + m)) (drop-append_left i xs ys (omega arith))
      ∙ ap (λ k. take k (drop i xs ++ ys)) {x = n + m} {y = length (drop i xs) + m}
          (omega (arith, length-drop i xs))
      ∙ take-append_right m (drop i xs) ys
      ∙ ap (λ l. l ++ take m ys) (sym (take_all n (drop i xs) (omega (arith, length-drop i xs))))

  -- Writing at the end of a part extends it.
  pub slice-splice_end :
      (r n w : ℕ) (d xs : List A)
      → r + n ≡ w
      → w + length d ≤ length xs
      → slice r (n + length d) (splice w d xs) ≡ slice r n xs ++ d
  slice-splice_end r n w d xs e h =
      slice-append_across r n (length d) (take w xs) (d ++ drop (w + length d) xs)
        (omega (arith, length-take w xs))
      ∙ ap₂ ◌++◌ (ap (take n) (drop-take r w xs) ∙ cut)
          (take-append_left (length d) d _ (omega arith) ∙ take_all (length d) d (omega arith))
    where
      cut : take n (take (w - r) (drop r xs)) ≡ take n (drop r xs)
      cut =
          take_all n (take (w - r) (drop r xs)) (omega (arith, length-take (w - r) (drop r xs)))
          ∙ ap (λ k. take k (drop r xs)) (omega arith)

  -- Writing just before a part extends it, too.
  pub slice-splice_start :
      (p n : ℕ) (d xs : List A)
      → p + length d ≤ length xs
      → slice p (length d + n) (splice p d xs) ≡ d ++ slice (p + length d) n xs
  slice-splice_start p n d xs h =
      slice-append_seam p (length d + n) (take p xs) (d ++ drop (p + length d) xs)
        (omega (arith, length-take p xs))
      ∙ take-append_right n d (drop (p + length d) xs)

  pub slice-splice_self :
      (p : ℕ) (d xs : List A) → p + length d ≤ length xs → slice p (length d) (splice p d xs) ≡ d
  slice-splice_self p d xs h =
      slice-append_seam p (length d) (take p xs) (d ++ drop (p + length d) xs)
        (omega (arith, length-take p xs))
      ∙ take-append_left (length d) d _ (omega arith)
      ∙ take_all (length d) d (omega arith)

  -- Parts before and behind what is written stay.
  pub slice-splice_left :
      (i n p : ℕ) (d xs : List A)
      → i + n ≤ p
      → p ≤ length xs
      → slice i n (splice p d xs) ≡ slice i n xs
  slice-splice_left i n p d xs h hp =
      slice-append_left i n (take p xs) (d ++ drop (p + length d) xs)
        (omega (arith, length-take p xs))
      ∙ sym (slice-append_left i n (take p xs) (drop p xs) (omega (arith, length-take p xs)))
      ∙ ap (slice i n) (take-append-drop p xs)

  pub slice-splice_right :
      (i n p : ℕ) (d xs : List A)
      → p + length d ≤ i
      → p + length d ≤ length xs
      → slice i n (splice p d xs) ≡ slice i n xs
  slice-splice_right i n p d xs h hp = ap (take n) (
      ap (drop i) (sym (append_assoc (take p xs) d (drop (p + length d) xs)))
      ∙ ap (λ k. drop k ((take p xs ++ d) ++ drop (p + length d) xs)) {x = i}
          {y = length (take p xs ++ d) + (i - (p + length d))}
          (omega (arith, length-append (take p xs) d, length-take p xs))
      ∙ drop-append_right (i - (p + length d)) (take p xs ++ d) (drop (p + length d) xs)
      ∙ drop-drop (i - (p + length d)) (p + length d) xs
      ∙ ap (λ k. drop k xs) (omega arith))
