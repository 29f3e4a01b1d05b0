-- ===== src/Text/Splits.antt =====
-- `StringUtils::split`, `trim` and the changes of case (base/StringUtils.cpp).
use turbo_multimedia_server.Common.{
  ℕ, zero, suc, ◌+◌, ◌≡◌, refl, ap₂, ◌<◌, inl, inr, List, [], ◌∷◌, some, length, length-drop, take,
  drop, ok, fail, unfinished, ◌>>=◌, arith, Option-cases,
}
use turbo_multimedia_server.Text.{find, last_part, split, lower, upper, to_lower, to_upper}

find_empty : (str : List ℕ) → find [] str ≡ some 0
unfolding find
find_empty [] = refl
find_empty (c ∷ cs) = refl

-- With an empty delimiter `split` never returns: it is found at once and nothing is passed over.
pub split_empty : (n : ℕ) (str : List ℕ) → split n [] str ≡ fail unfinished
unfolding split
split_empty zero str = refl
split_empty (suc n) str = rw (split, find_empty str, split_empty n (drop (0 + 0) str), ◌>>=◌)

-- Where `find` finds something, the rest of the text is not shorter than it.
find-room : (d : ℕ) (ds str : List ℕ) (i : ℕ) → find (d ∷ ds) str ≡ some i → 0 < length str
unfolding find
find-room d ds [] i e = cc
find-room d ds (c ∷ cs) i e = omega arith

-- With a delimiter that is not empty, `split` returns within one round more than the text has bytes: the loop passes over a byte at least in each round.
pub split_returns :
    (n d : ℕ) (ds str : List ℕ)
    → length str < n
    → (parts : List (List ℕ)) × (split n (d ∷ ds) str ≡ ok parts)
unfolding split
split_returns zero d ds str h = absurd (omega arith)
split_returns (suc n) d ds str h = elim (Option-cases (find (d ∷ ds) str)) [
  | inl never ↦ (last_part str, rw (split, never))
  | inr (i, there) ↦
      let (parts, e) =
        split_returns n d ds (drop (i + length (d ∷ ds)) str)
          (omega (arith, length-drop (i + length (d ∷ ds)) str, find-room d ds str i there)) in
      (take i str ∷ parts, rw (split, there, e, ◌>>=◌))
]

lower-upper : (c : ℕ) → lower (upper c) ≡ lower c
unfolding lower upper
lower-upper c = ground arith

upper-lower : (c : ℕ) → upper (lower c) ≡ upper c
unfolding lower upper
upper-lower c = ground arith

-- Changing a text to upper case and then to lower case is changing it to lower case, and the other way
-- round.
pub case_changes :
    (str : List ℕ)
    → (to_lower (to_upper str) ≡ to_lower str) × (to_upper (to_lower str) ≡ to_upper str)
unfolding to_lower to_upper
case_changes [] = (refl, refl)
case_changes (c ∷ cs) =
    let rest = case_changes cs in
    (ap₂ (λ x xs. x ∷ xs) (lower-upper c) rest.0, ap₂ (λ x xs. x ∷ xs) (upper-lower c) rest.1)
