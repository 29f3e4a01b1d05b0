-- ===== src/Text.antt =====
-- base/StringUtils.h and StringUtils.cpp: a text is the list of its bytes, and `npos` is `none`.
pub mod Paths
pub mod Splits
mod Tests
use turbo_multimedia_server.Common.{
  ℕ, zero, suc, ◌+◌, ◌-◌, Bool, true, false, ◌&&◌, ◌||◌, List, [], ◌∷◌, map, Option, none, some,
  length, take, drop, get_or, leb, ◌==◌, if◌then◌else◌, Result, ok, fail, unfinished, ◌>>=◌,
}

-- `find_last_of` of one byte.
unfoldable pub find_last_of : ℕ → List ℕ → Option ℕ
find_last_of x [] = none
find_last_of x (c ∷ cs) = elim (find_last_of x cs) [
  | some i ↦ some (suc i)
  | none ↦ if c == x then some 0 else none
]

unfoldable pub get_file_name : List ℕ → List ℕ
get_file_name path = elim (find_last_of b'/' path) [ none ↦ path | some pos ↦ drop (suc pos) path ]

pub get_file_path : List ℕ → List ℕ
get_file_path path = elim (find_last_of b'/' path) [ none ↦ b'.' ∷ [] | some pos ↦ take pos path ]

pub get_file_name_without_ext : List ℕ → List ℕ
unfolding get_file_name
get_file_name_without_ext path = elim (find_last_of b'.' (get_file_name path)) [
  | none ↦ get_file_name path
  | some pos ↦ take pos (get_file_name path)
]

pub get_file_ext : List ℕ → List ℕ
unfolding get_file_name
get_file_ext path = elim (find_last_of b'.' (get_file_name path)) [
  | none ↦ []
  | some pos ↦ drop (suc pos) (get_file_name path)
]

-- `chars.find(c) != npos`.
abbrev pub contains : ℕ → List ℕ → Bool
contains c [] = false
contains c (d ∷ ds) = d == c || contains c ds

-- The loops of `trimLeft` and `trimRight`: where they stop.
pub left_stop : List ℕ → List ℕ → ℕ
left_stop chars [] = 0
left_stop chars (c ∷ cs) = let rest = left_stop chars cs in if contains c chars then suc rest else 0

pub right_stop : List ℕ → List ℕ → ℕ → ℕ
right_stop chars str zero = 0
right_stop chars str (suc pos) =
    let rest = right_stop chars str pos in
    if contains (get_or str pos 0) chars then rest else suc pos

pub trim_left : List ℕ → List ℕ → List ℕ
unfolding left_stop
trim_left str chars = drop (left_stop chars str) str

pub trim_right : List ℕ → List ℕ → List ℕ
unfolding right_stop
trim_right str chars = take (right_stop chars str (length str)) str

pub trim : List ℕ → List ℕ → List ℕ
unfolding trim_left trim_right
trim str chars = trim_left (trim_right str chars) chars

abbrev pub spaces : List ℕ
spaces = b' ' ∷ []

pub trim_spaces : List ℕ → List ℕ
unfolding trim
trim_spaces str = trim str spaces

pub trim_left_spaces : List ℕ → List ℕ
unfolding trim_left
trim_left_spaces str = trim_left str spaces

pub trim_right_spaces : List ℕ → List ℕ
unfolding trim_right
trim_right_spaces str = trim_right str spaces

pub lower : ℕ → ℕ
lower c = if leb b'A' c && leb c b'Z' then c + 32 else c

pub upper : ℕ → ℕ
upper c = if leb b'a' c && leb c b'z' then c - 32 else c

pub to_lower : List ℕ → List ℕ
unfolding lower
to_lower str = map lower str

pub to_upper : List ℕ → List ℕ
unfolding upper
to_upper str = map upper str

-- Whether a text begins with another, and `find`: the first place where one stands in the other.
abbrev pub starts : List ℕ → List ℕ → Bool
starts [] str = true
starts (d ∷ ds) [] = false
starts (d ∷ ds) (c ∷ cs) = c == d && starts ds cs

pub find : List ℕ → List ℕ → Option ℕ
find delimiter [] = if starts delimiter [] then some 0 else none
find delimiter (c ∷ cs) =
    let rest = find delimiter cs in
    if starts delimiter (c ∷ cs) then some 0 else elim rest [ none ↦ none | some i ↦ some (suc i) ]

-- What `split` does with the text behind the last delimiter.
abbrev pub last_part : List ℕ → List (List ℕ)
last_part [] = []
last_part (c ∷ cs) = (c ∷ cs) ∷ []

-- `split`, with fuel for its loop; `str` is the text from `start` on.
pub split : ℕ → List ℕ → List ℕ → Result (List (List ℕ))
unfolding find
split zero delimiter str = fail unfinished
split (suc n) delimiter str =
    let rest : ℕ → Result (List (List ℕ)) =
      λ i. split n delimiter (drop (i + length delimiter) str) in
    elim (find delimiter str) [
      | some i ↦ rest i >>= λ parts. ok (take i str ∷ parts)
      | none ↦ ok (last_part str)
    ]
