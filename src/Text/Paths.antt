-- ===== src/Text/Paths.antt =====
-- The parts of a path (base/StringUtils.cpp, `getFileName` to `getFilePath`).
use turbo_multimedia_server.Common.{
  ℕ, suc, ◌≡◌, refl, ap, inl, inr, ◌⊎◌, false, List, [], ◌∷◌, ◌++◌, Option, none, some, take, drop,
  ◌==◌, ==_iff, subst, Bool-cases, Option-cases,
}
use turbo_multimedia_server.Text.{
  contains, find_last_of, get_file_name, get_file_path, get_file_name_without_ext, get_file_ext,
}

-- A place of the byte `x` behind which there is none, or no place if there is none at all.
abbrev pub LastAt : ℕ → List ℕ → Option ℕ → Type 0
LastAt x str none = contains x str ≡ false
LastAt x str (some i) =
    (str ≡ take i str ++ (x ∷ drop (suc i) str)) × (contains x (drop (suc i) str) ≡ false)

find_last_of-LastAt : (x : ℕ) (str : List ℕ) → LastAt x str (find_last_of x str)
unfolding find_last_of
find_last_of-LastAt x [] = refl
find_last_of-LastAt x (c ∷ cs) =
    let behind = find_last_of-LastAt x cs in
    elim (Option-cases (find_last_of x cs)) [
      | inr (j, later) ↦
          let at = subst (LastAt x cs) later behind in
          rw (find_last_of, later) (ap (λ t. c ∷ t) at.0, at.1)
      | inl never ↦
          let at = subst (LastAt x cs) never behind in
          elim (Bool-cases (c == x)) [
            | inl here ↦ rw (find_last_of, never, here) (ap (λ y. y ∷ cs) ((==_iff c x).0 here), at)
            | inr other ↦ rw (find_last_of, never, other) (rw (other, at))
          ]
    ]

-- A path with a '/' is its directory, a '/' and its file name; one without is its file name, in the
-- directory ".". A file name holds no '/'.
pub path_parts :
    (path : List ℕ)
    → (contains b'/' (get_file_name path) ≡ false)
      × ((path ≡ get_file_path path ++ (b'/' ∷ get_file_name path))
          ⊎ ((get_file_name path ≡ path) × (get_file_path path ≡ b'.' ∷ [])))
unfolding get_file_name get_file_path
path_parts path =
    let at = find_last_of-LastAt b'/' path in
    elim (Option-cases (find_last_of b'/' path)) [
      | inr (i, there) ↦
          let (parts, none_behind) = subst (LastAt b'/' path) there at in
          rw (get_file_name, get_file_path, there) (none_behind, inl parts)
      | inl never ↦
          rw (get_file_name, get_file_path, never)
            (subst (LastAt b'/' path) never at, inr (refl, refl))
    ]

-- A file name with a '.' is its stem, a '.' and its extension, which holds no '.'; one without is its
-- stem, and has no extension.
pub name_parts :
    (path : List ℕ)
    → (contains b'.' (get_file_ext path) ≡ false)
      × ((get_file_name path ≡ get_file_name_without_ext path ++ (b'.' ∷ get_file_ext path))
          ⊎ ((get_file_name_without_ext path ≡ get_file_name path) × (get_file_ext path ≡ [])))
unfolding get_file_name_without_ext get_file_ext
name_parts path =
    let at = find_last_of-LastAt b'.' (get_file_name path) in
    elim (Option-cases (find_last_of b'.' (get_file_name path))) [
      | inr (i, there) ↦
          let (parts, none_behind) = subst (LastAt b'.' (get_file_name path)) there at in
          rw (get_file_name_without_ext, get_file_ext, there) (none_behind, inl parts)
      | inl never ↦ rw (get_file_name_without_ext, get_file_ext, never) (refl, inr (refl, refl))
    ]
