-- ===== src/Logs/Stream/Lines.antt =====
-- What a line of the log says (base/LogStream.cpp, Logger.cpp and TTime.cpp).
use turbo_multimedia_server.Common.{
  ℕ, suc, ◌+◌, ◌*◌, ◌/◌, ◌≡◌, ◌≤◌, ◌<◌, refl, sym, ap, ◌∙◌, inl, inr, ◌⊎◌, List, [], ◌∷◌, ◌++◌,
  Option, none, some, drop, leb, ◌==◌, if◌then◌else◌, arith, Bool-cases, Option-cases, drop-drop,
  leb→le, not-leb→lt, append_assoc, append-nil,
}
use turbo_multimedia_server.Text.{get_file_name, find_last_of}
use turbo_multimedia_server.Logs.{writes, write_log}
use turbo_multimedia_server.Logs.Stream.{
  LogLevel, rank, level_name, Logger, Output, asks, prints, write, strrchr, file_name, Source,
  new_stream, put_all, log, get_level, TimeVal, three_digits,
}

strrchr-find_last_of :
    (x : ℕ) (str : List ℕ)
    → strrchr x str ≡ (elim (find_last_of x str) [ none ↦ none | some i ↦ some (drop i str) ])
unfolding strrchr find_last_of
strrchr-find_last_of x [] = refl
strrchr-find_last_of x (c ∷ cs) = elim (Option-cases (find_last_of x cs)) [
  | inr (i, there) ↦
      ap (λ o. elim o [ some rest ↦ some rest | none ↦ if c == x then some (c ∷ cs) else none ])
        (strrchr-find_last_of x cs ∙ ap at there)
      ∙ rw (find_last_of, there) refl
  | inl never ↦
      ap (λ o. elim o [ some rest ↦ some rest | none ↦ if c == x then some (c ∷ cs) else none ])
        (strrchr-find_last_of x cs ∙ ap at never)
      ∙ elim (Bool-cases (c == x)) [
        | inl here ↦ rw (find_last_of, never, here) refl
        | inr other ↦ rw (find_last_of, never, other) refl
      ]
]
  where
    at : Option ℕ → Option (List ℕ)
    at o = elim o [ none ↦ none | some i ↦ some (drop i cs) ]

drop_one-drop : (i : ℕ) (xs : List ℕ) → drop 1 (drop i xs) ≡ drop (suc i) xs
drop_one-drop i xs = drop-drop 1 i xs ∙ ap (λ k. drop k xs) {y = suc i} (omega arith)

-- The file that a line of the log names is the one that `StringUtils::getFileName` gives of the path.
pub file_name-get_file_name : (path : List ℕ) → file_name path ≡ get_file_name path
unfolding file_name get_file_name
file_name-get_file_name path = elim (Option-cases (find_last_of b'/' path)) [
  | inr (i, there) ↦
      ap named (strrchr-find_last_of b'/' path ∙ ap at there)
      ∙ drop_one-drop i path
      ∙ rw (get_file_name, there) refl
  | inl never ↦
      ap named (strrchr-find_last_of b'/' path ∙ ap at never) ∙ rw (get_file_name, never) refl
]
  where
    at : Option ℕ → Option (List ℕ)
    at o = elim o [ none ↦ none | some i ↦ some (drop i path) ]

    named : Option (List ℕ) → List ℕ
    named o = elim o [ none ↦ path | some rest ↦ drop 1 rest ]

-- Texts that are put one after another are behind what was there.
pub texts : List (List ℕ) → List ℕ
texts [] = []
texts (v ∷ vs) = v ++ texts vs

put_all_lem : (vs : List (List ℕ)) (s : List ℕ) → put_all vs s ≡ s ++ texts vs
unfolding put_all texts
put_all_lem [] s = sym (append-nil s)
put_all_lem (v ∷ vs) s = put_all_lem vs (s ++ v) ∙ append_assoc s v (texts vs)

-- The header of a line: its time, the thread, the level, and the file, line and function it comes from.
abbrev header_of : (ℕ → List ℕ) → List ℕ → ℕ → LogLevel → Source → List ℕ → List ℕ
header_of print now id level at file =
    now
    ++ (b' '
        ∷ (print id
            ++ (b' '
                ∷ (level_name level
                    ++ (b' '
                        ∷ b'['
                        ∷ (file
                            ++ (b':'
                                ∷ (print at.line
                                    ++ (b']'
                                        ∷ b' '
                                        ∷ b'['
                                        ∷ (at.func ++ (b']' ∷ b' ' ∷ [])))))))))))

abbrev pub header : (ℕ → List ℕ) → List ℕ → ℕ → LogLevel → Source → List ℕ
header print now id level at = header_of print now id level at (get_file_name at.file)

new_stream_lem :
    (print : ℕ → List ℕ) (now : List ℕ) (id : ℕ) (level : LogLevel) (at : Source)
    → new_stream print now id level at ≡ header print now id level at
unfolding new_stream texts
new_stream_lem print now id level at =
    put_all_lem pieces [] ∙ ap (header_of print now id level at) (file_name-get_file_name at.file)
  where
    pieces : List (List ℕ)
    pieces =
        now
        ∷ (b' ' ∷ [])
        ∷ print id
        ∷ (b' ' ∷ [])
        ∷ level_name level
        ∷ (b' ' ∷ [])
        ∷ (b'[' ∷ [])
        ∷ file_name at.file
        ∷ (b':' ∷ [])
        ∷ print at.line
        ∷ (b']' ∷ [])
        ∷ (b' ' ∷ [])
        ∷ (b'[' ∷ [])
        ∷ at.func
        ∷ (b']' ∷ b' ' ∷ [])
        ∷ []

-- The line that `log` writes.
abbrev pub line : (ℕ → List ℕ) → List ℕ → ℕ → LogLevel → Source → List (List ℕ) → List ℕ
line print now id level at values = header print now id level at ++ (texts values ++ (10 ∷ []))

-- Where a line goes.
abbrev pub written : Logger → List ℕ → Output
written l text = elim l.file_log [
  | some log ↦ asks (writes (elim log.fd [ none ↦ 1 | some fd ↦ fd ]) text ∷ [])
  | none ↦ prints text
]

-- Whatever is put into a line, and in however many parts, it is written whole and once, if its level is
-- not below the logger's, and otherwise not at all. The line begins with the time, the thread, the level
-- and the place it comes from, whose file is named as `StringUtils::getFileName` names it, and ends with a
-- line feed. It goes to the file of the log, or to the standard output where the logger has none or the
-- file is not open.
pub log_lem :
    (print : ℕ → List ℕ) (l : Logger) (now : List ℕ) (id : ℕ) (level : LogLevel) (at : Source)
    (values : List (List ℕ))
    → let out = log print (some l) now id level at values in
      ((rank l.level ≤ rank level) × (out ≡ written l (line print now id level at values) ∷ []))
      ⊎ ((rank level < rank l.level) × (out ≡ []))
unfolding log write write_log get_level
log_lem print l now id level at values = elim (Bool-cases (leb (rank l.level) (rank level))) [
  | inl enough ↦ inl (
    leb→le _ _ enough,
    rw enough (
        ap (λ t. written l (t ++ (10 ∷ [])) ∷ [])
          (put_all_lem values (new_stream print now id level at))
        ∙ ap (λ t. written l t ∷ [])
            (ap (λ h. (h ++ texts values) ++ (10 ∷ [])) (new_stream_lem print now id level at)
              ∙ append_assoc (header print now id level at) (texts values) (10 ∷ []))),
  )
  | inr below ↦ inr (not-leb→lt _ _ below, rw below refl)
]

-- The milliseconds of a time in the log are three digits, and are those of `gettimeofday`.
pub three_digits_lem :
    (tv : TimeVal)
    → tv.usec < 1000000
    → (a : ℕ) × (b : ℕ) × (c : ℕ) × (three_digits (tv.usec / 1000)
        ≡ (a + b'0') ∷ (b + b'0') ∷ (c + b'0') ∷ [])
      × (a < 10)
      × (b < 10)
      × (c < 10)
      × (a * 100 + b * 10 + c ≡ tv.usec / 1000)
unfolding three_digits
three_digits_lem tv range = (_, _, _, refl, omega arith, omega arith, omega arith, omega arith)
