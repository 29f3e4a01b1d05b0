-- ===== src/Buffer/Search.antt =====
-- The searches for an end of line (network/base/MsgBuffer.h and MsgBuffer.cpp, `findCRLF` and
-- `findEOL`). A pointer is an offset from `begin()`, and `NULL` is `none`.
use turbo_multimedia_server.Common.{
  drop-drop, drop-take, ap, ap₂, sym, ◌∙◌, le→leb, ℕ, zero, suc, ◌+◌, ◌-◌, ◌≡◌, inl, inr,
  Bool-cases, ◌≤◌, ◌<◌, ◌&&◌, Option, none, some, List, [], ◌∷◌, drop, take, slice, get_elem?,
  arith, ◌==◌, if◌then◌else◌, leb, Result, ok, assert, ◌>>◌, sub_size,
}
use turbo_multimedia_server.Buffer.{MsgBuffer, readable_bytes, content}
use turbo_multimedia_server.Buffer.Valid.{IsValid}

-- `kCRLF`.
abbrev pub crlf : List ℕ
crlf = 13 ∷ 10 ∷ []

-- `std::search` for the two bytes of `kCRLF`; `i` is the position of the list's first byte.
pub search_crlf : ℕ → List ℕ → Option ℕ
search_crlf i [] = none
search_crlf i (c ∷ []) = none
search_crlf i (c ∷ d ∷ cs) =
    let rest = search_crlf (i + 1) (d ∷ cs) in if c == 13 && d == 10 then some i else rest

-- `memchr` for '\n'.
pub search_eol : ℕ → List ℕ → Option ℕ
search_eol i [] = none
search_eol i (c ∷ cs) = let rest = search_eol (i + 1) cs in if c == 10 then some i else rest

pub find_crlf : MsgBuffer → Option ℕ
find_crlf b = search_crlf b.reader_index (content b)

-- From an offset `start` on.
pub find_crlf_from : ℕ → MsgBuffer → Result (Option ℕ)
find_crlf_from start b = do
  assert (leb b.reader_index start)
  assert (leb start b.writer_index)
  ok (search_crlf start (slice start (sub_size b.writer_index start) b.buffer))

pub find_eol : MsgBuffer → Option ℕ
find_eol b = search_eol b.reader_index (content b)

pub find_eol_from : ℕ → MsgBuffer → Result (Option ℕ)
find_eol_from start b = do
  assert (leb b.reader_index start)
  assert (leb start b.writer_index)
  ok (search_eol start (slice start (sub_size b.writer_index start) b.buffer))

-- The bytes at `k` and behind it are "\r\n".
abbrev pub CrlfAt : List ℕ → ℕ → Type 0
CrlfAt cs k = (get_elem? cs k ≡ some 13) × (get_elem? cs (suc k) ≡ some 10)

-- The byte at `k` is '\n'.
abbrev pub EolAt : List ℕ → ℕ → Type 0
EolAt cs k = get_elem? cs k ≡ some 10

-- A search from offset `base` on gives the first place where `P` holds, and `none` if there is none.
abbrev pub FindsFirst : (ℕ → Type 0) → ℕ → Option ℕ → Type 0
FindsFirst P base none = (k : ℕ) → ¬ P k
FindsFirst P base (some p) = (k : ℕ) × (p ≡ base + k) × P k × ((j : ℕ) → j < k → ¬ P j)

FindsFirst-suc :
    (P Q : ℕ → Type 0) (base : ℕ) (r : Option ℕ)
    → ¬ Q 0
    → ((k : ℕ) → Q (suc k) → P k)
    → ((k : ℕ) → P k → Q (suc k))
    → FindsFirst P (base + 1) r
    → FindsFirst Q base r
FindsFirst-suc P Q base none n down up h = λ k. no_place k
  where
    no_place : (k : ℕ) → ¬ Q k
    no_place zero q = n q
    no_place (suc k) q = h k (down k q)
FindsFirst-suc P Q base (some p) n down up (k, e, at, before) =
    (suc k, omega arith, up k at, earlier)
  where
    earlier : (j : ℕ) → j < suc k → ¬ Q j
    earlier zero l q = n q
    earlier (suc j) l q = before j (omega arith) (down j q)

search_crlf-FindsFirst :
    (base : ℕ) (cs : List ℕ) → FindsFirst (CrlfAt cs) base (search_crlf base cs)
unfolding search_crlf
search_crlf-FindsFirst base [] = λ k h. cc
search_crlf-FindsFirst base (c ∷ []) = λ k h. nowhere k h.1
  where
    nowhere : (k : ℕ) → get_elem? {A = ℕ} [] k ≡ some 10 → ⊥
    nowhere k h = cc
search_crlf-FindsFirst base (c ∷ d ∷ cs) = elim (Bool-cases (c == 13 && d == 10)) [
  | inl found ↦ rw found (0, omega arith, (ground arith, ground arith), λ j l. absurd (omega arith))
  | inr other ↦ rw other (
      FindsFirst-suc (CrlfAt (d ∷ cs)) (CrlfAt (c ∷ d ∷ cs)) base (search_crlf (base + 1) (d ∷ cs))
        (λ h. ground arith) (λ k h. h) (λ k h. h) (search_crlf-FindsFirst (base + 1) (d ∷ cs)))
]

search_eol-FindsFirst : (base : ℕ) (cs : List ℕ) → FindsFirst (EolAt cs) base (search_eol base cs)
unfolding search_eol
search_eol-FindsFirst base [] = λ k h. cc
search_eol-FindsFirst base (c ∷ cs) = elim (Bool-cases (c == 10)) [
  | inl found ↦ rw found (0, omega arith, ground arith, λ j l. absurd (omega arith))
  | inr other ↦ rw other (
      FindsFirst-suc (EolAt cs) (EolAt (c ∷ cs)) base (search_eol (base + 1) cs) (λ h. ground arith)
        (λ k h. h) (λ k h. h) (search_eol-FindsFirst (base + 1) cs))
]

-- `findCRLF` gives the first "\r\n" of the readable bytes, and NULL exactly when they hold none.
pub find_crlf-FindsFirst :
    (b : MsgBuffer) → FindsFirst (CrlfAt (content b)) b.reader_index (find_crlf b)
unfolding find_crlf
find_crlf-FindsFirst b = search_crlf-FindsFirst b.reader_index (content b)

-- `findEOL` gives the first '\n' of the readable bytes, and NULL exactly when they hold none.
pub find_eol-FindsFirst :
    (b : MsgBuffer) → FindsFirst (EolAt (content b)) b.reader_index (find_eol b)
unfolding find_eol
find_eol-FindsFirst b = search_eol-FindsFirst b.reader_index (content b)

from_lem :
    (start : ℕ) {b : MsgBuffer}
    → IsValid b
    → b.reader_index ≤ start
    → start ≤ b.writer_index
    → slice start (sub_size b.writer_index start) b.buffer
      ≡ drop (start - b.reader_index) (content b)
from_lem start {b} v l h =
    ap₂ (λ k n. take n (drop k b.buffer)) {y = b.reader_index + (start - b.reader_index)}
      {v = readable_bytes b - (start - b.reader_index)} (omega arith) (omega arith)
    ∙ ap (take (readable_bytes b - (start - b.reader_index)))
        (sym (drop-drop (start - b.reader_index) b.reader_index b.buffer))
    ∙ sym (drop-take (start - b.reader_index) (readable_bytes b) (drop b.reader_index b.buffer))

-- The searches from a place within the readable bytes on give the first line end behind it, and NULL
-- exactly when there is none.
pub find_from-FindsFirst :
    (start : ℕ) {b : MsgBuffer}
    → IsValid b
    → b.reader_index ≤ start
    → start ≤ b.writer_index
    → let rest = drop (start - b.reader_index) (content b) in
      (r s : Option ℕ) × (find_crlf_from start b ≡ ok r)
      × FindsFirst (CrlfAt rest) start r
      × (find_eol_from start b ≡ ok s)
      × FindsFirst (EolAt rest) start s
unfolding find_crlf_from find_eol_from
find_from-FindsFirst start {b} v l h =
    let rest = drop (start - b.reader_index) (content b) in
    (
      search_crlf start rest,
      search_eol start rest,
      rw (le→leb _ _ l, le→leb _ _ h, from_lem start v l h),
      search_crlf-FindsFirst start rest,
      rw (le→leb _ _ l, le→leb _ _ h, from_lem start v l h),
      search_eol-FindsFirst start rest,
    )
