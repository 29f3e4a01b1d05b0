-- ===== src/Buffer/Ints.antt =====
-- The integers that MsgBuffer appends, prepends, peeks and reads in network order
-- (network/base/MsgBuffer.h). A signed integer stands as its two's complement bit pattern.
use turbo_multimedia_server.Common.{
  ℕ, ◌+◌, ◌^◌, ◌≡◌, refl, sym, ◌≤◌, ◌<◌, ◌∙◌, ap, inl, inr, List, [], ◌∷◌, ◌++◌, take, drop, length,
  slice, Result, ok, ◌>>=◌, arith, le→leb, take-take, be_bytes, from_be, from_be-be_bytes,
  length-be_bytes, take-append_left, drop-append_left, take_all, drop_all, length-append,
  append-nil, append_assoc,
}
use turbo_multimedia_server.Buffer.{
  MsgBuffer, IntWidth, size_of, max_size, readable_bytes, prependable_bytes, content, append_int,
  prepend_int, peek_int, retrieve_int, read_int,
}
use turbo_multimedia_server.Buffer.Valid.{IsValid, length-content}
use turbo_multimedia_server.Buffer.Content.{Holds, append_lem, retrieve_lem, prepend_lem}

-- The values of a width.
abbrev pub InRange : IntWidth → ℕ → Type 0
InRange w x = x < 256 ^ size_of w

abbrev pub encoded : IntWidth → ℕ → List ℕ
encoded w x = be_bytes (size_of w) x

take-encoded :
    (w : IntWidth) (x : ℕ) (rest : List ℕ) → take (size_of w) (encoded w x ++ rest) ≡ encoded w x
take-encoded w x rest =
    take-append_left (size_of w) (encoded w x) rest (omega (arith, length-be_bytes (size_of w) x))
    ∙ take_all (size_of w) (encoded w x) (omega (arith, length-be_bytes (size_of w) x))

drop-encoded :
    (w : IntWidth) (x : ℕ) (rest : List ℕ) → drop (size_of w) (encoded w x ++ rest) ≡ rest
drop-encoded w x rest =
    drop-append_left (size_of w) (encoded w x) rest (omega (arith, length-be_bytes (size_of w) x))
    ∙ ap (λ l. l ++ rest)
        (drop_all (size_of w) (encoded w x) (omega (arith, length-be_bytes (size_of w) x)))

-- A buffer whose content begins with an integer of some width reads it, and goes on with the rest.
pub read_int_lem :
    (w : IntWidth) (x : ℕ) (rest : List ℕ) {b : MsgBuffer}
    → IsValid b
    → InRange w x
    → content b ≡ encoded w x ++ rest
    → (b' : MsgBuffer) × (read_int w b ≡ ok (x, b')) × Holds rest b'
unfolding read_int peek_int retrieve_int
read_int_lem w x rest {b} v r e = elim (retrieve_lem (size_of w) v) [
  | inl (b', done, h) ↦ (
    b',
    rw (done, le→leb _ _ h.inside, value h.inside),
    record {
      valid = h.holds.valid;
      bytes = h.holds.bytes ∙ ap (drop (size_of w)) e ∙ drop-encoded w x rest;
    },
  )
  | inr (_, short) ↦ absurd (
      omega (
        arith,
        ap length e,
        length-content v,
        length-append (encoded w x) rest,
        length-be_bytes (size_of w) x,
      ))
]
  where
    value : size_of w ≤ readable_bytes b → from_be (slice b.reader_index (size_of w) b.buffer) ≡ x
    value h =
        ap from_be (
          sym (take-take (size_of w) (readable_bytes b) _ h)
          ∙ ap (take (size_of w)) e
          ∙ take-encoded w x rest)
        ∙ from_be-be_bytes (size_of w) x r

-- What `prependInt64` and its like put before the content, `readInt64` and its like give back, and
-- the content is as before.
pub read_int-prepend_int :
    (w : IntWidth) (x : ℕ) {b : MsgBuffer}
    → IsValid b
    → InRange w x
    → size_of w ≤ prependable_bytes b
    → (b₁ b₂ : MsgBuffer) × (prepend_int w x b ≡ ok b₁)
      × (read_int w b₁ ≡ ok (x, b₂))
      × Holds (content b) b₂
unfolding prepend_int
read_int-prepend_int w x {b} v r h = elim (prepend_lem (encoded w x) v) [
  | inl (b₁, e, _, held) ↦
      let (b₂, e₂, rest) = read_int_lem w x (content b) held.valid r held.bytes in
      (b₁, b₂, e, e₂, rest)
  | inr (_, short) ↦ absurd (omega (arith, length-be_bytes (size_of w) x))
]

-- Integers appended one after another.
pub append_ints : List (IntWidth × ℕ) → MsgBuffer → Result MsgBuffer
append_ints [] b = ok b
append_ints ((w, x) ∷ xs) b = append_int w x b >>= append_ints xs

-- Integers of the given widths, read one after another.
pub read_ints : List IntWidth → MsgBuffer → Result (List ℕ × MsgBuffer)
read_ints [] b = ok ([], b)
read_ints (w ∷ ws) b = read_int w b >>= λ p. read_ints ws p.1 >>= λ q. ok (p.0 ∷ q.0, q.1)

abbrev pub AllInRange : List (IntWidth × ℕ) → Type 0
AllInRange [] = Unit {0}
AllInRange ((w, x) ∷ xs) = InRange w x × AllInRange xs

abbrev pub widths : List (IntWidth × ℕ) → List IntWidth
widths [] = []
widths ((w, x) ∷ xs) = w ∷ widths xs

abbrev pub values : List (IntWidth × ℕ) → List ℕ
values [] = []
values ((w, x) ∷ xs) = x ∷ values xs

abbrev pub encoding : List (IntWidth × ℕ) → List ℕ
encoding [] = []
encoding ((w, x) ∷ xs) = encoded w x ++ encoding xs

abbrev pub total_size : List (IntWidth × ℕ) → ℕ
total_size [] = 0
total_size ((w, x) ∷ xs) = size_of w + total_size xs

append_ints_lem :
    (xs : List (IntWidth × ℕ)) {b : MsgBuffer}
    → IsValid b
    → b.writer_index + total_size xs ≤ max_size
    → (b' : MsgBuffer) × (append_ints xs b ≡ ok b') × Holds (content b ++ encoding xs) b'
unfolding append_ints append_int
append_ints_lem [] {b} v h = (b, refl, record { valid = v; bytes = sym (append-nil (content b)) })
append_ints_lem ((w, x) ∷ xs) {b} v h =
    elim (append_lem (encoded w x) v (omega (arith, length-be_bytes (size_of w) x))) [
      | inl (b₁, e, r) ↦
          let (b₂, e₂, held) =
            append_ints_lem xs r.holds.valid
              (omega (arith, r.behind, length-be_bytes (size_of w) x)) in
          (
            b₂,
            rw (e, e₂),
            record {
              valid = held.valid;
              bytes =
                  held.bytes
                  ∙ ap (λ l. l ++ encoding xs) r.holds.bytes
                  ∙ append_assoc (content b) (encoded w x) (encoding xs);
            },
          )
      | inr (_, (_, over)) ↦ absurd (omega (arith, length-be_bytes (size_of w) x))
    ]

read_ints_lem :
    (xs : List (IntWidth × ℕ)) {b : MsgBuffer}
    → IsValid b
    → AllInRange xs
    → content b ≡ encoding xs
    → (b' : MsgBuffer) × (read_ints (widths xs) b ≡ ok (values xs, b')) × Holds [] b'
unfolding read_ints
read_ints_lem [] {b} v r e = (b, refl, record { valid = v; bytes = e })
read_ints_lem ((w, x) ∷ xs) {b} v r e =
    let (b₁, e₁, held) = read_int_lem w x (encoding xs) v r.0 e in
    let (b₂, e₂, rest) = read_ints_lem xs held.valid r.1 held.bytes in (b₂, rw (e₁, e₂), rest)

-- Integers of any widths, appended to an empty buffer one after another, are read back by reads of
-- the same widths, in order, and leave the buffer empty.
pub read_ints-append_ints :
    (xs : List (IntWidth × ℕ)) {b : MsgBuffer}
    → IsValid b
    → content b ≡ []
    → b.writer_index + total_size xs ≤ max_size
    → AllInRange xs
    → (b₁ b₂ : MsgBuffer) × (append_ints xs b ≡ ok b₁)
      × (read_ints (widths xs) b₁ ≡ ok (values xs, b₂))
      × Holds [] b₂
read_ints-append_ints xs {b} v none h r =
    let (b₁, e₁, held) = append_ints_lem xs v h in
    let (b₂, e₂, rest) =
      read_ints_lem xs held.valid r (held.bytes ∙ ap (λ l. l ++ encoding xs) none) in
    (b₁, b₂, e₁, e₂, rest)
