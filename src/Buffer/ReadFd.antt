-- ===== src/Buffer/ReadFd.antt =====
-- `MsgBuffer::readFd` (network/base/MsgBuffer.cpp): one `readv` into the free storage and a block
-- on the stack. What the kernel answers is an argument.
use turbo_multimedia_server.Common.{
  ℕ, ◌+◌, ◌≡◌, refl, ◌≤◌, ◌<◌, ◌∙◌, ap, inl, inr, List, ◌++◌, take, drop, length, ltb, leb,
  if◌then◌else◌, Result, ok, ◌>>=◌, arith, le→leb, lt→not-leb, take-append-drop, append_assoc,
  add_size, length-take, length-drop, Bool-cases, leb→le, not-leb→lt, splice, length-splice,
}
use turbo_multimedia_server.Buffer.{MsgBuffer, max_size, writable_bytes, content, copy_to, append}
use turbo_multimedia_server.Buffer.Valid.{IsValid, copy_to_lem}
use turbo_multimedia_server.Buffer.Content.{Holds, append_lem, behind-Holds}

-- `readv`: -1 with an `errno`, or the bytes that it stored, which may be none at the end of file.
pub data ReadvResult : Type 0 where
  failed : ℕ → ReadvResult
  received : List ℕ → ReadvResult

-- The result of `readFd`: a negative number with `savedErrno` set, or how many bytes were read.
pub data ReadResult : Type 0 where
  error : ℕ → ReadResult
  count : ℕ → ReadResult

-- `sizeof extrabuf`.
abbrev pub extra_size : ℕ
extra_size = 65536

-- How much the vectors given to `readv` hold.
abbrev pub readv_capacity : MsgBuffer → ℕ
readv_capacity b =
    if ltb (writable_bytes b) extra_size then writable_bytes b + extra_size else writable_bytes b

-- `readv` fills the free storage first.
pub read_fd : ReadvResult → MsgBuffer → Result (ReadResult × MsgBuffer)
read_fd (failed errno) b = ok (error errno, b)
read_fd (received d) b =
    let writable = writable_bytes b in
    let n = length d in
    if leb n writable
    then (copy_to b.writer_index d b >>= λ b₁.
        ok (count n, record b₁ { writer_index = add_size b.writer_index n }))
    else (copy_to b.writer_index (take writable d) b >>= λ b₁.
        append (drop writable d) (record b₁ { writer_index = length b₁.buffer }) >>= λ b₂.
        ok (count n, b₂))

pub read_fd_failed : (e : ℕ) (b : MsgBuffer) → read_fd (failed e) b ≡ ok (error e, b)
unfolding read_fd
read_fd_failed e b = refl

within_lem :
    (d : List ℕ) {b : MsgBuffer}
    → IsValid b
    → length d ≤ writable_bytes b
    → (b' : MsgBuffer) × (read_fd (received d) b ≡ ok (count (length d), b'))
      × Holds (content b ++ d) b'
unfolding read_fd
within_lem d {b} v h = (
  _,
  rw (le→leb _ _ h, copy_to_lem b.writer_index d b (omega arith)),
  behind-Holds d b (add_size b.writer_index (length d)) v (omega arith) (omega arith),
)

beyond_lem :
    (d : List ℕ) {b : MsgBuffer}
    → IsValid b
    → writable_bytes b < length d
    → b.writer_index + length d ≤ max_size
    → (b' : MsgBuffer) × (read_fd (received d) b ≡ ok (count (length d), b'))
      × Holds (content b ++ d) b'
unfolding read_fd
beyond_lem d {b} v h fits =
    elim (append_lem (drop (writable_bytes b) d) full.valid
      (omega (arith, length-drop (writable_bytes b) d))) [
        | inl (b', e, r) ↦ (
          b',
          rw (
            lt→not-leb _ _ h,
            copy_to_lem b.writer_index (take (writable_bytes b) d) b (omega (arith, front)),
            e,
          ),
          record {
            valid = r.holds.valid;
            bytes =
                r.holds.bytes
                ∙ ap (λ l. l ++ drop (writable_bytes b) d) full.bytes
                ∙ append_assoc (content b) (take (writable_bytes b) d) (drop (writable_bytes b) d)
                ∙ ap (λ l. content b ++ l) (take-append-drop (writable_bytes b) d);
          },
        )
        | inr (_, (_, over)) ↦ absurd (omega (arith, length-drop (writable_bytes b) d, size))
      ]
  where
    front : length (take (writable_bytes b) d) ≡ writable_bytes b
    front = omega (arith, length-take (writable_bytes b) d)

    size : length (splice b.writer_index (take (writable_bytes b) d) b.buffer) ≡ length b.buffer
    size = length-splice b.writer_index (take (writable_bytes b) d) b.buffer (omega (arith, front))

    full : Holds (content b ++ take (writable_bytes b) d) (record b {
      buffer = splice b.writer_index (take (writable_bytes b) d) b.buffer;
      writer_index = length (splice b.writer_index (take (writable_bytes b) d) b.buffer);
    })
    full =
        behind-Holds (take (writable_bytes b) d) b _ v (omega (arith, front))
          (omega (arith, front, size))

-- Whatever `readv` stored, in the free storage or beyond it, is appended to the content in order, and
-- the result is its length.
pub read_fd_lem :
    (d : List ℕ) {b : MsgBuffer}
    → IsValid b
    → b.writer_index + length d ≤ max_size
    → (b' : MsgBuffer) × (read_fd (received d) b ≡ ok (count (length d), b'))
      × Holds (content b ++ d) b'
read_fd_lem d {b} v fits = elim (Bool-cases (leb (length d) (writable_bytes b))) [
  | inl h ↦ within_lem d v (leb→le _ _ h)
  | inr h ↦ beyond_lem d v (not-leb→lt _ _ h) fits
]
