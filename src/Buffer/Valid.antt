-- ===== src/Buffer/Valid.antt =====
-- When a MsgBuffer is well formed (network/base/MsgBuffer.h, the diagram of the three regions), and
-- the operations that keep it so.
use turbo_multimedia_server.Common.{
  le→leb, refl, add_size, ℕ, ◌+◌, ◌-◌, ◌≡◌, refl, ◌≤◌, ◌<◌, ◌∙◌, ap, inl, inr, List, ◌++◌, take,
  replicate, length, slice, splice, ltb, leb, Result, ok, fail, length_error, add_size, sub_size,
  arith, length-append, length-take, length-replicate, length-splice, length-slice, Bool-cases,
  slice-append_left, lt→ltb, leb→le, ltb_le, not-leb→lt, not-ltb→le, ltb→lt, ◌⊎◌, slice-splice_self,
  take_all,
}
use turbo_multimedia_server.Buffer.{
  MsgBuffer, cheap_prepend, max_size, readable_bytes, writable_bytes, prependable_bytes, content,
  copy_to, has_written, retrieve_all, grow, move_front, make_space, ensure_writable_bytes,
}

pub record IsValid (b : MsgBuffer) : Type 0 where
  pub reserve : cheap_prepend ≤ length b.buffer
  pub small : length b.buffer ≤ max_size
  pub ordered : b.reader_index ≤ b.writer_index
  pub within : b.writer_index ≤ length b.buffer

pub readable_lem : {b : MsgBuffer} → IsValid b → b.reader_index + readable_bytes b ≡ b.writer_index
readable_lem v = omega arith

pub writable_lem : {b : MsgBuffer} → IsValid b → b.writer_index + writable_bytes b ≡ length b.buffer
writable_lem v = omega arith

pub length-content : {b : MsgBuffer} → IsValid b → length (content b) ≡ readable_bytes b
length-content {b} v = length-slice b.reader_index (readable_bytes b) b.buffer (omega arith)

-- What an operation that may extend the storage does: it succeeds with a postcondition, or throws
-- `std::length_error` for a reason.
abbrev pub Extends : (MsgBuffer → Type 0) → Type 0 → Result MsgBuffer → Type 0
Extends P Q r = ((b : MsgBuffer) × (r ≡ ok b) × P b) ⊎ ((r ≡ fail length_error) × Q)

pub copy_to_lem :
    (p : ℕ) (d : List ℕ) (b : MsgBuffer)
    → p + length d ≤ length b.buffer
    → copy_to p d b ≡ ok (record b { buffer = splice p d b.buffer })
unfolding copy_to
copy_to_lem p d b h = ground arith

pub has_written_lem :
    (len : ℕ) (b : MsgBuffer)
    → len ≤ writable_bytes b
    → has_written len b ≡ ok (record b { writer_index = add_size b.writer_index len })
unfolding has_written
has_written_lem len b h = rw (le→leb _ _ h) refl

pub retrieve_all_lem :
    (b : MsgBuffer)
    → retrieve_all b ≡ record b { reader_index = cheap_prepend; writer_index = cheap_prepend }
unfolding retrieve_all
retrieve_all_lem b = refl

length-resize : (n : ℕ) (xs : List ℕ) → length (take n xs ++ replicate (n - length xs) 0) ≡ n
length-resize n xs = omega (
  arith,
  length-append (take n xs) (replicate (n - length xs) 0),
  length-take n xs,
  length-replicate {A = ℕ} (n - length xs) 0,
)

-- The content after `grow`.
slice-resize :
    (i n m : ℕ) (xs : List ℕ)
    → length xs ≤ m
    → i + n ≤ length xs
    → slice i n (take m xs ++ replicate (m - length xs) 0) ≡ slice i n xs
slice-resize i n m xs h k =
    slice-append_left i n (take m xs) (replicate (m - length xs) 0)
      (omega (arith, length-take m xs))
    ∙ ap (slice i n) (take_all m xs h)

-- Room for `len` more bytes, and the same content.
pub record HasRoom (b : MsgBuffer) (len : ℕ) (b' : MsgBuffer) : Type 0 where
  pub valid : IsValid b'
  pub room : b'.writer_index + len ≤ length b'.buffer
  pub same : content b' ≡ content b
  pub count : readable_bytes b' ≡ readable_bytes b
  pub behind : b'.writer_index ≤ b.writer_index

-- The storage cannot be made to hold `len` more bytes.
abbrev pub Overflows : ℕ → MsgBuffer → Type 0
Overflows len b =
    (writable_bytes b + prependable_bytes b < len + cheap_prepend)
    × (max_size < b.writer_index + len)

grow_lem :
    (len : ℕ) (b : MsgBuffer)
    → b.writer_index + len ≤ max_size
    → grow len b
      ≡ ok (record b {
        buffer =
            take (b.writer_index + len) b.buffer
            ++ replicate (b.writer_index + len - length b.buffer) 0;
      })
unfolding grow
grow_lem len b h =
    let e : add_size b.writer_index len ≡ b.writer_index + len = omega arith in
    rw (e, ltb_le (b.writer_index + len) max_size h)

grow_fail :
    (len : ℕ) (b : MsgBuffer)
    → IsValid b
    → len ≤ max_size
    → max_size < b.writer_index + len
    → grow len b ≡ fail length_error
unfolding grow
grow_fail len b v l h =
    let e : add_size b.writer_index len ≡ b.writer_index + len = omega arith in
    rw (e, lt→ltb max_size (b.writer_index + len) h)

grow-Extends :
    (len : ℕ) (b : MsgBuffer)
    → IsValid b
    → len ≤ max_size
    → writable_bytes b < len
    → writable_bytes b + prependable_bytes b < len + cheap_prepend
    → Extends (HasRoom b len) (Overflows len b) (grow len b)
grow-Extends len b v l short full = elim (Bool-cases (leb (b.writer_index + len) max_size)) [
  | inl fits ↦ inl (
    _,
    grow_lem len b (leb→le _ _ fits),
    record {
      valid = record {
        reserve = omega (arith, size);
        small = omega (arith, size, leb→le _ _ fits);
        ordered = v.ordered;
        within = omega (arith, size);
      };
      room = omega (arith, size);
      same =
          slice-resize b.reader_index (readable_bytes b) (b.writer_index + len) b.buffer
            (omega arith) (omega arith);
      count = refl;
      behind = omega arith;
    },
  )
  | inr long ↦
      let over : max_size < b.writer_index + len = not-leb→lt _ _ long in
      inr (grow_fail len b v l over, (full, over))
]
  where
    size :
        length (
          take (b.writer_index + len) b.buffer
          ++ replicate (b.writer_index + len - length b.buffer) 0)
        ≡ b.writer_index + len
    size = length-resize (b.writer_index + len) b.buffer

-- With the storage not full to the reserve, the assert of the other branch holds.
move_front-HasRoom :
    (len : ℕ) (b : MsgBuffer)
    → IsValid b
    → len ≤ max_size
    → writable_bytes b < len
    → len + cheap_prepend ≤ writable_bytes b + prependable_bytes b
    → (b' : MsgBuffer) × (move_front b ≡ ok b') × HasRoom b len b'
unfolding move_front copy_to
move_front-HasRoom len b v l short room = (
  record b {
    buffer = splice cheap_prepend (content b) b.buffer;
    reader_index = cheap_prepend;
    writer_index = add_size cheap_prepend (readable_bytes b);
  },
  ground (arith, length-content v, size),
  record {
    valid = record {
      reserve = omega (arith, size);
      small = omega (arith, size);
      ordered = omega arith;
      within = omega (arith, size);
    };
    room = omega (arith, size);
    same = moved;
    count = omega arith;
    behind = omega arith;
  },
)
  where
    size : length (splice cheap_prepend (content b) b.buffer) ≡ length b.buffer
    size = length-splice cheap_prepend (content b) b.buffer (omega (arith, length-content v))

    moved :
        slice cheap_prepend
          (sub_size (add_size cheap_prepend (readable_bytes b)) cheap_prepend)
          (splice cheap_prepend (content b) b.buffer)
        ≡ content b
    moved =
        ap (λ k. slice cheap_prepend k (splice cheap_prepend (content b) b.buffer))
          (omega (arith, length-content v))
        ∙ slice-splice_self cheap_prepend (content b) b.buffer (omega (arith, length-content v))

make_space-Extends :
    (len : ℕ) (b : MsgBuffer)
    → IsValid b
    → len ≤ max_size
    → writable_bytes b < len
    → Extends (HasRoom b len) (Overflows len b) (make_space len b)
unfolding make_space
make_space-Extends len b v l short =
    elim (Bool-cases
      (ltb (add_size (writable_bytes b) (prependable_bytes b)) (add_size len cheap_prepend))) [
        | inl full ↦ rw full (grow-Extends len b v l short (omega (arith, ltb→lt _ _ full)))
        | inr room ↦
            rw room (inl (move_front-HasRoom len b v l short (omega (arith, not-ltb→le _ _ room))))
      ]

-- `ensureWritableBytes` makes room and keeps the content, or throws where the storage cannot be made
-- long enough; none of its asserts fails.
pub ensure_writable_bytes-Extends :
    (len : ℕ) {b : MsgBuffer}
    → IsValid b
    → len ≤ max_size
    → Extends (HasRoom b len) (Overflows len b) (ensure_writable_bytes len b)
unfolding ensure_writable_bytes
ensure_writable_bytes-Extends len {b} v l = elim (Bool-cases (ltb (writable_bytes b) len)) [
  | inl short ↦ rw short (elim (make_space-Extends len b v l (ltb→lt _ _ short)) [
    | inl (b', e, r) ↦ inl (b', rw (e) (ground arith), r)
    | inr (e, o) ↦ inr (rw e, o)
  ])
  | inr enough ↦ rw enough (
      inl (
        b,
        ground arith,
        record {
          valid = v;
          room = omega (arith, not-ltb→le _ _ enough);
          same = refl;
          count = refl;
          behind = omega arith;
        },
      ))
]
