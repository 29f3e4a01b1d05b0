-- ===== src/Buffer/Shrink.antt =====
-- The constructor of MsgBuffer, `toStringPiece` and `shrink` (network/base/MsgBuffer.h).
use turbo_multimedia_server.Common.{
  take-nil, ℕ, ◌+◌, ◌-◌, ◌^◌, ◌%◌, ◌≡◌, refl, ◌≤◌, ◌<◌, ◌∙◌, ap, inl, inr, ◌⊎◌, List, [], ◌++◌,
  take, length, replicate, ltb, ok, fail, length_error, arith, ltb_le, add_size, length-replicate,
  splice, length-splice, Bool-cases, not-ltb→le, ltb→lt,
}
use turbo_multimedia_server.Buffer.{
  MsgBuffer, cheap_prepend, initial_size, max_size, readable_bytes, writable_bytes,
  prependable_bytes, content, init, swap, copy_to, has_written, to_string_piece,
  ensure_writable_bytes, append, shrink,
}
use turbo_multimedia_server.Buffer.Valid.{IsValid, ensure_writable_bytes-Extends, length-content}
use turbo_multimedia_server.Buffer.Content.{Holds, behind-Holds}

-- A new buffer holds nothing and has room for what was asked for.
pub record Fresh (size : ℕ) (b : MsgBuffer) : Type 0 where
  pub holds : Holds [] b
  pub room : writable_bytes b ≡ size
  pub front : prependable_bytes b ≡ cheap_prepend
  pub writer : b.writer_index ≡ cheap_prepend

zeros : (n : ℕ) → take {A = ℕ} n [] ++ replicate (n - 0) 0 ≡ replicate n 0
zeros n = rw (take-nil) (ap (λ k. replicate {A = ℕ} k 0) (omega arith))

-- The constructor succeeds for every size that a vector can have, its asserts included.
pub init-Fresh :
    (size : ℕ)
    → cheap_prepend + size ≤ max_size
    → (b : MsgBuffer) × (init size ≡ ok b) × Fresh size b
unfolding init
init-Fresh size h = (
  record {
    buffer = replicate (cheap_prepend + size) 0;
    reader_index = cheap_prepend;
    writer_index = cheap_prepend;
  },
  rw (e, ltb_le (cheap_prepend + size) max_size h, zeros (cheap_prepend + size))
      (ground (arith, n)),
  record {
    holds = record {
      valid = record {
        reserve = omega (arith, n);
        small = omega (arith, n);
        ordered = omega arith;
        within = omega (arith, n);
      };
      bytes = refl;
    };
    room = omega (arith, n);
    front = refl;
    writer = refl;
  },
)
  where
    e : add_size cheap_prepend size ≡ cheap_prepend + size
    e = omega arith

    n : length (replicate {A = ℕ} (cheap_prepend + size) 0) ≡ cheap_prepend + size
    n = length-replicate {A = ℕ} (cheap_prepend + size) 0

-- `toStringPiece` gives the content if it is shorter than 2 GiB. From there on to 4 GiB the cast to
-- `int` is negative, and the string's constructor throws.
pub to_string_piece_lem :
    (b : MsgBuffer)
    → readable_bytes b < 2 ^ 32
    → ((to_string_piece b ≡ ok (content b)) × (readable_bytes b < 2 ^ 31))
      ⊎ ((to_string_piece b ≡ fail length_error) × (2 ^ 31 ≤ readable_bytes b))
unfolding to_string_piece
to_string_piece_lem b h =
    let e : readable_bytes b % 2 ^ 32 ≡ readable_bytes b = omega arith in
    rw e (elim (Bool-cases (ltb (readable_bytes b) (2 ^ 31))) [
      | inl short ↦ inl (rw short, ltb→lt _ _ short)
      | inr long ↦ inr (rw long, not-ltb→le _ _ long)
    ])

-- With room for the bytes, `append` moves and grows nothing.
append_room :
    (d : List ℕ) {b : MsgBuffer}
    → IsValid b
    → b.writer_index + length d ≤ length b.buffer
    → append d b
      ≡ ok (record b {
        buffer = splice b.writer_index d b.buffer;
        writer_index = add_size b.writer_index (length d);
      })
unfolding append ensure_writable_bytes copy_to has_written
append_room d {b} v h = ground (arith, length-splice b.writer_index d b.buffer h)

-- `shrink` leaves the content as it is, in a new buffer with at least the reserve behind it.
pub shrink_lem :
    (reserve : ℕ) {b : MsgBuffer}
    → IsValid b
    → readable_bytes b < 2 ^ 31
    → cheap_prepend + (readable_bytes b + reserve) ≤ max_size
    → (b' : MsgBuffer) × (shrink reserve b ≡ ok b')
      × Holds (content b) b'
      × (reserve ≤ writable_bytes b')
unfolding shrink swap
shrink_lem reserve {b} v short h =
    let (b₁, e₁, fresh) = init-Fresh initial_size (omega arith) in
    let c : add_size (readable_bytes b) reserve ≡ readable_bytes b + reserve = omega arith in
    elim (ensure_writable_bytes-Extends (readable_bytes b + reserve) fresh.holds.valid
      (omega arith)) [
        | inr (_, (_, over)) ↦ absurd (omega (arith, fresh.writer))
        | inl (b₂, e₂, r) ↦ elim (to_string_piece_lem b (omega arith)) [
          | inr (_, long) ↦ absurd (omega arith)
          | inl (e₃, _) ↦
              let n = length-content v in
              let room : b₂.writer_index + length (content b) ≤ length b₂.buffer =
                omega (arith, n, r.room) in
              let held =
                behind-Holds (content b) b₂ (add_size b₂.writer_index (length (content b))) r.valid
                  room (omega (arith, r.valid.small)) in
              (
                _,
                rw (e₁, c, e₂, e₃, append_room (content b) r.valid room),
                record {
                  valid = held.valid;
                  bytes = held.bytes ∙ ap (λ l. l ++ content b) (r.same ∙ fresh.holds.bytes);
                },
                omega (
                  arith,
                  n,
                  r.room,
                  r.valid.small,
                  length-splice b₂.writer_index (content b) b₂.buffer room,
                ),
              )
        ]
      ]
