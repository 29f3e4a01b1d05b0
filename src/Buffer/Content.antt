-- ===== src/Buffer/Content.antt =====
-- MsgBuffer as a queue of bytes: what each operation does to the content (network/base/MsgBuffer.h).
use turbo_multimedia_server.Common.{
  max, ℕ, ◌+◌, ◌-◌, ◌≡◌, refl, sym, ap₂, drop_all, ◌≤◌, ◌<◌, ◌∙◌, ap, inl, inr, ◌⊎◌, List, ◌++◌,
  take, drop, length, slice, splice, ltb, leb, ok, fail, assertion, ◌>>=◌, add_size, sub_size,
  arith, length-splice, Bool-cases, slice-splice_end, slice-splice_start, drop-take, drop-drop,
  leb→le, not-leb→lt, not-ltb→le, ltb→lt,
}
use turbo_multimedia_server.Buffer.{
  MsgBuffer, max_size, readable_bytes, prependable_bytes, content, copy_to, retrieve, has_written,
  retrieve_all, cheap_prepend, append, prepend,
}
use turbo_multimedia_server.Buffer.Valid.{
  IsValid, Extends, Overflows, ensure_writable_bytes-Extends, length-content,
}

-- A buffer of the content `c`.
pub record Holds (c : List ℕ) (b : MsgBuffer) : Type 0 where
  pub valid : IsValid b
  pub bytes : content b ≡ c

-- Bytes written behind the readable ones, and the write index moved over them.
pub behind-Holds :
    (d : List ℕ) (b : MsgBuffer) (w : ℕ)
    → IsValid b
    → b.writer_index + length d ≤ length b.buffer
    → w ≡ b.writer_index + length d
    → Holds
        (content b ++ d)
        (record b { buffer = splice b.writer_index d b.buffer; writer_index = w })
behind-Holds d b w v room e = record {
  valid = record {
    reserve = omega (arith, size);
    small = omega (arith, size);
    ordered = omega arith;
    within = omega (arith, size);
  };
  bytes =
      ap (λ k. slice b.reader_index k (splice b.writer_index d b.buffer))
        {y = readable_bytes b + length d} (omega arith)
      ∙ slice-splice_end b.reader_index (readable_bytes b) b.writer_index d b.buffer (omega arith)
          room;
}
  where
    size : length (splice b.writer_index d b.buffer) ≡ length b.buffer
    size = length-splice b.writer_index d b.buffer room

-- `std::copy` behind the readable bytes, then `hasWritten`.
write_behind-Holds :
    (d : List ℕ) (b : MsgBuffer)
    → IsValid b
    → b.writer_index + length d ≤ length b.buffer
    → (b' : MsgBuffer) × ((copy_to b.writer_index d b >>= has_written (length d)) ≡ ok b')
      × Holds (content b ++ d) b'
      × (b'.writer_index ≤ b.writer_index + length d)
unfolding has_written copy_to
write_behind-Holds d b v room =
    let size = length-splice b.writer_index d b.buffer room in
    (
      _,
      ground (arith, size),
      behind-Holds d b (add_size b.writer_index (length d)) v room (omega arith),
      omega arith,
    )

-- What `append d` leaves of `b`. The end of the content moves by no more than what is written.
pub record Appended (d : List ℕ) (b b' : MsgBuffer) : Type 0 where
  pub holds : Holds (content b ++ d) b'
  pub behind : b'.writer_index ≤ b.writer_index + length d

-- `append` of any bytes puts them behind the content, or throws where the storage cannot be made
-- long enough: no assert fails, and nothing is written out of the storage.
pub append_lem :
    (d : List ℕ) {b : MsgBuffer}
    → IsValid b
    → length d ≤ max_size
    → Extends (Appended d b) (Overflows (length d) b) (append d b)
unfolding append
append_lem d {b} v l = elim (ensure_writable_bytes-Extends (length d) v l) [
  | inl (b₁, e, r) ↦ rw e (
      let (b', e', h, w) = write_behind-Holds d b₁ r.valid r.room in
      inl (
        b',
        e',
        record {
          holds = record { valid = h.valid; bytes = h.bytes ∙ ap (λ c. c ++ d) r.same };
          behind = omega (arith, w, r.behind);
        },
      ))
  | inr (e, o) ↦ inr (rw e, o)
]

-- Moving the read index on drops bytes of the content.
skip-Holds :
    (len : ℕ) {b : MsgBuffer}
    → IsValid b
    → len < readable_bytes b
    → Holds (drop len (content b)) (record b { reader_index = add_size b.reader_index len })
skip-Holds len {b} v h = record {
  valid = record { reserve = v.reserve; small = v.small; ordered = omega arith; within = v.within };
  bytes =
      ap₂ (λ i n. slice i n b.buffer) {y = b.reader_index + len} {v = readable_bytes b - len}
        (omega arith) (omega arith)
      ∙ ap (take (readable_bytes b - len)) (sym (drop-drop len b.reader_index b.buffer))
      ∙ sym (drop-take len (readable_bytes b) (drop b.reader_index b.buffer));
}

retrieve_all-Holds :
    (len : ℕ) {b : MsgBuffer}
    → IsValid b
    → readable_bytes b ≤ len
    → Holds (drop len (content b)) (retrieve_all b)
unfolding retrieve_all
retrieve_all-Holds len {b} v h = record {
  valid = record {
    reserve = v.reserve;
    small = v.small;
    ordered = omega arith;
    within = v.reserve;
  };
  bytes = sym (drop_all len (content b) (omega (arith, length-content v)));
}

-- What `retrieve len` leaves of `b`.
pub record Retrieved (len : ℕ) (b b' : MsgBuffer) : Type 0 where
  pub inside : len ≤ readable_bytes b
  pub holds : Holds (drop len (content b)) b'
  pub behind : b'.writer_index ≤ max cheap_prepend b.writer_index

-- `retrieve` drops the first bytes of the content; with more than there are, its assert fails.
pub retrieve_lem :
    (len : ℕ) {b : MsgBuffer}
    → IsValid b
    → ((b' : MsgBuffer) × (retrieve len b ≡ ok b') × Retrieved len b b')
      ⊎ ((retrieve len b ≡ fail assertion) × (readable_bytes b < len))
unfolding retrieve
retrieve_lem len {b} v = elim (Bool-cases (leb len (readable_bytes b))) [
  | inr beyond ↦ inr (rw beyond, not-leb→lt _ _ beyond)
  | inl inside ↦ elim (Bool-cases (ltb len (readable_bytes b))) [
    | inl less ↦
        rw (inside, less)
          (inl (
            _,
            refl,
            record {
              inside = leb→le _ _ inside;
              holds = skip-Holds len v (ltb→lt _ _ less);
              behind = omega arith;
            },
          ))
    | inr all ↦
        rw (inside, all)
          (inl (
            _,
            refl,
            record {
              inside = leb→le _ _ inside;
              holds = retrieve_all-Holds len v (not-ltb→le _ _ all);
              behind = omega arith;
            },
          ))
  ]
]

-- `prepend` puts bytes before the content; with more than there is room for, its assert fails.
pub prepend_lem :
    (d : List ℕ) {b : MsgBuffer}
    → IsValid b
    → ((b' : MsgBuffer) × (prepend d b ≡ ok b')
        × (length d ≤ prependable_bytes b)
        × Holds (d ++ content b) b')
      ⊎ ((prepend d b ≡ fail assertion) × (prependable_bytes b < length d))
unfolding prepend copy_to
prepend_lem d {b} v = elim (Bool-cases (leb (length d) (prependable_bytes b))) [
  | inl inside ↦
      rw inside
        (inl (_, ground (arith, leb→le _ _ inside), leb→le _ _ inside, put (leb→le _ _ inside)))
  | inr beyond ↦ inr (rw beyond, not-leb→lt _ _ beyond)
]
  where
    put :
        length d ≤ prependable_bytes b
        → Holds (d ++ content b) (record b {
          reader_index = sub_size b.reader_index (length d);
          buffer = splice (sub_size b.reader_index (length d)) d b.buffer;
        })
    put h =
        let e : sub_size b.reader_index (length d) ≡ b.reader_index - length d = omega arith in
        let size = length-splice (b.reader_index - length d) d b.buffer (omega arith) in
        rw e (record {
          valid = record {
            reserve = omega (arith, size);
            small = omega (arith, size);
            ordered = omega arith;
            within = omega (arith, size);
          };
          bytes =
              ap
                (λ k.
                  slice (b.reader_index - length d) k
                    (splice (b.reader_index - length d) d b.buffer))
                {y = length d + readable_bytes b} (omega arith)
              ∙ slice-splice_start (b.reader_index - length d) (readable_bytes b) d b.buffer
                  (omega arith)
              ∙ ap (λ k. d ++ slice k (readable_bytes b) b.buffer) (omega arith);
        })
