-- ===== src/Tcp/Reads.antt =====
-- `TcpConnection::onRead` (network/net/TcpConnection.cpp): what the message callback is given.
use turbo_multimedia_server.Common.{
  ℕ, ◌+◌, ◌≡◌, refl, ap, ◌∙◌, ◌≤◌, ◌<◌, inl, inr, Bool, true, false, not, List, [], ◌∷◌, ◌++◌,
  append-nil, length, lt→ltb, if◌then◌else◌, Option, none, some, ok, ◌>>=◌, arith, Bool-cases,
}
use turbo_multimedia_server.Buffer.{MsgBuffer, max_size, content}
use turbo_multimedia_server.Buffer.Valid.{IsValid}
use turbo_multimedia_server.Buffer.Content.{Holds}
use turbo_multimedia_server.Buffer.ReadFd.{
  ReadvResult, failed, received, read_fd_lem, read_fd_failed,
}
use turbo_multimedia_server.Timing.{TimingWheel}
use turbo_multimedia_server.Tcp.{
  TcpConnection, retryable, on_close, extend_life, read_loop, on_read,
}
use turbo_multimedia_server.Tcp.Writes.{IsTimed, extend_life_lem}

-- Bytes arrive, a piece at each `readv`, and then an error, or the end of the file.
abbrev pub last : Option ℕ → ReadvResult
last none = received []
last (some e) = failed e

abbrev pub arrivals : List (List ℕ) → Option ℕ → List ReadvResult
arrivals [] end = last end ∷ []
arrivals (d ∷ ds) end = received d ∷ arrivals ds end

-- Whether it closes the connection.
abbrev pub is_final : Option ℕ → Bool
is_final none = true
is_final (some e) = not (retryable e)

abbrev pub with_buffer : MsgBuffer → TcpConnection → TcpConnection
with_buffer b c = record c { message_buffer = b }

abbrev pub settled : Bool → TcpConnection → TcpConnection
settled closes c = if closes then on_close c else c

-- The callback `f` is given a content and leaves some of it; it keeps `Kept` of the connection, which does
-- not depend on the buffer. Nothing else is said of what it does.
module _ (f : TcpConnection → TcpConnection) (left : List ℕ → List ℕ) (bound : ℕ)
    (Kept : TcpConnection → Type 0)
    (fills : (t : TcpConnection) (b : MsgBuffer) → Kept t → Kept (with_buffer b t))
    (leaves : (t : TcpConnection) (c : List ℕ)
      → Holds c t.message_buffer
      → Kept t
      → Holds (left c) (f t).message_buffer
        × ((f t).message_buffer.writer_index ≤ bound)
        × ((f t).has_message_cb ≡ t.has_message_cb)
        × Kept (f t)) where
  -- What the callback leaves of the content, one piece after another.
  abbrev pub consumed : List ℕ → List (List ℕ) → List ℕ
  consumed c [] = c
  consumed c (d ∷ ds) = consumed (left (c ++ d)) ds

  -- The pieces hold a byte and fit behind what the callback leaves.
  abbrev pub AllFit : List (List ℕ) → Type 0
  AllFit [] = Unit {0}
  AllFit (d ∷ ds) = (0 < length d) × (bound + length d ≤ max_size) × AllFit ds

  read_loop_lem :
      (ds : List (List ℕ)) (end : Option ℕ) (c : List ℕ) (t : TcpConnection)
      → t.has_message_cb ≡ true
      → Holds c t.message_buffer
      → Kept t
      → t.message_buffer.writer_index ≤ bound
      → bound ≤ max_size
      → AllFit ds
      → (t' : TcpConnection) × (read_loop f (arrivals ds end) t ≡ ok (settled (is_final end) t'))
        × Holds (consumed c ds) t'.message_buffer
        × Kept t'
  unfolding read_loop
  read_loop_lem [] (some e) c t is_f h k w m fit = (
    t,
    rw (read_fd_failed e t.message_buffer)
        (elim (Bool-cases (retryable e)) [ inl r ↦ rw r refl | inr r ↦ rw r refl ]),
    h,
    k,
  )
  read_loop_lem [] none c t is_f h k w m fit =
      let (b', e, h') = read_fd_lem [] h.valid (omega arith) in
      (
        with_buffer b' t,
        rw e refl,
        record {
          valid = h'.valid;
          bytes = h'.bytes ∙ append-nil (content t.message_buffer) ∙ h.bytes;
        },
        fills t b' k,
      )
  read_loop_lem (d ∷ ds) end c t is_f h k w m fit =
      let (b₁, e, h₁) = read_fd_lem d h.valid (omega (arith, fit.1)) in
      let (h₂, w₂, again, k₂) =
        leaves (with_buffer b₁ t) (c ++ d)
          (record { valid = h₁.valid; bytes = h₁.bytes ∙ ap (λ l. l ++ d) h.bytes })
          (fills t b₁ k) in
      let (t', rest, h', k') =
        read_loop_lem ds end (left (c ++ d)) (f (with_buffer b₁ t)) (again ∙ is_f) h₂ k₂ w₂ m
          fit.2 in
      (
        t',
        rw (e, lt→ltb 0 (length d) fit.0)
            (ap
                (λ cb.
                  read_loop f (arrivals ds end)
                    (if cb then f (with_buffer b₁ t) else with_buffer b₁ t))
                is_f
              ∙ rest),
        h',
        k',
      )

  -- Pieces of bytes that arrive at an open connection with a message callback, and then an error of `readv`
  -- or the end of the file: the content is what the callback leaves, piece after piece and in order, of
  -- what it left before with the next piece behind it. The connection is closed by the end of the file and
  -- by an error, unless that is that nothing is there or that a signal came. The callback may send on the
  -- connection and close it; whatever it keeps of the connection, and the reading of bytes and the idle
  -- timer keep too, is kept until then. It leaves a valid buffer, of a content that depends on the content
  -- that it was given and with room for the next piece, and itself as the callback.
  pub on_read-arrivals :
      (ds : List (List ℕ)) (end : Option ℕ) (t : TcpConnection)
      → t.has_message_cb ≡ true
      → IsValid t.message_buffer
      → ((w : TimingWheel) → Kept (record t { wheel = w }))
      → t.message_buffer.writer_index ≤ bound
      → bound ≤ max_size
      → AllFit ds
      → IsTimed t
      → t.closed ≡ false
      → (t' : TcpConnection) × (on_read f (arrivals ds end) t ≡ ok (settled (is_final end) t'))
        × Holds (consumed (content t.message_buffer) ds) t'.message_buffer
        × Kept t'
  unfolding on_read
  on_read-arrivals ds end t is_f v k w m fit timed open_now =
      let (wheel, extended) = extend_life_lem t timed in
      let (t', rest, h, kept) =
        read_loop_lem ds end (content t.message_buffer) (record t { wheel = wheel }) is_f
          (record { valid = v; bytes = refl }) (k wheel) w m fit in
      (
        t',
        ap (λ x. if x then ok t else (extend_life t >>= read_loop f (arrivals ds end))) open_now
            ∙ ap (λ r. r >>= read_loop f (arrivals ds end)) extended
            ∙ rest,
        h,
        kept,
      )
