-- ===== src/Rtmp/Machine/Server.antt =====
-- The server's side of the RTMP handshake (mmedia/rtmp/RtmpHandshake.cpp).
use turbo_multimedia_server.Common.{
  Option-cases, ℕ, zero, suc, ◌+◌, ◌≡◌, refl, sym, ap, ◌∙◌, ◌≤◌, Bool, true, false, List, [], ◌∷◌,
  ◌++◌, none, some, take, drop, slice, ok, arith, inl, inr, ◌⊎◌, ltb_le, take-take,
}
use turbo_multimedia_server.Buffer.{MsgBuffer, readable_bytes, content, retrieve}
use turbo_multimedia_server.Buffer.Valid.{IsValid}
use turbo_multimedia_server.Buffer.Content.{Holds, Retrieved, retrieve_lem}
use turbo_multimedia_server.Rtmp.{
  Hmac, State, RtmpHandShake, packet_size, check_c1s1, create_c2s2, check_c2s2,
}
use turbo_multimedia_server.Rtmp.Machine.{
  failed, ok_so_far, Sent, Outside, Outcome, write_complete_with, on_sent, write_complete,
  send_c1s1, on_c0c1, answer_c0c1, finish, on_c2, dispatch, handshake,
}

-- The packet at the front of a buffer.
abbrev pub front_packet : ℕ → MsgBuffer → List ℕ
front_packet n b = take n (content b)

-- The state in which the sends leave a server that has just sent S0S1: each send that is written at once
-- moves it on.
abbrev pub after_flags : List Bool → State
after_flags [] = State.post_s0s1
after_flags (false ∷ flags) = State.post_s0s1
after_flags (true ∷ []) = State.post_s2
after_flags (true ∷ false ∷ flags) = State.post_s2
after_flags (true ∷ true ∷ flags) = State.wait_c2

-- The packets behind S0S1: S2 goes as soon as S0S1 is written.
abbrev pub s2_sent : List Bool → List ℕ → List (List ℕ)
s2_sent [] s2 = []
s2_sent (false ∷ flags) s2 = []
s2_sent (true ∷ flags) s2 = s2 ∷ []

pub on_sent-post_s0s1 :
    (flags : List Bool) (hs : RtmpHandShake)
    → on_sent flags (record hs { state = State.post_s0s1 })
      ≡ (record hs { state = after_flags flags }, s2_sent flags hs.c2s2)
unfolding on_sent write_complete_with
on_sent-post_s0s1 [] hs = refl
on_sent-post_s0s1 (false ∷ flags) hs = refl
on_sent-post_s0s1 (true ∷ []) hs = refl
on_sent-post_s0s1 (true ∷ false ∷ flags) hs = refl
on_sent-post_s0s1 (true ∷ true ∷ flags) hs = refl

check_c2s2_all : (packet : List ℕ) → check_c2s2 packet ≡ true
unfolding check_c2s2
check_c2s2_all packet = refl

module _ (hmac : Hmac) where
  -- What a server that accepts C0C1 becomes, and sends.
  abbrev pub accepted_c0c1 : Outside → MsgBuffer → List ℕ → RtmpHandShake → Outcome
  accepted_c0c1 o buf packet hs =
      let made = create_c2s2 hmac o.random o.now (drop 1 packet) hs in
      record {
        reply = ok_so_far;
        buffer = buf;
        peer = record made { state = after_flags o.first };
        sent = made.c1s1 ∷ s2_sent o.first made.c2s2;
      }

  answer_c0c1_accepts :
      (o : Outside) (buf buf' : MsgBuffer) (hs : RtmpHandShake) (packet : List ℕ) (place : ℕ)
      → retrieve (packet_size + 1) buf ≡ ok buf'
      → answer_c0c1 hmac o buf packet (some place, hs) ≡ ok (accepted_c0c1 o buf' packet hs)
  unfolding answer_c0c1 send_c1s1
  answer_c0c1_accepts o buf buf' hs packet place taken =
      rw (taken, on_sent-post_s0s1 o.first (create_c2s2 hmac o.random o.now (drop 1 packet) hs))

  answer_c0c1_refuses :
      (o : Outside) (buf : MsgBuffer) (hs : RtmpHandShake) (packet : List ℕ)
      → answer_c0c1 hmac o buf packet (none, hs) ≡ ok (finish failed buf (hs, []))
  unfolding answer_c0c1
  answer_c0c1_refuses o buf hs packet = refl

  on_c0c1_enough :
      (o : Outside) (buf : MsgBuffer) (hs : RtmpHandShake)
      → packet_size + 1 ≤ readable_bytes buf
      → let packet = front_packet (packet_size + 1) buf in
        on_c0c1 hmac o buf hs ≡ answer_c0c1 hmac o buf packet (check_c1s1 hmac packet hs)
  unfolding on_c0c1
  on_c0c1_enough o buf hs enough = rw (ltb_le _ _ enough) (
      ap (λ p. answer_c0c1 hmac o buf p (check_c1s1 hmac p hs))
        (sym (take-take (packet_size + 1) (readable_bytes buf) _ enough)))

  pub handshake_state :
      (o : Outside) (buf : MsgBuffer) (hs : RtmpHandShake) (s : State)
      → hs.state ≡ s
      → handshake hmac true o buf hs ≡ dispatch hmac s o buf hs
  unfolding handshake
  handshake_state o buf hs s e = ap (λ t. dispatch hmac t o buf hs) e

  -- A server that waits for C0C1 and has its 1537 bytes in the buffer: if `checkC1S1` accepts them it
  -- takes them out of the buffer, makes S2 of them, and sends S0S1; S2 follows as soon as S0S1 is
  -- written, and the server waits for C2S2 as soon as S2 is. If it does not, nothing is taken and nothing
  -- is sent.
  pub handshake_c0c1 :
      (o : Outside) {buf : MsgBuffer} (hs : RtmpHandShake)
      → IsValid buf
      → hs.state ≡ State.wait_c0c1
      → packet_size + 1 ≤ readable_bytes buf
      → let packet = front_packet (packet_size + 1) buf in
        let checked = check_c1s1 hmac packet hs in
        ((place : ℕ) × (buf' : MsgBuffer) × (checked.0 ≡ some place)
          × (handshake hmac true o buf hs ≡ ok (accepted_c0c1 o buf' packet checked.1))
          × Retrieved (packet_size + 1) buf buf')
        ⊎ ((checked.0 ≡ none)
            × (handshake hmac true o buf hs ≡ ok (finish failed buf (checked.1, []))))
  unfolding dispatch
  handshake_c0c1 o {buf} hs v s enough = elim (retrieve_lem (packet_size + 1) v) [
    | inr (_, short) ↦ absurd (omega arith)
    | inl (buf', taken, r) ↦ elim (Option-cases (check_c1s1 hmac packet hs).0) [
      | inl refused ↦ inr (
        refused,
        reached
            ∙ ap (λ c. answer_c0c1 hmac o buf packet (c, peer)) refused
            ∙ answer_c0c1_refuses o buf peer packet,
      )
      | inr (place, accepted) ↦ inl (
        place,
        buf',
        accepted,
        reached
            ∙ ap (λ c. answer_c0c1 hmac o buf packet (c, peer)) accepted
            ∙ answer_c0c1_accepts o buf buf' peer packet place taken,
        r,
      )
    ]
  ]
    where
      packet : List ℕ
      packet = front_packet (packet_size + 1) buf

      peer : RtmpHandShake
      peer = (check_c1s1 hmac packet hs).1

      reached :
          handshake hmac true o buf hs ≡ answer_c0c1 hmac o buf packet (check_c1s1 hmac packet hs)
      reached = handshake_state o buf hs State.wait_c0c1 s ∙ on_c0c1_enough o buf hs enough

  -- A server that waits for C2S2 takes its 1536 bytes out of the buffer and is done, whatever they are.
  pub handshake_c2 :
      (o : Outside) {buf : MsgBuffer} (hs : RtmpHandShake)
      → IsValid buf
      → hs.state ≡ State.wait_c2
      → packet_size ≤ readable_bytes buf
      → (buf' : MsgBuffer) × (handshake hmac true o buf hs
          ≡ ok (record {
            reply = ok_so_far;
            buffer = buf';
            peer = record hs { state = State.done };
            sent = [];
          }))
        × Holds (drop packet_size (content buf)) buf'
  unfolding dispatch on_c2
  handshake_c2 o {buf} hs v s enough = elim (retrieve_lem packet_size v) [
    | inr (_, short) ↦ absurd (omega arith)
    | inl (buf', taken, r) ↦ (buf', handshake_state o buf hs State.wait_c2 s ∙ c2 taken, r.holds)
  ]
    where
      c2 :
          {buf' : MsgBuffer}
          → retrieve packet_size buf ≡ ok buf'
          → on_c2 hmac buf hs
            ≡ ok (record {
              reply = ok_so_far;
              buffer = buf';
              peer = record hs { state = State.done };
              sent = [];
            })
      c2 taken =
          rw (
            ltb_le _ _ enough,
            check_c2s2_all (slice buf.reader_index packet_size buf.buffer),
            taken,
          )

-- `n` writes that end later, one after another.
unfoldable pub later : ℕ → RtmpHandShake → Sent
later zero hs = (hs, [])
later (suc n) hs =
    let (hs₁, sent₁) = write_complete true [] hs in
    let (hs₂, sent₂) = later n hs₁ in (hs₂, sent₁ ++ sent₂)

-- How many of a server's two writes do not end at once.
abbrev pub pending : List Bool → ℕ
pending [] = 2
pending (false ∷ flags) = 2
pending (true ∷ []) = 1
pending (true ∷ false ∷ flags) = 1
pending (true ∷ true ∷ flags) = 0

-- However the writes of a server that has S0S1 and S2 made fall, at once or later, it sends S0S1 and
-- then S2, each once, and then waits for C2S2.
pub send_c1s1-later :
    (flags : List Bool) (hs : RtmpHandShake)
    → let (hs₁, sent₁) = send_c1s1 true flags (record hs { state = State.post_s0s1 }) in
      let (hs₂, sent₂) = later (pending flags) hs₁ in
      (hs₂ ≡ record hs { state = State.wait_c2 }) × (sent₁ ++ sent₂ ≡ hs.c1s1 ∷ hs.c2s2 ∷ [])
unfolding later write_complete write_complete_with send_c1s1 on_sent
send_c1s1-later [] hs = (refl, refl)
send_c1s1-later (false ∷ flags) hs = (refl, refl)
send_c1s1-later (true ∷ []) hs = (refl, refl)
send_c1s1-later (true ∷ false ∷ flags) hs = (refl, refl)
send_c1s1-later (true ∷ true ∷ flags) hs = (refl, refl)
