-- ===== src/Rtmp/Machine/Client.antt =====
-- The client's side of the RTMP handshake (mmedia/rtmp/RtmpHandshake.cpp).
use turbo_multimedia_server.Common.{
  Bool-cases, Option-cases, ℕ, ◌+◌, ◌≡◌, refl, sym, ap, ◌∙◌, ◌≤◌, Bool, true, false, List, [], ◌∷◌,
  none, some, drop, leb, if◌then◌else◌, ok, ◌>>=◌, arith, inl, inr, ◌⊎◌, ltb_le, take-take,
}
use turbo_multimedia_server.Buffer.{MsgBuffer, readable_bytes, content, retrieve}
use turbo_multimedia_server.Buffer.Valid.{IsValid}
use turbo_multimedia_server.Buffer.Content.{Holds, retrieve_lem}
use turbo_multimedia_server.Rtmp.{Hmac, State, RtmpHandShake, packet_size, check_c1s1, create_c2s2}
use turbo_multimedia_server.Rtmp.Machine.{
  failed, ok_so_far, got_c2, Outside, Outcome, finish, write_complete_with, on_sent, send_c1s1,
  send_c2s2, on_s0s1, answer_s0s1, after_s0s1, dispatch, handshake,
}
use turbo_multimedia_server.Rtmp.Machine.Server.{
  front_packet, after_flags, s2_sent, on_sent-post_s0s1, handshake_state,
}

-- The state of a client that sends C2S2 with S2 in its buffer: done if the write ends at once.
abbrev pub after_c2 : List Bool → State
after_c2 [] = State.doing
after_c2 (false ∷ flags) = State.doing
after_c2 (true ∷ flags) = State.done

-- What the client that accepted S0S1 becomes: with S2 in the buffer behind it, it sends C2S2, and is done
-- as soon as that is written, with S2 left in the buffer. Without S2 it sends C2S2, and then C0C1 once
-- more, and goes on as a server does that has sent S0S1.
abbrev pub accepted_s0s1 : Outside → MsgBuffer → RtmpHandShake → Outcome
accepted_s0s1 o buf made =
    if leb packet_size (readable_bytes buf)
    then record {
      reply = got_c2;
      buffer = buf;
      peer = record made { state = after_c2 o.first };
      sent = made.c2s2 ∷ [];
    }
    else record {
      reply = ok_so_far;
      buffer = buf;
      peer = record made { state = after_flags o.second };
      sent = made.c2s2 ∷ made.c1s1 ∷ s2_sent o.second made.c2s2;
    }

on_sent-doing :
    (flags : List Bool) (hs : RtmpHandShake)
    → on_sent flags (record hs { state = State.doing }) ≡ (record hs { state = after_c2 flags }, [])
unfolding on_sent write_complete_with
on_sent-doing [] hs = refl
on_sent-doing (false ∷ flags) hs = refl
on_sent-doing (true ∷ flags) hs = refl

abbrev c2_flags : List Bool → State
c2_flags [] = State.post_c2
c2_flags (false ∷ flags) = State.post_c2
c2_flags (true ∷ flags) = State.done

on_sent-post_c2 :
    (flags : List Bool) (hs : RtmpHandShake)
    → on_sent flags (record hs { state = State.post_c2 })
      ≡ (record hs { state = c2_flags flags }, [])
unfolding on_sent write_complete_with
on_sent-post_c2 [] hs = refl
on_sent-post_c2 (false ∷ flags) hs = refl
on_sent-post_c2 (true ∷ flags) hs = refl

module _ (hmac : Hmac) where
  after_s0s1-accepted :
      (o : Outside) (buf : MsgBuffer) (hs : RtmpHandShake)
      → after_s0s1 hmac o buf hs ≡ accepted_s0s1 o buf hs
  unfolding after_s0s1 send_c2s2 send_c1s1
  after_s0s1-accepted o buf hs = elim (Bool-cases (leb packet_size (readable_bytes buf))) [
    | inl h ↦ rw (h, on_sent-doing o.first hs)
    | inr h ↦ rw (h, on_sent-post_c2 o.first hs, on_sent-post_s0s1 o.second hs)
  ]

  answer_s0s1_accepts :
      (o : Outside) (buf buf' : MsgBuffer) (hs : RtmpHandShake) (packet : List ℕ) (place : ℕ)
      → retrieve (packet_size + 1) buf ≡ ok buf'
      → answer_s0s1 hmac o buf packet (some place, hs)
        ≡ ok (accepted_s0s1 o buf' (create_c2s2 hmac o.random o.now (drop 1 packet) hs))
  unfolding answer_s0s1
  answer_s0s1_accepts o buf buf' hs packet place taken =
      rw (taken, ◌>>=◌)
        (ap ok (after_s0s1-accepted o buf' (create_c2s2 hmac o.random o.now (drop 1 packet) hs)))

  answer_s0s1_refuses :
      (o : Outside) (buf : MsgBuffer) (hs : RtmpHandShake) (packet : List ℕ)
      → answer_s0s1 hmac o buf packet (none, hs) ≡ ok (finish failed buf (hs, []))
  unfolding answer_s0s1
  answer_s0s1_refuses o buf hs packet = refl

  on_s0s1_enough :
      (o : Outside) (buf : MsgBuffer) (hs : RtmpHandShake)
      → packet_size + 1 ≤ readable_bytes buf
      → let packet = front_packet (packet_size + 1) buf in
        on_s0s1 hmac o buf hs ≡ answer_s0s1 hmac o buf packet (check_c1s1 hmac packet hs)
  unfolding on_s0s1
  on_s0s1_enough o buf hs enough = rw (ltb_le _ _ enough) (
      ap (λ p. answer_s0s1 hmac o buf p (check_c1s1 hmac p hs))
        (sym (take-take (packet_size + 1) (readable_bytes buf) _ enough)))

  -- A client that waits for S0S1 and has its 1537 bytes in the buffer: if `checkC1S1` accepts them it
  -- takes them out of the buffer, makes C2S2 of them and sends it. With S2 in the buffer behind S0S1 that
  -- is all that it sends, and it is done as soon as C2S2 is written. Without S2 it sends C0C1 once more,
  -- and goes on as a server does that has sent S0S1. If `checkC1S1` does not accept them, nothing is
  -- taken and nothing is sent.
  pub handshake_s0s1 :
      (o : Outside) {buf : MsgBuffer} (hs : RtmpHandShake)
      → IsValid buf
      → hs.state ≡ State.wait_s0s1
      → packet_size + 1 ≤ readable_bytes buf
      → let packet = front_packet (packet_size + 1) buf in
        let checked = check_c1s1 hmac packet hs in
        ((place : ℕ) × (buf' : MsgBuffer) × (checked.0 ≡ some place)
          × (handshake hmac true o buf hs
              ≡ ok (
                  accepted_s0s1 o buf' (create_c2s2 hmac o.random o.now (drop 1 packet) checked.1)))
          × Holds (drop (packet_size + 1) (content buf)) buf')
        ⊎ ((checked.0 ≡ none)
            × (handshake hmac true o buf hs ≡ ok (finish failed buf (checked.1, []))))
  unfolding dispatch
  handshake_s0s1 o {buf} hs v s enough = elim (retrieve_lem (packet_size + 1) v) [
    | inr (_, short) ↦ absurd (omega arith)
    | inl (buf', taken, r) ↦ elim (Option-cases (check_c1s1 hmac packet hs).0) [
      | inl refused ↦ inr (
        refused,
        reached
            ∙ ap (λ c. answer_s0s1 hmac o buf packet (c, peer)) refused
            ∙ answer_s0s1_refuses o buf peer packet,
      )
      | inr (place, accepted) ↦ inl (
        place,
        buf',
        accepted,
        reached
            ∙ ap (λ c. answer_s0s1 hmac o buf packet (c, peer)) accepted
            ∙ answer_s0s1_accepts o buf buf' peer packet place taken,
        r.holds,
      )
    ]
  ]
    where
      packet : List ℕ
      packet = front_packet (packet_size + 1) buf

      peer : RtmpHandShake
      peer = (check_c1s1 hmac packet hs).1

      reached :
          handshake hmac true o buf hs ≡ answer_s0s1 hmac o buf packet (check_c1s1 hmac packet hs)
      reached = handshake_state hmac o buf hs State.wait_s0s1 s ∙ on_s0s1_enough o buf hs enough
