-- ===== src/Rtmp/Machine/Accepts.antt =====
-- All that a server does that waits for C0C1 (mmedia/rtmp/RtmpHandshake.cpp, `handshake` and
-- `writeComplete`).
use turbo_multimedia_server.Common.{
  ℕ, ◌+◌, ◌≡◌, refl, ◌≤◌, ◌<◌, inl, inr, ◌⊎◌, true, [], ◌∷◌, ◌++◌, none, some, drop, ok, Bool-cases,
  ltb, ltb→lt, not-ltb→le,
}
use turbo_multimedia_server.Buffer.{MsgBuffer, readable_bytes}
use turbo_multimedia_server.Buffer.Valid.{IsValid}
use turbo_multimedia_server.Buffer.Content.{Retrieved}
use turbo_multimedia_server.Rtmp.{Hmac, State, RtmpHandShake, packet_size, check_c1s1, create_c2s2}
use turbo_multimedia_server.Rtmp.Machine.{
  failed, ok_so_far, need_more, Outside, Outcome, finish, handshake,
}
use turbo_multimedia_server.Rtmp.Machine.Server.{front_packet, handshake_c0c1, later, pending}
use turbo_multimedia_server.Rtmp.Machine.Answers.{later_s2}
use turbo_multimedia_server.Rtmp.Machine.Pieces.{needs_more}

-- A server that waits for C0C1, with anything in its buffer. With less than 1537 bytes it asks for more,
-- and nothing changes. With as many as that or more, it looks at the first 1537: if `checkC1S1` refuses
-- them, the handshake fails, nothing is taken out of the buffer and nothing is sent. If it accepts them,
-- they are taken out; and once the server's writes have ended, each at once or later, it has sent S0S1 and
-- then S2, each once and nothing else, and waits for C2S2.
pub handshake_accepts :
    (hmac : Hmac) (o : Outside) {buf : MsgBuffer} (hs : RtmpHandShake)
    → IsValid buf
    → hs.state ≡ State.wait_c0c1
    → let packet = front_packet (packet_size + 1) buf in
      let checked = check_c1s1 hmac packet hs in
      let made = create_c2s2 hmac o.random o.now (drop 1 packet) checked.1 in
      ((readable_bytes buf < packet_size + 1)
        × (handshake hmac true o buf hs ≡ ok (finish need_more buf (hs, []))))
      ⊎ ((packet_size + 1 ≤ readable_bytes buf)
          × (((checked.0 ≡ none)
                × (handshake hmac true o buf hs ≡ ok (finish failed buf (checked.1, []))))
              ⊎ ((place : ℕ) × (out : Outcome) × (checked.0 ≡ some place)
                  × (handshake hmac true o buf hs ≡ ok out)
                  × (out.reply ≡ ok_so_far)
                  × Retrieved (packet_size + 1) buf out.buffer
                  × (out.sent ++ (later (pending o.first) out.peer).1 ≡ made.c1s1 ∷ made.c2s2 ∷ [])
                  × ((later (pending o.first) out.peer).0
                      ≡ record made { state = State.wait_c2 }))))
handshake_accepts hmac o {buf} hs v waits =
    elim (Bool-cases (ltb (readable_bytes buf) (packet_size + 1))) [
      | inl short ↦ let few = ltb→lt _ _ short in inl (few, needs_more hmac o hs waits few)
      | inr long ↦
          let enough = not-ltb→le _ _ long in
          inr (
            enough,
            elim (handshake_c0c1 hmac o hs v waits enough) [
              | inr (refused, fails) ↦ inl (refused, fails)
              | inl (place, buf', accepted, answers, taken) ↦
                  let (waiting, sent) = later_s2 o.first (
                    create_c2s2 hmac o.random o.now (drop 1 (front_packet (packet_size + 1) buf))
                      (check_c1s1 hmac (front_packet (packet_size + 1) buf) hs).1) in
                  inr (place, _, accepted, answers, refl, taken, sent, waiting)
            ],
          )
    ]
