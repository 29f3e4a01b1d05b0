-- ===== src/Rtmp/Machine/Late.antt =====
-- What a client does that has S0S1 before S2 (mmedia/rtmp/RtmpHandshake.cpp, `handshake`).
use turbo_multimedia_server.Common.{
  ℕ, ◌+◌, ◌≡◌, refl, sym, ap, ◌∙◌, ◌<◌, ◌≤◌, true, List, [], ◌∷◌, ◌++◌, some, drop, length, ok,
  arith, inl, inr, append-nil, subst, lt→not-leb,
}
use turbo_multimedia_server.Buffer.{MsgBuffer, content, readable_bytes}
use turbo_multimedia_server.Buffer.Valid.{length-content}
use turbo_multimedia_server.Buffer.Content.{Holds}
use turbo_multimedia_server.Rtmp.{Hmac, State, RtmpHandShake, packet_size, check_c1s1, create_c2s2}
use turbo_multimedia_server.Rtmp.Machine.{ok_so_far, Outside, Outcome, handshake}
use turbo_multimedia_server.Rtmp.Machine.Server.{
  front_packet, handshake_c2, later, pending, after_flags, s2_sent,
}
use turbo_multimedia_server.Rtmp.Machine.Client.{accepted_s0s1, handshake_s0s1}
use turbo_multimedia_server.Rtmp.Machine.Answers.{clash, content-packet, later_s2}

-- A client that has S0S1, which it accepts, and not yet S2: when its writes have ended it has sent C2S2,
-- C0C1 once more and C2S2 once more, and waits as a server does. S2, when it comes, is taken for a C2S2,
-- and the client is done with the handshake.
pub handshake_late :
    (hmac : Hmac) (o : Outside) (c : RtmpHandShake) (p s2 : List ℕ) (place : ℕ) {b b₂ : MsgBuffer}
    → Holds p b
    → Holds s2 b₂
    → length p ≡ packet_size + 1
    → length s2 ≡ packet_size
    → c.state ≡ State.wait_s0s1
    → check_c1s1 hmac p c ≡ (some place, c)
    → let made = create_c2s2 hmac o.random o.now (drop 1 p) c in
      (out : Outcome) × (out₂ : Outcome) × (handshake hmac true o b c ≡ ok out)
      × (out.sent ++ (later (pending o.second) out.peer).1 ≡ made.c2s2 ∷ made.c1s1 ∷ made.c2s2 ∷ [])
      × ((later (pending o.second) out.peer).0 ≡ record made { state = State.wait_c2 })
      × (handshake hmac true o b₂ (later (pending o.second) out.peer).0 ≡ ok out₂)
      × (out₂.peer ≡ record made { state = State.done })
handshake_late hmac o c p s2 place {b} {b₂} h h₂ size size₂ waits checks =
    elim (handshake_s0s1 hmac o c h.valid waits enough) [
      | inr (refused, _) ↦
          absurd
            (clash (sym (ap (λ q. (check_c1s1 hmac q c).0) front ∙ ap (λ r. r.0) checks) ∙ refused))
      | inl (place', b', accepts, answers, taken) ↦
          let held = subst (λ l. Holds l b') left taken in
          let (b₃, last, _) =
            handshake_c2 hmac o (record made { state = State.wait_c2 }) h₂.valid refl
              (omega (arith, length-content h₂.valid, ap (λ l. length l) h₂.bytes, size₂)) in
          (
            record {
              reply = ok_so_far;
              buffer = b';
              peer = record made { state = after_flags o.second };
              sent = made.c2s2 ∷ made.c1s1 ∷ s2_sent o.second made.c2s2;
            },
            _,
            answers
                ∙ ap
                    (λ q. ok (
                      accepted_s0s1 o b'
                        (create_c2s2 hmac o.random o.now (drop 1 q) (check_c1s1 hmac q c).1)))
                    front
                ∙ ap (λ r. ok (accepted_s0s1 o b' (create_c2s2 hmac o.random o.now (drop 1 p) r.1)))
                    checks
                ∙ rw (lt→not-leb packet_size (readable_bytes b') (none_left held)) refl,
            ap (λ l. made.c2s2 ∷ l) (later_s2 o.second made).1,
            (later_s2 o.second made).0,
            ap (λ x. handshake hmac true o b₂ x) (later_s2 o.second made).0 ∙ last,
            refl,
          )
    ]
  where
    made : RtmpHandShake
    made = create_c2s2 hmac o.random o.now (drop 1 p) c

    whole : Holds (p ++ []) b
    whole = subst (λ l. Holds l b) (sym (append-nil p)) h

    enough : packet_size + 1 ≤ readable_bytes b
    enough = (content-packet hmac o p [] whole size).0

    front : front_packet (packet_size + 1) b ≡ p
    front = (content-packet hmac o p [] whole size).1

    left : drop (packet_size + 1) (content b) ≡ []
    left = (content-packet hmac o p [] whole size).2

    none_left : {b' : MsgBuffer} → Holds [] b' → readable_bytes b' < packet_size
    none_left held =
        let count = sym (length-content held.valid) ∙ ap (λ l. length l) held.bytes in
        omega (arith, count)
