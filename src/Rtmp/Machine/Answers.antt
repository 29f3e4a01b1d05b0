-- ===== src/Rtmp/Machine/Answers.antt =====
-- What each side of the RTMP handshake (mmedia/rtmp/RtmpHandshake.cpp) makes of the packets of the other.
use turbo_multimedia_server.Common.{
  ℕ, ◌+◌, ◌-◌, ◌≡◌, refl, sym, ap, ◌∙◌, ◌≤◌, Bool, true, false, List, [], ◌∷◌, ◌++◌, none, some,
  take, drop, length, splice, ok, arith, inl, inr, be_bytes, length-be_bytes, length-splice,
  length-take, take_all, take-append_left, drop-append_left, drop_all, length-append, subst, max,
  le→leb,
}
use turbo_multimedia_server.Buffer.{MsgBuffer, cheap_prepend, content, readable_bytes}
use turbo_multimedia_server.Buffer.Valid.{length-content}
use turbo_multimedia_server.Buffer.Content.{Holds}
use turbo_multimedia_server.Rtmp.{
  Hmac, State, RtmpHandShake, packet_size, create_c1s1, create_c2s2, check_c1s1, calculate_digest,
  own_key,
}
use turbo_multimedia_server.Rtmp.Digests.{length-calculate_digest}
use turbo_multimedia_server.Rtmp.Machine.{
  Outside, got_c2, start, handshake, on_sent, write_complete, write_complete_with, send_c1s1,
}
use turbo_multimedia_server.Rtmp.Machine.Server.{
  front_packet, after_flags, s2_sent, accepted_c0c1, handshake_c0c1, later, pending,
}
use turbo_multimedia_server.Rtmp.Machine.Client.{after_c2, accepted_s0s1, handshake_s0s1}

on_sent-wait_s0s1 :
    (flags : List Bool) (hs : RtmpHandShake)
    → on_sent flags (record hs { state = State.wait_s0s1 })
      ≡ (record hs { state = State.wait_s0s1 }, [])
unfolding on_sent write_complete_with
on_sent-wait_s0s1 [] hs = refl
on_sent-wait_s0s1 (false ∷ flags) hs = refl
on_sent-wait_s0s1 (true ∷ flags) hs = refl

module _ (hmac : Hmac) where
  pub length-create_c2s2 :
      (random : List ℕ) (now : ℕ) (packet : List ℕ) (hs : RtmpHandShake)
      → length random ≡ packet_size
      → hs.is_complex ≡ true
      → length (create_c2s2 hmac random now packet hs).c2s2 ≡ packet_size
  unfolding create_c2s2
  length-create_c2s2 random now packet hs size complex =
      rw complex
        (length-splice (packet_size - 32) digest stamped (omega (arith, sizes, signed)) ∙ sizes)
    where
      stamped : List ℕ
      stamped = splice 0 (be_bytes 4 now) (splice 0 (take 8 packet) random)

      digest : List ℕ
      digest =
          calculate_digest hmac stamped (packet_size - 32) 0
            (calculate_digest hmac hs.digest 32 0 (own_key hs.is_client))

      signed : length digest ≡ 32
      signed = length-calculate_digest hmac stamped (packet_size - 32) 0 _

      inner : length (splice 0 (take 8 packet) random) ≡ packet_size
      inner =
          length-splice 0 (take 8 packet) random (omega (arith, length-take 8 packet, size)) ∙ size

      sizes : length stamped ≡ packet_size
      sizes =
          length-splice 0 (be_bytes 4 now) (splice 0 (take 8 packet) random)
            (omega (arith, length-be_bytes 4 now, inner))
          ∙ inner

  -- Behind `createC2S2` the rest of the state is as before.
  pub create_c2s2-kept :
      (random : List ℕ) (now : ℕ) (packet : List ℕ) (hs : RtmpHandShake)
      → hs.is_complex ≡ true
      → create_c2s2 hmac random now packet hs
        ≡ record hs { c2s2 = (create_c2s2 hmac random now packet hs).c2s2 }
  unfolding create_c2s2
  create_c2s2-kept random now packet hs complex = rw complex refl

  pub create_c1s1-kept :
      (random : List ℕ) (hs : RtmpHandShake)
      → hs.is_complex ≡ true
      → let made = create_c1s1 hmac random hs in
        made ≡ record hs { c1s1 = made.c1s1; digest = made.digest }
  unfolding create_c1s1
  create_c1s1-kept random hs complex = rw complex refl

  pub start_client :
      (o : Outside) (hs : RtmpHandShake)
      → hs.is_client ≡ true
      → hs.is_complex ≡ true
      → let made = create_c1s1 hmac o.random hs in
        start hmac true o hs ≡ (record made { state = State.wait_s0s1 }, made.c1s1 ∷ [])
  unfolding start send_c1s1
  start_client o hs client complex =
      rw (on_sent-wait_s0s1 o.first (create_c1s1 hmac o.random hs), client_made) refl
    where
      client_made : (create_c1s1 hmac o.random hs).is_client ≡ true
      client_made = ap (λ x. x.is_client) (create_c1s1-kept o.random hs complex) ∙ client

  pub start_server :
      (o : Outside) (hs : RtmpHandShake)
      → hs.is_client ≡ false
      → hs.is_complex ≡ true
      → let made = create_c1s1 hmac o.random hs in
        start hmac true o hs ≡ (record made { state = State.wait_c0c1 }, [])
  unfolding start send_c1s1
  start_server o hs server complex = rw server_made refl
    where
      server_made : (create_c1s1 hmac o.random hs).is_client ≡ false
      server_made = ap (λ x. x.is_client) (create_c1s1-kept o.random hs complex) ∙ server

pub later_s2 :
    (flags : List Bool) (hs : RtmpHandShake)
    → let (hs', rest) = later (pending flags) (record hs { state = after_flags flags }) in
      (hs' ≡ record hs { state = State.wait_c2 })
      × ((hs.c1s1 ∷ s2_sent flags hs.c2s2) ++ rest ≡ hs.c1s1 ∷ hs.c2s2 ∷ [])
unfolding later write_complete write_complete_with on_sent
later_s2 [] hs = (refl, refl)
later_s2 (false ∷ flags) hs = (refl, refl)
later_s2 (true ∷ []) hs = (refl, refl)
later_s2 (true ∷ false ∷ flags) hs = (refl, refl)
later_s2 (true ∷ true ∷ flags) hs = (refl, refl)

pub later_c2 :
    (flags : List Bool) (hs : RtmpHandShake)
    → (later 1 (record hs { state = after_c2 flags })).0 ≡ record hs { state = State.done }
unfolding later write_complete write_complete_with on_sent
later_c2 [] hs = refl
later_c2 (false ∷ flags) hs = refl
later_c2 (true ∷ flags) hs = refl

pub clash : {n : ℕ} → some n ≡ none → ⊥
clash h = cc

module _ (hmac : Hmac) (o : Outside) where
  pub content-packet :
      {b : MsgBuffer} (p rest : List ℕ)
      → Holds (p ++ rest) b
      → length p ≡ packet_size + 1
      → (packet_size + 1 ≤ readable_bytes b)
        × (front_packet (packet_size + 1) b ≡ p)
        × (drop (packet_size + 1) (content b) ≡ rest)
        × (readable_bytes b ≡ packet_size + 1 + length rest)
  content-packet {b} p rest h size = (
    omega (arith, count),
    ap (take (packet_size + 1)) h.bytes
        ∙ take-append_left (packet_size + 1) p rest (omega (arith, size))
        ∙ take_all (packet_size + 1) p (omega (arith, size)),
    ap (drop (packet_size + 1)) h.bytes
        ∙ drop-append_left (packet_size + 1) p rest (omega (arith, size))
        ∙ ap (λ l. l ++ rest) (drop_all (packet_size + 1) p (omega (arith, size))),
    count,
  )
    where
      count : readable_bytes b ≡ packet_size + 1 + length rest
      count =
          omega
            (arith, length-content h.valid, ap (λ l. length l) h.bytes, length-append p rest, size)

  -- The server gets C0C1, which it accepts.
  pub server_answers :
      {b : MsgBuffer} (p : List ℕ) (s : RtmpHandShake) (place : ℕ)
      → Holds (p ++ []) b
      → length p ≡ packet_size + 1
      → s.state ≡ State.wait_c0c1
      → check_c1s1 hmac p s ≡ (some place, s)
      → (b' : MsgBuffer) × (handshake hmac true o b s ≡ ok (accepted_c0c1 hmac o b' p s))
        × Holds [] b'
        × (b'.writer_index ≤ max cheap_prepend b.writer_index)
  server_answers {b} p s place h size waits checks =
      elim (handshake_c0c1 hmac o s h.valid waits enough) [
        | inl (place', b', accepts, answers, taken) ↦ (
          b',
          answers
              ∙ ap (λ q. ok (accepted_c0c1 hmac o b' q (check_c1s1 hmac q s).1)) front
              ∙ ap (λ r. ok (accepted_c0c1 hmac o b' p r.1)) checks,
          subst (λ l. Holds l b') none_left taken.holds,
          taken.behind,
        )
        | inr (refused, _) ↦
            absurd (
              clash
                (sym (ap (λ q. (check_c1s1 hmac q s).0) front ∙ ap (λ r. r.0) checks) ∙ refused))
      ]
    where
      enough : packet_size + 1 ≤ readable_bytes b
      enough = (content-packet p [] h size).0

      front : front_packet (packet_size + 1) b ≡ p
      front = (content-packet p [] h size).1

      none_left : drop (packet_size + 1) (content b) ≡ []
      none_left = (content-packet p [] h size).2

  -- The client gets S0S1 and S2, and accepts them.
  pub client_answers :
      {b : MsgBuffer} (p s2 : List ℕ) (c : RtmpHandShake) (place : ℕ)
      → Holds (p ++ s2) b
      → length p ≡ packet_size + 1
      → length s2 ≡ packet_size
      → c.state ≡ State.wait_s0s1
      → check_c1s1 hmac p c ≡ (some place, c)
      → let made = create_c2s2 hmac o.random o.now (drop 1 p) c in
        (b' : MsgBuffer) × (handshake hmac true o b c
          ≡ ok (record {
            reply = got_c2;
            buffer = b';
            peer = record made { state = after_c2 o.first };
            sent = made.c2s2 ∷ [];
          }))
        × Holds s2 b'
  client_answers {b} p s2 c place h size size' waits checks =
      elim (handshake_s0s1 hmac o c h.valid waits enough) [
        | inl (place', b', accepts, answers, taken) ↦
            let held = subst (λ l. Holds l b') left taken in
            (
              b',
              answers
                  ∙ ap
                      (λ q. ok (
                        accepted_s0s1 o b'
                          (create_c2s2 hmac o.random o.now (drop 1 q) (check_c1s1 hmac q c).1)))
                      front
                  ∙ ap
                      (λ r.
                        ok (accepted_s0s1 o b' (create_c2s2 hmac o.random o.now (drop 1 p) r.1)))
                      checks
                  ∙ rw
                      (le→leb packet_size (readable_bytes b') (
                        omega
                          (arith, length-content held.valid, ap (λ l. length l) held.bytes, size')))
                      refl,
              held,
            )
        | inr (refused, _) ↦
            absurd (
              clash
                (sym (ap (λ q. (check_c1s1 hmac q c).0) front ∙ ap (λ r. r.0) checks) ∙ refused))
      ]
    where
      enough : packet_size + 1 ≤ readable_bytes b
      enough = (content-packet p s2 h size).0

      front : front_packet (packet_size + 1) b ≡ p
      front = (content-packet p s2 h size).1

      left : drop (packet_size + 1) (content b) ≡ s2
      left = (content-packet p s2 h size).2
