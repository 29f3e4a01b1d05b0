-- ===== src/Rtmp/Machine/Pieces.antt =====
-- A packet that arrives in pieces (mmedia/rtmp/RtmpHandshake.cpp, `handshake`): it is called whenever bytes
-- have come, as a message callback calls it.
use turbo_multimedia_server.Common.{
  ℕ, ◌+◌, ◌≡◌, refl, sym, ap, ◌∙◌, ◌≤◌, ◌<◌, true, List, [], ◌∷◌, ◌++◌, some, length, Result, ok,
  fail, unfinished, ◌>>=◌, arith, inl, inr, append_assoc, append-nil, length-append, subst, not,
  ltb, Bool-cases, ltb→lt, not-ltb→le, lt→ltb,
}
use turbo_multimedia_server.Buffer.{MsgBuffer, cheap_prepend, append, readable_bytes}
use turbo_multimedia_server.Buffer.Valid.{length-content}
use turbo_multimedia_server.Buffer.Content.{Holds, append_lem}
use turbo_multimedia_server.Rtmp.{Hmac, State, RtmpHandShake, packet_size, create_c1s1, check_c1s1}
use turbo_multimedia_server.Rtmp.Digests.Signed.{length-create_c1s1, check_c1s1-create_c1s1}
use turbo_multimedia_server.Rtmp.Machine.{
  failed, ok_so_far, need_more, got_c2, Outside, Outcome, finish, on_c0c1, dispatch, handshake,
}
use turbo_multimedia_server.Rtmp.Machine.Server.{accepted_c0c1, handshake_state}
use turbo_multimedia_server.Rtmp.Machine.Answers.{server_answers}
use turbo_multimedia_server.Rtmp.Machine.Exchange.{joined}

-- Pieces arrive until `handshake` says something else than that it needs more.
pub feed : Hmac → Outside → List (List ℕ) → MsgBuffer → RtmpHandShake → Result Outcome
feed hmac o [] buf hs = fail unfinished
feed hmac o (d ∷ ds) buf hs =
    let again = feed hmac o ds in
    append d buf >>= λ b. handshake hmac true o b hs >>= λ out. elim out.reply [
      | need_more ↦ again out.buffer out.peer
      | ok_so_far ↦ ok out
      | failed ↦ ok out
      | got_c2 ↦ ok out
    ]

no_rest : {p : List ℕ} (xs ys : List ℕ) → xs ++ ys ≡ p → length p ≤ length xs → xs ≡ p
no_rest xs [] e n = sym (append-nil xs) ∙ e
no_rest xs (y ∷ ys) e n = absurd (omega (arith, ap (λ l. length l) e, length-append xs (y ∷ ys)))

module _ (hmac : Hmac) (o : Outside) (s : RtmpHandShake) (waits : s.state ≡ State.wait_c0c1) where
  pub needs_more :
      {b : MsgBuffer}
      → readable_bytes b < packet_size + 1
      → handshake hmac true o b s ≡ ok (finish need_more b (s, []))
  unfolding dispatch on_c0c1
  needs_more {b} few = handshake_state hmac o b s State.wait_c0c1 waits ∙ rw (lt→ltb _ _ few) refl

  -- A packet that the server accepts, behind the bytes `c` of it that are in the buffer.
  feed_pieces :
      (p : List ℕ) (place : ℕ) (ds : List (List ℕ)) (c : List ℕ) {b : MsgBuffer}
      → Holds c b
      → b.writer_index ≤ cheap_prepend + length c
      → length c < packet_size + 1
      → c ++ joined ds ≡ p
      → length p ≡ packet_size + 1
      → check_c1s1 hmac p s ≡ (some place, s)
      → (b' : MsgBuffer) × (feed hmac o ds b s ≡ ok (accepted_c0c1 hmac o b' p s)) × Holds [] b'
  unfolding feed
  feed_pieces p place [] c h w short whole size checks =
      absurd (omega (arith, ap (λ l. length l) whole, length-append c [], size))
  feed_pieces p place (d ∷ ds) c {b} h w short whole size checks =
      let total = ap (λ l. length l) whole in
      let parts = length-append c (d ++ joined ds) in
      let parts' = length-append d (joined ds) in
      elim (append_lem d h.valid (omega (arith, total, parts, parts', size))) [
        | inr (_, over) ↦ absurd (omega (arith, total, parts, parts', size))
        | inl (b₁, arrives, r) ↦
            let held : Holds (c ++ d) b₁ = subst (λ l. Holds (l ++ d) b₁) h.bytes r.holds in
            let count : readable_bytes b₁ ≡ length c + length d =
              sym (length-content held.valid) ∙ ap (λ l. length l) held.bytes ∙ length-append c d in
            elim (Bool-cases (ltb (readable_bytes b₁) (packet_size + 1))) [
              | inl few ↦
                  let (b', e, h') =
                    feed_pieces p place ds (c ++ d) held
                      (omega (arith, r.behind, length-append c d))
                      (omega (arith, ltb→lt _ _ few, count, length-append c d))
                      (append_assoc c d (joined ds) ∙ whole) size checks in
                  (b', rw (arrives, needs_more (ltb→lt _ _ few)) e, h')
              | inr enough ↦
                  let all : c ++ d ≡ p =
                    no_rest (c ++ d) (joined ds) (append_assoc c d (joined ds) ∙ whole)
                      (omega (arith, not-ltb→le _ _ enough, count, length-append c d, size)) in
                  let (b', answers, h', _) =
                    server_answers hmac o p s place
                      (subst (λ l. Holds l b₁) (all ∙ sym (append-nil p)) held) size waits checks in
                  (b', rw (arrives, answers) refl, h')
            ]
      ]

-- C0C1 of a client that arrives in pieces at an empty buffer, however it is cut, is taken by the server as
-- if it had come at once: the calls of `handshake` before the last piece change nothing, and the one behind
-- it answers the whole packet and leaves the buffer empty.
pub feed_c0c1 :
    (hmac : Hmac) (o : Outside) (s c : RtmpHandShake) (random : List ℕ) (ds : List (List ℕ))
    {b : MsgBuffer}
    → s.state ≡ State.wait_c0c1
    → s.is_complex ≡ true
    → c.is_complex ≡ true
    → not s.is_client ≡ c.is_client
    → length random ≡ packet_size + 1
    → joined ds ≡ (create_c1s1 hmac random c).c1s1
    → Holds [] b
    → b.writer_index ≤ cheap_prepend
    → (b' : MsgBuffer) × (feed hmac o ds b s
        ≡ ok (accepted_c0c1 hmac o b' (create_c1s1 hmac random c).c1s1 s))
      × Holds [] b'
feed_c0c1 hmac o s c random ds waits s_complex c_complex role n whole h w =
    feed_pieces hmac o s waits (create_c1s1 hmac random c).c1s1 _ ds [] h (omega arith)
      (omega arith) whole (length-create_c1s1 hmac random c n c_complex)
      (check_c1s1-create_c1s1 hmac random c s n c_complex s_complex role).0
