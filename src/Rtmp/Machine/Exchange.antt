-- ===== src/Rtmp/Machine/Exchange.antt =====
-- A client and a server that shake hands with each other (mmedia/rtmp/RtmpHandshake.cpp): what one sends
-- arrives in the buffer of the other.
use turbo_multimedia_server.Common.{
  ℕ, ◌+◌, ◌≡◌, refl, sym, ap, ◌∙◌, ◌≤◌, true, false, not, List, [], ◌∷◌, ◌++◌, some, drop, length,
  Result, ok, ◌>>=◌, arith, inl, inr, append-nil, length-append, subst, drop_all, ap₂,
}
use turbo_multimedia_server.Buffer.{MsgBuffer, max_size, content, append, init, initial_size}
use turbo_multimedia_server.Buffer.Valid.{length-content}
use turbo_multimedia_server.Buffer.Content.{Holds, append_lem}
use turbo_multimedia_server.Buffer.Shrink.{Fresh, init-Fresh}
use turbo_multimedia_server.Rtmp.{
  Hmac, State, RtmpHandShake, packet_size, create_c1s1, create_c2s2, check_c1s1,
}
use turbo_multimedia_server.Rtmp.Digests.Signed.{length-create_c1s1, check_c1s1-create_c1s1}
use turbo_multimedia_server.Rtmp.Machine.{Outside, Outcome, start, handshake}
use turbo_multimedia_server.Rtmp.Machine.Server.{later, pending, handshake_c2}
use turbo_multimedia_server.Rtmp.Machine.Answers.{
  create_c1s1-kept, create_c2s2-kept, length-create_c2s2, start_client, start_server, later_s2,
  later_c2, server_answers, client_answers,
}

-- The bytes of packets, one behind another.
abbrev pub joined : List (List ℕ) → List ℕ
joined [] = []
joined (p ∷ ps) = p ++ joined ps

pub record Parties : Type 0 where
  pub client : RtmpHandShake
  pub server : RtmpHandShake
  pub client_buffer : MsgBuffer
  pub server_buffer : MsgBuffer

-- C0C1 arrives at the server, S0S1 and S2 arrive at the client, and C2S2 at the server. The writes that
-- did not end at once end before the other side answers.
pub converse :
    Hmac → Outside → Outside → RtmpHandShake × List (List ℕ) → RtmpHandShake → Result Parties
converse hmac s₂ c₂ (client, c0c1) server = do
  client_buffer ← init initial_size
  server_buffer ← init initial_size
  arrived ← append (joined c0c1) server_buffer
  answer ← handshake hmac true s₂ arrived server
  let (server', rest) = later (pending s₂.first) answer.peer
  arrived' ← append (joined (answer.sent ++ rest)) client_buffer
  answer' ← handshake hmac true c₂ arrived' client
  arrived'' ← append (joined answer'.sent) answer.buffer
  answer'' ← handshake hmac true s₂ arrived'' server'
  ok (record {
    client = (later 1 answer'.peer).0;
    server = answer''.peer;
    client_buffer = answer'.buffer;
    server_buffer = answer''.buffer;
  })

-- Both start.
pub exchange :
    Hmac → Outside → Outside → Outside → Outside → RtmpHandShake → RtmpHandShake → Result Parties
unfolding converse
exchange hmac c₁ s₁ s₂ c₂ c s = converse hmac s₂ c₂ (start hmac true c₁ c) (start hmac true s₁ s).0

new_buffer : (b : MsgBuffer) × (init initial_size ≡ ok b) × Fresh initial_size b
new_buffer = init-Fresh initial_size (omega arith)

-- Bytes that arrive in an empty buffer.
append_few :
    (d : List ℕ) {b : MsgBuffer}
    → Holds [] b
    → length d + b.writer_index ≤ max_size
    → (b' : MsgBuffer) × (append d b ≡ ok b')
      × Holds d b'
      × (b'.writer_index ≤ b.writer_index + length d)
append_few d {b} h few = elim (append_lem d h.valid (omega arith)) [
  | inl (b', e, r) ↦ (b', e, subst (λ l. Holds (l ++ d) b') h.bytes r.holds, r.behind)
  | inr (_, over) ↦ absurd (omega arith)
]

converse_runs :
    (hmac : Hmac) (s₂ c₂ : Outside) (client server server' : RtmpHandShake) (c0c1 : List (List ℕ))
    {b b₁ b₂ b₃ : MsgBuffer} (a a' a'' : Outcome)
    → init initial_size ≡ ok b
    → append (joined c0c1) b ≡ ok b₁
    → handshake hmac true s₂ b₁ server ≡ ok a
    → (later (pending s₂.first) a.peer).0 ≡ server'
    → append (joined (a.sent ++ (later (pending s₂.first) a.peer).1)) b ≡ ok b₂
    → handshake hmac true c₂ b₂ client ≡ ok a'
    → append (joined a'.sent) a.buffer ≡ ok b₃
    → handshake hmac true s₂ b₃ server' ≡ ok a''
    → converse hmac s₂ c₂ (client, c0c1) server
      ≡ ok (record {
        client = (later 1 a'.peer).0;
        server = a''.peer;
        client_buffer = a'.buffer;
        server_buffer = a''.buffer;
      })
unfolding converse
converse_runs hmac s₂ c₂ client server server' c0c1 a a' a'' e₁ e₂ e₃ e₄ e₅ e₆ e₇ e₈ =
    rw (e₁, e₂, e₃, e₅, e₆, e₇, e₄, e₈) refl

abbrev pub AreDone : Parties → Type 0
AreDone e =
    (e.client.state ≡ State.done)
    × (e.server.state ≡ State.done)
    × (content e.server_buffer ≡ [])
    × (content e.client_buffer ≡ e.server.c2s2)

module _ (hmac : Hmac) (s₂ c₂ : Outside) (client server : RtmpHandShake) {place place' : ℕ}
    (c_size : length client.c1s1 ≡ packet_size + 1) (s_size : length server.c1s1 ≡ packet_size + 1)
    (c_complex : client.is_complex ≡ true) (s_complex : server.is_complex ≡ true)
    (m₂ : length s₂.random ≡ packet_size) (n₂ : length c₂.random ≡ packet_size)
    (c_waits : client.state ≡ State.wait_s0s1) (s_waits : server.state ≡ State.wait_c0c1)
    (s_checks : check_c1s1 hmac client.c1s1 server ≡ (some place, server))
    (c_checks : check_c1s1 hmac server.c1s1 client ≡ (some place', client)) where
  made_s : RtmpHandShake
  made_s = create_c2s2 hmac s₂.random s₂.now (drop 1 client.c1s1) server

  same : made_s.c1s1 ≡ server.c1s1
  unfolding made_s
  same =
      ap (λ x. x.c1s1)
        (create_c2s2-kept hmac s₂.random s₂.now (drop 1 client.c1s1) server s_complex)

  made_c : RtmpHandShake
  unfolding made_s
  made_c = create_c2s2 hmac c₂.random c₂.now (drop 1 made_s.c1s1) client

  s2_size : length made_s.c2s2 ≡ packet_size
  unfolding made_s
  s2_size = length-create_c2s2 hmac s₂.random s₂.now (drop 1 client.c1s1) server m₂ s_complex

  c2_size : length made_c.c2s2 ≡ packet_size
  unfolding made_c
  c2_size = length-create_c2s2 hmac c₂.random c₂.now (drop 1 made_s.c1s1) client n₂ c_complex

  converse-AreDone :
      (e : Parties) × (converse hmac s₂ c₂ (client, client.c1s1 ∷ []) server ≡ ok e) × AreDone e
  unfolding made_c made_s
  converse-AreDone =
      let (b, new_b, fresh) = new_buffer in
      let empty = length-append client.c1s1 [] in
      let (b₁, arrives₁, holds₁, behind₁) =
        append_few (client.c1s1 ++ []) fresh.holds (omega (arith, empty, c_size, fresh.writer)) in
      let (b₂, answers₁, holds₂, behind₂) =
        server_answers hmac s₂ client.c1s1 server place holds₁ c_size s_waits s_checks in
      let (ready, packets) = later_s2 s₂.first made_s in
      let all = length-append made_s.c1s1 (made_s.c2s2 ++ []) in
      let end = length-append made_s.c2s2 [] in
      let (b₃, arrives₂, holds₃, behind₃) =
        append_few (made_s.c1s1 ++ (made_s.c2s2 ++ [])) fresh.holds
          (omega (arith, all, end, s2_size, s_size, ap (λ l. length l) same, fresh.writer)) in
      let (b₄, answers₂, holds₄) =
        client_answers hmac c₂ made_s.c1s1 (made_s.c2s2 ++ []) client place' holds₃
          (omega (arith, s_size, ap (λ l. length l) same)) (omega (arith, end, s2_size)) c_waits
          (subst (λ p. check_c1s1 hmac p client ≡ (some place', client)) (sym same) c_checks) in
      let end' = length-append made_c.c2s2 [] in
      let (b₅, arrives₃, holds₅, behind₅) =
        append_few (made_c.c2s2 ++ []) holds₂
          (omega (arith, empty, end', c2_size, c_size, behind₁, behind₂, fresh.writer)) in
      let (b₆, answers₃, holds₆) =
        handshake_c2 hmac s₂ (record made_s { state = State.wait_c2 }) holds₅.valid refl
          (omega
            (arith, length-content holds₅.valid, ap (λ l. length l) holds₅.bytes, end', c2_size)) in
      (
        _,
        converse_runs hmac s₂ c₂ client server (record made_s { state = State.wait_c2 })
            (client.c1s1 ∷ []) _ _ _ new_b arrives₁ answers₁ ready
            (subst (λ l. append l b ≡ ok b₃) (ap joined (sym packets)) arrives₂) answers₂ arrives₃
            answers₃,
        (
          ap (λ x. x.state) (later_c2 c₂.first made_c),
          refl,
          holds₆.bytes
              ∙ ap (drop packet_size) holds₅.bytes
              ∙ drop_all packet_size (made_c.c2s2 ++ []) (omega (arith, end', c2_size)),
          holds₄.bytes ∙ append-nil made_s.c2s2,
        ),
      )

-- A client and a server in the complex handshake finish it with each other, whatever their random bytes
-- and times are, and whether each write ends at once or later, provided that S0S1 and S2 reach the client
-- together: each accepts what the other sends, and both are done. The server has then taken all that it
-- got, and the client has left S2 in its buffer.
pub exchange-AreDone :
    (hmac : Hmac) (c₁ s₁ s₂ c₂ : Outside) (c s : RtmpHandShake)
    → c.is_client ≡ true
    → s.is_client ≡ false
    → c.is_complex ≡ true
    → s.is_complex ≡ true
    → length c₁.random ≡ packet_size + 1
    → length s₁.random ≡ packet_size + 1
    → length s₂.random ≡ packet_size
    → length c₂.random ≡ packet_size
    → (e : Parties) × (exchange hmac c₁ s₁ s₂ c₂ c s ≡ ok e) × AreDone e
unfolding exchange
exchange-AreDone hmac c₁ s₁ s₂ c₂ c s is_client is_server c_complex s_complex n₁ m₁ m₂ n₂ =
    let (e, runs, ends) =
      converse-AreDone hmac s₂ c₂ client server (length-create_c1s1 hmac c₁.random c n₁ c_complex)
        (length-create_c1s1 hmac s₁.random s m₁ s_complex) c_still s_still m₂ n₂ refl refl
        (check_c1s1-create_c1s1 hmac c₁.random c server n₁ c_complex s_still
          (ap not s_role ∙ sym is_client)).0
        (check_c1s1-create_c1s1 hmac s₁.random s client m₁ s_complex c_still
          (ap not c_role ∙ sym is_server)).0 in
    (
      e,
      ap₂ (λ a b. converse hmac s₂ c₂ a b.0) (start_client hmac c₁ c is_client c_complex)
            (start_server hmac s₁ s is_server s_complex)
          ∙ runs,
      ends,
    )
  where
    client : RtmpHandShake
    client = record (create_c1s1 hmac c₁.random c) { state = State.wait_s0s1 }

    server : RtmpHandShake
    server = record (create_c1s1 hmac s₁.random s) { state = State.wait_c0c1 }

    c_still : client.is_complex ≡ true
    c_still = ap (λ x. x.is_complex) (create_c1s1-kept hmac c₁.random c c_complex) ∙ c_complex

    s_still : server.is_complex ≡ true
    s_still = ap (λ x. x.is_complex) (create_c1s1-kept hmac s₁.random s s_complex) ∙ s_complex

    c_role : client.is_client ≡ true
    c_role = ap (λ x. x.is_client) (create_c1s1-kept hmac c₁.random c c_complex) ∙ is_client

    s_role : server.is_client ≡ false
    s_role = ap (λ x. x.is_client) (create_c1s1-kept hmac s₁.random s s_complex) ∙ is_server
