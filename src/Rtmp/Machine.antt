-- ===== src/Rtmp/Machine.antt =====
-- The states of the RTMP handshake (mmedia/rtmp/RtmpHandshake.cpp: `start`, `handshake`,
-- `writeComplete`, and the sends).
--
-- `TcpConnection::send` may write all bytes at once and call `writeComplete` before it returns. Each
-- send takes a list of flags: whether that happens, and whether it happens again to what
-- `writeComplete` sends in turn. The connection is there, or an operation does nothing: `conn`.
pub mod Server
pub mod Client
pub mod Accepts
pub mod Answers
pub mod Exchange
pub mod Pieces
pub mod Late
use turbo_multimedia_server.Common.{
  ℕ, ◌+◌, Bool, true, false, List, [], ◌∷◌, ◌++◌, Option, none, some, slice, drop, ltb, leb,
  if◌then◌else◌, Result, ok, ◌>>=◌,
}
use turbo_multimedia_server.Buffer.{MsgBuffer, readable_bytes, retrieve}
use turbo_multimedia_server.Rtmp.{
  Hmac, State, RtmpHandShake, packet_size, create_c1s1, check_c1s1, create_c2s2, check_c2s2,
}

-- The results of `handshake`: -1, 0, 1 and 2.
pub data Reply : Type 0 where
  failed ok_so_far need_more got_c2 : Reply

-- A state and the packets that were sent on the way to it, oldest first.
abbrev pub Sent : Type 0
Sent = RtmpHandShake × List (List ℕ)

-- `writeComplete` with a connection; `again` is what becomes of what it sends.
pub write_complete_with : (RtmpHandShake → Sent) → RtmpHandShake → Sent
write_complete_with again hs = elim hs.state [
  | State.post_s0s1 ↦
      let (hs', sent) = again (record hs { state = State.post_s2 }) in (hs', hs.c2s2 ∷ sent)
  | State.post_s2 ↦ (record hs { state = State.wait_c2 }, [])
  | State.post_c0c1 ↦ (record hs { state = State.wait_s0s1 }, [])
  | State.post_c2 ↦ (record hs { state = State.done }, [])
  | State.doing ↦ (record hs { state = State.done }, [])
  | _ ↦ (hs, [])
]

-- What follows a send.
pub on_sent : List Bool → RtmpHandShake → Sent
on_sent [] hs = (hs, [])
on_sent (false ∷ flags) hs = (hs, [])
on_sent (true ∷ flags) hs = write_complete_with (on_sent flags) hs

pub write_complete : Bool → List Bool → RtmpHandShake → Sent
unfolding write_complete_with
write_complete conn flags hs = if conn then write_complete_with (on_sent flags) hs else (hs, [])

-- `sendC1S1` and `sendC2S2`; with no connection nothing is sent.
pub send_c1s1 : Bool → List Bool → RtmpHandShake → Sent
send_c1s1 conn flags hs =
    if conn then (let (hs', sent) = on_sent flags hs in (hs', hs.c1s1 ∷ sent)) else (hs, [])

pub send_c2s2 : Bool → List Bool → RtmpHandShake → Sent
send_c2s2 conn flags hs =
    if conn then (let (hs', sent) = on_sent flags hs in (hs', hs.c2s2 ∷ sent)) else (hs, [])

-- What an operation takes from outside: the random bytes of the packet that it makes, the time, and
-- what becomes of its first and second send.
pub record Outside : Type 0 where
  pub random : List ℕ
  pub now : ℕ
  pub first : List Bool
  pub second : List Bool

pub record Outcome : Type 0 where
  pub reply : Reply
  pub buffer : MsgBuffer
  pub peer : RtmpHandShake
  pub sent : List (List ℕ)

abbrev pub finish : Reply → MsgBuffer → Sent → Outcome
finish reply buf (hs, sent) = record { reply = reply; buffer = buf; peer = hs; sent = sent }

module _ (hmac : Hmac) where
  pub start : Bool → Outside → RtmpHandShake → Sent
  start conn o hs =
      let hs' = create_c1s1 hmac o.random hs in
      if hs'.is_client
      then send_c1s1 conn o.first (record hs' { state = State.wait_s0s1 })
      else (record hs' { state = State.wait_c0c1 }, [])

  -- Behind `checkC1S1` of a C0C1.
  pub answer_c0c1 : Outside → MsgBuffer → List ℕ → Option ℕ × RtmpHandShake → Result Outcome
  answer_c0c1 o buf packet (none, hs) = ok (finish failed buf (hs, []))
  answer_c0c1 o buf packet (some place, hs) =
      let made = create_c2s2 hmac o.random o.now (drop 1 packet) hs in
      retrieve (packet_size + 1) buf >>= λ buf'.
      ok (finish ok_so_far buf' (send_c1s1 true o.first (record made { state = State.post_s0s1 })))

  pub on_c0c1 : Outside → MsgBuffer → RtmpHandShake → Result Outcome
  on_c0c1 o buf hs =
      if ltb (readable_bytes buf) (packet_size + 1)
      then ok (finish need_more buf (hs, []))
      else let packet = slice buf.reader_index (packet_size + 1) buf.buffer in
        answer_c0c1 o buf packet (check_c1s1 hmac packet hs)

  pub on_c2 : MsgBuffer → RtmpHandShake → Result Outcome
  on_c2 buf hs =
      if ltb (readable_bytes buf) packet_size
      then ok (finish need_more buf (hs, []))
      else if check_c2s2 (slice buf.reader_index packet_size buf.buffer)
      then (retrieve packet_size buf >>= λ buf'.
          ok (finish ok_so_far buf' (record hs { state = State.done }, [])))
      else ok (finish failed buf (hs, []))

  -- Behind the S0S1 that a client accepts: with S2 already there the client waits for its C2S2 to be
  -- written. Otherwise it sends C2S2, and goes on to send C0C1 once more.
  pub after_s0s1 : Outside → MsgBuffer → RtmpHandShake → Outcome
  after_s0s1 o buf hs =
      if leb packet_size (readable_bytes buf)
      then finish got_c2 buf (send_c2s2 true o.first (record hs { state = State.doing }))
      else let (hs₁, sent₁) = send_c2s2 true o.first (record hs { state = State.post_c2 }) in
        let (hs₂, sent₂) = send_c1s1 true o.second (record hs₁ { state = State.post_s0s1 }) in
        finish ok_so_far buf (hs₂, sent₁ ++ sent₂)

  -- Behind `checkC1S1` of an S0S1.
  pub answer_s0s1 : Outside → MsgBuffer → List ℕ → Option ℕ × RtmpHandShake → Result Outcome
  answer_s0s1 o buf packet (none, hs) = ok (finish failed buf (hs, []))
  answer_s0s1 o buf packet (some place, hs) =
      let made = create_c2s2 hmac o.random o.now (drop 1 packet) hs in
      retrieve (packet_size + 1) buf >>= λ buf'. ok (after_s0s1 o buf' made)

  pub on_s0s1 : Outside → MsgBuffer → RtmpHandShake → Result Outcome
  on_s0s1 o buf hs =
      if ltb (readable_bytes buf) (packet_size + 1)
      then ok (finish need_more buf (hs, []))
      else let packet = slice buf.reader_index (packet_size + 1) buf.buffer in
        answer_s0s1 o buf packet (check_c1s1 hmac packet hs)

  -- The `switch` of `handshake`.
  pub dispatch : State → Outside → MsgBuffer → RtmpHandShake → Result Outcome
  dispatch State.wait_c0c1 o buf hs = on_c0c1 o buf hs
  dispatch State.wait_c2 o buf hs = on_c2 buf hs
  dispatch State.wait_s0s1 o buf hs = on_s0s1 o buf hs
  dispatch _ o buf hs = ok (finish ok_so_far buf (hs, []))

  pub handshake : Bool → Outside → MsgBuffer → RtmpHandShake → Result Outcome
  handshake conn o buf hs =
      if conn then dispatch hs.state o buf hs else ok (finish failed buf (hs, []))
