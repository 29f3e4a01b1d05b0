-- ===== src/Udp.antt =====
-- network/UdpSocket.h and UdpSocket.cpp: what a datagram socket sends and receives.
--
-- What `sendto` and `recvfrom` answer is an argument, and so is what the message callback leaves of the
-- buffer. Every operation is called in the loop's thread. A datagram is its address in memory, its
-- length and where it goes, as in the source, which does not copy the bytes.
pub mod Writes
pub mod Order
pub mod Ends
pub mod Hops
pub mod Reads
mod Tests
use turbo_multimedia_server.Common.{
  ℕ, zero, suc, ◌-◌, ◌^◌, Bool, true, false, List, [], ◌∷◌, ◌++◌, Option, none, some, take, length,
  ltb, ◌==◌, if◌then◌else◌, Result, ok, fail, unfinished, ◌>>=◌,
}
use turbo_multimedia_server.Address.{InetAddress}
use turbo_multimedia_server.Address.Sockets.{SockAddr}
use turbo_multimedia_server.Buffer.{MsgBuffer, content, copy_to, has_written, retrieve_all, init}
use turbo_multimedia_server.Timing.{once, Entry, TimingWheel, has, insert_entry, make_entry, made}
use turbo_multimedia_server.Timing.Idle.{extend}
use turbo_multimedia_server.Tcp.{Answer, refused, took, Effect, completed, closing, retryable}

-- `UdpBufferNode`.
pub record UdpBufferNode : Type 0 where
  pub buf : ℕ
  pub len : ℕ
  pub addr : SockAddr

-- What `recvfrom` gives: -1 with an `errno`, or the sender and the bytes of a datagram.
pub data Received : Type 0 where
  failed : ℕ → Received
  datagram : SockAddr → List ℕ → Received

-- `writing` is whether the loop waits for the socket to be writable, `wheel` the loop's timing wheel.
-- `called` has the callbacks called so far, `heard` what the message callback was called with, and
-- `wire` the datagrams that the kernel took.
pub record UdpSocket : Type 0 where
  pub closed : Bool
  pub fd_open : Bool
  pub buffer_list : List UdpBufferNode
  pub writing : Bool
  pub max_idle_time : ℕ
  pub message_buffer : MsgBuffer
  pub timeout_entry : Option Entry
  pub message_cb : Option (InetAddress → MsgBuffer → MsgBuffer)
  pub has_write_complete_cb : Bool
  pub has_close_cb : Bool
  pub wheel : TimingWheel
  pub called : List Effect
  pub heard : List (InetAddress × List ℕ)
  pub wire : List UdpBufferNode

-- `message_buffer_size_`.
abbrev pub message_buffer_size : ℕ
message_buffer_size = 65535

abbrev pub complete : UdpSocket → UdpSocket
complete s =
    if s.has_write_complete_cb then record s { called = s.called ++ (completed ∷ []) } else s

pub on_close : UdpSocket → UdpSocket
on_close s = if s.closed then s else record s {
  called = if s.has_close_cb then s.called ++ (closing ∷ []) else s.called;
  closed = true;
  fd_open = false;
}

-- `onError` and `onTimeout` log and close.
pub on_error : UdpSocket → UdpSocket
unfolding on_close
on_error s = on_close s

pub on_timeout : UdpSocket → UdpSocket
unfolding on_close
on_timeout s = on_close s

pub extend_life : UdpSocket → Result UdpSocket
extend_life s = extend s.max_idle_time s.timeout_entry s.wheel >>= λ w. ok (record s { wheel = w })

-- The entry closes the socket when it is destroyed, which is at once if the wheel does not take it.
pub enable_check_idle_time : ℕ → UdpSocket → Result UdpSocket
unfolding on_timeout
enable_check_idle_time idle_time s =
    let e = make_entry (once 0) s.wheel in
    insert_entry idle_time e (made s.wheel) >>= λ w.
    let s₁ : UdpSocket = record s {
      max_idle_time = idle_time;
      timeout_entry = some e;
      wheel = w;
    } in
    if has e.id w then ok s₁ else ok (on_timeout s₁)

-- The result of `sendto` is above 0.
abbrev pub positive : Answer → Bool
positive (refused e) = false
positive (took n e) = ltb 0 n

-- The datagrams that the kernel took with this answer.
abbrev pub delivered : Answer → UdpBufferNode → List UdpBufferNode
delivered (refused e) node = []
delivered (took n e) node = node ∷ []

abbrev pub drained : UdpSocket → UdpSocket
drained s = record (complete s) { writing = false }

-- The loop of `onWrite`, with the answers of `sendto` one after another. It is entered with a datagram
-- pending, and left where none is.
pub write_loop : List Answer → UdpSocket → Result UdpSocket
unfolding on_close
write_loop [] s = fail unfinished
write_loop (a ∷ answers) s = elim s.buffer_list [
  | [] ↦ fail unfinished
  | node ∷ rest ↦
      let again = write_loop answers in
      let s₁ : UdpSocket = record s { wire = s.wire ++ delivered a node } in
      let s₂ : UdpSocket = record s₁ { buffer_list = rest } in
      elim a [
        | refused e ↦ if retryable e then ok s₁ else ok (on_close s₁)
        | took n e ↦
            if ltb 0 n
            then elim rest [ [] ↦ ok (drained s₂) | next ∷ others ↦ again s₂ ]
            else again s₁
      ]
]

pub on_write : List Answer → UdpSocket → Result UdpSocket
unfolding extend_life write_loop
on_write answers s =
    if s.closed
    then ok s
    else (extend_life s >>= λ s₁. elim s₁.buffer_list [
      | [] ↦ ok (complete (record s₁ { writing = false }))
      | node ∷ rest ↦ write_loop answers s₁
    ])

-- `sendInLoop` of one datagram, with what `sendto` answers if it is called.
pub send_in_loop : Answer → UdpBufferNode → UdpSocket → UdpSocket
send_in_loop a node s =
    let queued =
      λ (x : UdpSocket). record x { buffer_list = x.buffer_list ++ (node ∷ []); writing = true } in
    elim s.buffer_list [
      | [] ↦
          let s₁ : UdpSocket = record s { wire = s.wire ++ delivered a node } in
          if positive a then complete s₁ else queued s₁
      | pending ∷ rest ↦ queued s
    ]

-- `sendInLoop` of a list of datagrams.
pub send_list : List UdpBufferNode → UdpSocket → UdpSocket
send_list nodes s =
    let s₁ : UdpSocket = record s { buffer_list = s.buffer_list ++ nodes } in
    elim s₁.buffer_list [ [] ↦ s₁ | node ∷ rest ↦ record s₁ { writing = true } ]

module _ (sender : SockAddr → InetAddress) where
  -- The message callback with the sender, and `retrieveAll`.
  pub deliver : SockAddr → UdpSocket → UdpSocket
  deliver from s =
      let s₁ : UdpSocket = elim s.message_cb [
        | none ↦ s
        | some f ↦ record s {
          heard = s.heard ++ ((sender from, content s.message_buffer) ∷ []);
          message_buffer = f (sender from) s.message_buffer;
        }
      ] in
      record s₁ { message_buffer = retrieve_all s₁.message_buffer }

  -- The loop of `onRead`. The kernel puts no more than the buffer's size of a datagram behind the
  -- readable bytes, and drops the rest of it.
  pub read_loop : List Received → UdpSocket → Result UdpSocket
  unfolding on_close deliver
  read_loop [] s = fail unfinished
  read_loop (failed e ∷ rs) s = if retryable e then ok s else ok (on_close s)
  read_loop (datagram from bytes ∷ rs) s =
      let d = take message_buffer_size bytes in
      let b = s.message_buffer in
      copy_to b.writer_index d b >>= λ b₁.
      let s₁ : UdpSocket = record s { message_buffer = b₁ } in
      if ltb 0 (length d)
      then (has_written (length d) b₁ >>= λ b₂.
          read_loop rs (deliver from (record s { message_buffer = b₂ })))
      else read_loop rs s₁

  pub on_read : List Received → UdpSocket → Result UdpSocket
  unfolding extend_life read_loop
  on_read rs s = if s.closed then ok s else (extend_life s >>= read_loop rs)
