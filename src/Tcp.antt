-- ===== src/Tcp.antt =====
-- network/net/TcpConnection.h and TcpConnection.cpp: what a connection sends and receives.
--
-- What `write`, `writev` and `readv` answer is an argument, and so is what the message callback does to
-- the connection. Every operation is called in the loop's thread. A part is an address and a length, as
-- in the source, which does not copy the bytes: they must stay where they are until they are sent.
pub mod Stream
pub mod Writes
pub mod Closed
pub mod Reads
pub mod Hops
mod Tests
use turbo_multimedia_server.Common.{
  ℕ, zero, suc, ◌+◌, ◌-◌, ◌%◌, Bool, true, false, not, ◌||◌, List, [], ◌∷◌, ◌++◌, Option, none,
  some, take, ltb, ◌==◌, if◌then◌else◌, Result, ok, fail, unfinished, ◌>>=◌, size_mod, add_size,
  sub_size,
}
use turbo_multimedia_server.Buffer.{MsgBuffer}
use turbo_multimedia_server.Buffer.ReadFd.{ReadvResult, failed, received, error, count, read_fd}
use turbo_multimedia_server.Timing.Idle.{extend}
use turbo_multimedia_server.Timing.{once, Entry, TimingWheel, has, insert_entry, make_entry, made}

-- `struct iovec`: the address and the number of bytes.
pub record Iovec : Type 0 where
  pub base : ℕ
  pub len : ℕ

-- `write` and `writev`: -1 with an `errno`, or how many bytes they took, and the `errno` that stands.
pub data Answer : Type 0 where
  refused : ℕ → Answer
  took : ℕ → ℕ → Answer

-- The result in `size_t sendLen`.
abbrev pub returned : Answer → ℕ
returned (refused e) = size_mod - 1
returned (took n e) = n

abbrev pub errno : Answer → ℕ
errno (refused e) = e
errno (took n e) = e

-- The calls of `write_complete_cb_` and of `close_cb_`.
pub data Effect : Type 0 where
  completed closing : Effect

-- `writing` is whether the loop waits for the socket to be writable, `wheel` the loop's timing wheel.
-- `called` has the callbacks called so far and `wire` the addresses of the bytes that the kernel took.
pub record TcpConnection : Type 0 where
  pub closed : Bool
  pub fd_open : Bool
  pub io_vec_list : List Iovec
  pub writing : Bool
  pub message_buffer : MsgBuffer
  pub has_close_cb : Bool
  pub has_write_complete_cb : Bool
  pub has_message_cb : Bool
  pub timeout_entry : Option Entry
  pub max_idle_ms : ℕ
  pub wheel : TimingWheel
  pub called : List Effect
  pub wire : List ℕ

-- `EINTR` and `EAGAIN`, which is `EWOULDBLOCK`.
abbrev pub retryable : ℕ → Bool
retryable e = e == 4 || e == 11

-- The addresses of `n` bytes from `a` on, and those of the bytes of parts.
abbrev pub range : ℕ → ℕ → List ℕ
range a zero = []
range a (suc n) = a % size_mod ∷ range (a + 1) n

abbrev pub addresses : List Iovec → List ℕ
addresses [] = []
addresses (p ∷ ps) = range p.base p.len ++ addresses ps

-- What the kernel takes of the bytes that it is offered.
abbrev pub taken : Answer → List ℕ → List ℕ
taken (refused e) bytes = []
taken (took n e) bytes = take n bytes

abbrev pub complete : TcpConnection → TcpConnection
complete c =
    if c.has_write_complete_cb then record c { called = c.called ++ (completed ∷ []) } else c

pub on_close : TcpConnection → TcpConnection
on_close c = if c.closed then c else record c {
  called = if c.has_close_cb then c.called ++ (closing ∷ []) else c.called;
  closed = true;
  fd_open = false;
}

-- `onError` and `onTimeout` log and close.
pub on_error : TcpConnection → TcpConnection
unfolding on_close
on_error c = on_close c

pub on_timeout : TcpConnection → TcpConnection
unfolding on_close
on_timeout c = on_close c

pub extend_life : TcpConnection → Result TcpConnection
extend_life c = extend c.max_idle_ms c.timeout_entry c.wheel >>= λ w. ok (record c { wheel = w })

-- The entry closes the connection when it is destroyed, which is at once if the wheel does not take it.
pub enable_check_idle_time : ℕ → TcpConnection → Result TcpConnection
unfolding on_timeout
enable_check_idle_time timeout c =
    let e = make_entry (once 0) c.wheel in
    insert_entry timeout e (made c.wheel) >>= λ w.
    let c₁ : TcpConnection = record c {
      max_idle_ms = timeout;
      timeout_entry = some e;
      wheel = w;
    } in
    if has e.id w then ok c₁ else ok (on_timeout c₁)

abbrev pub advance : ℕ → Iovec → Iovec
advance n p = record { base = add_size p.base n; len = p.len - n }

-- The inner loop of `onWrite`: the parts that are left behind the `n` bytes that were sent. No part
-- left is the return from within the loop. The subtractions are guarded by the test before them.
pub take_sent : ℕ → List Iovec → List Iovec
take_sent n [] = []
take_sent n (p ∷ ps) =
    let rest = take_sent (n - p.len) ps in
    if n == 0 then p ∷ ps else if ltb n p.len then advance n p ∷ ps else rest

abbrev pub drained : TcpConnection → TcpConnection
drained c = complete (record c { writing = false })

-- Behind a `writev` that took bytes; `again` is the next round.
pub after_writev : (TcpConnection → Result TcpConnection) → TcpConnection → Result TcpConnection
after_writev again c = elim c.io_vec_list [ [] ↦ ok (drained c) | p ∷ ps ↦ again c ]

-- The outer loop of `onWrite`, with the answers of `writev` one after another.
pub write_loop : List Answer → TcpConnection → Result TcpConnection
unfolding take_sent after_writev on_close
write_loop [] c = fail unfinished
write_loop (a ∷ others) c =
    let c₁ : TcpConnection = record c {
      io_vec_list = take_sent (returned a) c.io_vec_list;
      wire = c.wire ++ taken a (addresses c.io_vec_list);
    } in
    let rest = after_writev (write_loop others) c₁ in
    if ltb 0 (returned a) then rest else if retryable (errno a) then ok c else ok (on_close c)

pub on_write : List Answer → TcpConnection → Result TcpConnection
unfolding extend_life after_writev write_loop
on_write answers c =
    if c.closed then ok c else (extend_life c >>= λ c₁. after_writev (write_loop answers) c₁)

abbrev pub queued : Iovec → TcpConnection → TcpConnection
queued p c = record c { io_vec_list = c.io_vec_list ++ (p ∷ []); writing = true }

-- `sendInLoop` of an address and a length. The test `sendLen < 0` of a `size_t` never holds.
pub send_direct : Answer → ℕ → ℕ → TcpConnection → TcpConnection
send_direct a buf len c =
    let c₁ : TcpConnection = record c { wire = c.wire ++ taken a (range buf len) } in
    let size = sub_size len (returned a) in
    if size == 0
    then complete c₁
    else queued (record { base = add_size buf (returned a); len = size }) c₁

pub send_in_loop : Answer → ℕ → ℕ → TcpConnection → TcpConnection
unfolding send_direct
send_in_loop a buf len c = if c.closed then c else elim c.io_vec_list [
  | [] ↦ send_direct a buf len c
  | p ∷ ps ↦ if ltb 0 len then queued (record { base = buf; len = len }) c else c
]

-- `sendInLoop` of a list of buffer nodes.
pub send_list : List Iovec → TcpConnection → TcpConnection
send_list vec c =
    if c.closed
    then c
    else let c₁ : TcpConnection = record c { io_vec_list = c.io_vec_list ++ vec } in
      elim c₁.io_vec_list [ [] ↦ c₁ | p ∷ ps ↦ record c₁ { writing = true } ]

-- `message_cb_` is given the connection and its buffer: `heard` is what it does to the connection, in which
-- it may send, close or take bytes out of the buffer.
module _ (heard : TcpConnection → TcpConnection) where
  -- The loop of `onRead`, with what the kernel answers each `readFd`.
  pub read_loop : List ReadvResult → TcpConnection → Result TcpConnection
  unfolding on_close
  read_loop [] c = fail unfinished
  read_loop (r ∷ rs) c = read_fd r c.message_buffer >>= λ p.
      let c₁ : TcpConnection = record c { message_buffer = p.1 } in
      let rest = read_loop rs (if c₁.has_message_cb then heard c₁ else c₁) in
      elim p.0 [
        | count n ↦ if ltb 0 n then rest else ok (on_close c₁)
        | error e ↦ if retryable e then ok c₁ else ok (on_close c₁)
      ]

  pub on_read : List ReadvResult → TcpConnection → Result TcpConnection
  unfolding extend_life read_loop
  on_read rs c = if c.closed then ok c else (extend_life c >>= read_loop rs)
