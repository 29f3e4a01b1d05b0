-- ===== src/Server.antt =====
-- network/TcpServer.h, TcpServer.cpp and network/net/Acceptor.cpp: the acceptor, the connections and the
-- loop that they share.
--
-- A connection is known by its descriptor, which is open as long as the connection is in the set. What
-- `socket` and `accept4` give is an argument. What a handler leaves of a connection is an argument too:
-- the handlers are those of Tcp.antt. Every operation is called in the loop's thread.
pub mod Watched
pub mod Settled
pub mod Accepting
pub mod Events
mod Tests
use turbo_multimedia_server.Common.{
  ℕ, zero, suc, Bool, true, false, List, [], ◌∷◌, ◌++◌, Option, none, some, ◌==◌, if◌then◌else◌,
  Result, ok, fail, unfinished, ◌>>=◌,
}
use turbo_multimedia_server.Address.{InetAddress}
use turbo_multimedia_server.Address.Sockets.{
  SockAddr, Accepted, refused, accepted, accept, no_address, af_inet, af_inet6,
}
use turbo_multimedia_server.Buffer.{MsgBuffer, init, initial_size}
use turbo_multimedia_server.Loop.{
  EventLoop, lookup, erase, put, add_event, remove_event, enable_event_writing,
}
use turbo_multimedia_server.Timing.{TimingWheel}
use turbo_multimedia_server.Tcp.{TcpConnection, enable_check_idle_time, retryable}

-- The calls of `new_connection_cb_` and of `destroy_connection_cb_`.
pub data Notice : Type 0 where
  arrived : ℕ → InetAddress → Notice
  destroyed : ℕ → Notice

-- `acceptor_fd` is the `fd_` of the acceptor, none where it is -1. `families` has the family of each
-- socket that was asked for, `closed_fds` what the acceptor and the connections closed, and `notices`
-- the callbacks called.
pub record TcpServer : Type 0 where
  pub addr : InetAddress
  pub loop : EventLoop
  pub acceptor_fd : Option ℕ
  pub has_accept_callback : Bool
  pub connections : List (ℕ × TcpConnection)
  pub has_message_cb : Bool
  pub has_write_complete_cb : Bool
  pub has_new_connection_cb : Bool
  pub has_destroy_connection_cb : Bool
  pub families : List ℕ
  pub closed_fds : List ℕ
  pub notices : List Notice

abbrev pub close_acceptor : TcpServer → TcpServer
close_acceptor s = record s {
  closed_fds = elim s.acceptor_fd [ none ↦ s.closed_fds | some fd ↦ s.closed_fds ++ (fd ∷ []) ];
}

-- `Acceptor::open`, with the descriptor of the new socket, or none if there is no socket.
pub open_acceptor : Option ℕ → TcpServer → TcpServer
open_acceptor fresh s =
    let s₁ = close_acceptor s in
    let s₂ : TcpServer = record s₁ {
      acceptor_fd = fresh;
      families = s₁.families ++ ((if s.addr.is_ipv6 then af_inet6 else af_inet) ∷ []);
    } in
    elim fresh [ none ↦ s₂ | some fd ↦ record s₂ { loop = add_event fd s₂.loop } ]

-- `Acceptor::stop`: the event of -1 is in no loop.
pub stop : TcpServer → TcpServer
stop s = elim s.acceptor_fd [ none ↦ s | some fd ↦ record s { loop = remove_event fd s.loop } ]

pub start : Option ℕ → TcpServer → TcpServer
unfolding open_acceptor
start fresh s = open_acceptor fresh (record s { has_accept_callback = true })

-- `Acceptor::onClose`.
pub acceptor_on_close : Option ℕ → TcpServer → TcpServer
unfolding open_acceptor stop
acceptor_on_close fresh s = open_acceptor fresh (stop s)

pub acceptor_on_error : Option ℕ → TcpServer → TcpServer
unfolding acceptor_on_close
acceptor_on_error fresh s = acceptor_on_close fresh s

pub on_connection_close : ℕ → TcpServer → TcpServer
on_connection_close fd s = record s {
  connections = erase fd s.connections;
  loop = remove_event fd s.loop;
  notices = if s.has_destroy_connection_cb then s.notices ++ (destroyed fd ∷ []) else s.notices;
}

-- `TcpConnection::onClose` of a connection that is in the set, with or without the callback.
pub release : ℕ → Bool → TcpServer → TcpServer
unfolding on_connection_close
release fd has_close_cb s =
    let s₁ = (if has_close_cb then on_connection_close fd s else s) in
    record s₁ { closed_fds = s₁.closed_fds ++ (fd ∷ []) }

-- What becomes of a connection that a handler leaves as `c`: it is as it was left, or it was closed. The
-- loop has the wheel that the handler left.
pub put_back : ℕ → TcpConnection → TcpServer → TcpServer
unfolding release
put_back fd c s =
    let s₁ : TcpServer = record s { loop = record s.loop { timing_wheel = c.wheel } } in
    if c.closed
    then release fd c.has_close_cb s₁
    else (record s₁ { connections = put fd c s.connections })

-- `Event::enableWriting` of a connection, as often as a handler calls it.
abbrev pub set_writing : ℕ → List Bool → EventLoop → EventLoop
set_writing fd [] l = l
set_writing fd (enable ∷ later) l = set_writing fd later (enable_event_writing fd enable l)

-- A handler of a connection: what it asks of the loop for the socket, and what it leaves.
pub settle : ℕ → List Bool → TcpConnection → TcpServer → TcpServer
unfolding put_back
settle fd asked c s = put_back fd c (record s { loop = set_writing fd asked s.loop })

-- A new connection of `onAccept`.
abbrev pub connection : MsgBuffer → TcpServer → TcpConnection
connection buffer s = record {
  closed = false;
  fd_open = true;
  io_vec_list = [];
  writing = false;
  message_buffer = buffer;
  has_close_cb = true;
  has_write_complete_cb = s.has_write_complete_cb;
  has_message_cb = s.has_message_cb;
  timeout_entry = none;
  max_idle_ms = 30;
  wheel = s.loop.timing_wheel;
  called = [];
  wire = [];
}

abbrev pub noticed : Notice → TcpServer → TcpServer
noticed n s = if s.has_new_connection_cb then record s { notices = s.notices ++ (n ∷ []) } else s

-- The connection is put into the set as its idle timer leaves it, which keeps it by a weak pointer.
pub on_accept : ℕ → InetAddress → TcpServer → Result TcpServer
unfolding put_back
on_accept fd peer s =
    let s₁ : TcpServer = record s { loop = add_event fd s.loop } in
    init initial_size >>= λ buffer. enable_check_idle_time 30 (connection buffer s₁) >>= λ c.
    ok (noticed (arrived fd peer) (put_back fd c s₁))

module _ (inet_ntop : ℕ → List ℕ → List ℕ) (to_string : ℕ → List ℕ) where
  -- The loop of `Acceptor::onRead`; `fresh` is the new socket's descriptor if the acceptor starts anew.
  pub accept_loop : List Accepted → Option ℕ → TcpServer → Result TcpServer
  unfolding acceptor_on_close on_accept
  accept_loop [] fresh s = fail unfinished
  accept_loop (refused e ∷ answers) fresh s =
      if retryable e then ok s else ok (acceptor_on_close fresh s)
  accept_loop (accepted fd from ∷ answers) fresh s =
      let peer = accept inet_ntop to_string (accepted fd from) no_address in
      let taken = on_accept fd peer s in
      if s.has_accept_callback
      then (taken >>= accept_loop answers fresh)
      else accept_loop answers fresh s
