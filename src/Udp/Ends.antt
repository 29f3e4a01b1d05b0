-- ===== src/Udp/Ends.antt =====
-- network/UdpServer.cpp and UdpClient.cpp: a datagram socket with the loop that watches it.
--
-- What `socket` gives is an argument; a failed `bind` is only logged. Every operation is called in the
-- loop's thread.
use turbo_multimedia_server.Common.{
  ℕ, ◌+◌, ◌≡◌, refl, ap, ◌∙◌, inl, inr, Bool, true, false, List, Option, none, some, ◌==◌,
  if◌then◌else◌, ok, ◌>>=◌, Bool-cases,
}
use turbo_multimedia_server.Address.{InetAddress}
use turbo_multimedia_server.Address.Sockets.{SockAddr, get_sock_address}
use turbo_multimedia_server.Loop.{EventLoop, add_event, remove_event}
use turbo_multimedia_server.Loop.Watched.{
  has_fd, has_fd-add_event, has_fd-remove_event, add_event_again,
}
use turbo_multimedia_server.Udp.{
  UdpSocket, Received, on_close, extend_life, read_loop, on_read, send_in_loop,
}
use turbo_multimedia_server.Tcp.{Answer}

-- `fd` is none where `fd_` is -1. The address that `bind` is given is not part of it.
pub record UdpServer : Type 0 where
  pub socket : UdpSocket
  pub loop : EventLoop
  pub fd : Option ℕ

on_close_closed : (s : UdpSocket) → (on_close s).closed ≡ true
unfolding on_close
on_close_closed s = elim (Bool-cases s.closed) [
  | inl b ↦ rw (on_close, b) refl
  | inr b ↦ rw (on_close, b) refl
]

on_read_closed :
    (s : UdpSocket) (sender : SockAddr → InetAddress) (rs : List Received)
    → s.closed ≡ true
    → on_read sender rs s ≡ ok s
unfolding on_read
on_read_closed s sender rs over =
    ap (λ b. if b then ok s else (extend_life s >>= read_loop sender rs)) over

pub server_open : Option ℕ → UdpServer → UdpServer
server_open fresh s = record s {
  fd = fresh;
  loop = elim fresh [ none ↦ s.loop | some fd ↦ add_event fd s.loop ];
}

-- `stop` closes the socket.
pub server_stop : UdpServer → UdpServer
unfolding on_close
server_stop s = record s { socket = on_close s.socket; fd = if s.socket.closed then s.fd else none }

-- `sock_addr` is what the datagrams of the client are sent to, and `reports` counts the calls of
-- `connection_cb_`.
pub record UdpClient : Type 0 where
  pub client_socket : UdpSocket
  pub client_loop : EventLoop
  pub client_fd : Option ℕ
  pub connected : Bool
  pub server_addr : InetAddress
  pub sock_addr : SockAddr
  pub has_connection_cb : Bool
  pub reports : ℕ

module _ (inet_pton : ℕ → List ℕ → Option (List ℕ)) (atoi : List ℕ → ℕ) where
  pub client_connect : Option ℕ → UdpClient → UdpClient
  client_connect none c = record c { client_fd = none }
  client_connect (some fd) c = record c {
    client_fd = some fd;
    connected = true;
    client_loop = add_event fd c.client_loop;
    sock_addr = get_sock_address inet_pton atoi c.server_addr c.sock_addr;
    reports = if c.has_connection_cb then c.reports + 1 else c.reports;
  }

pub client_close : UdpClient → UdpClient
unfolding on_close
client_close c =
    if c.connected
    then record c {
      client_loop = elim c.client_fd [
        | none ↦ c.client_loop
        | some fd ↦ remove_event fd c.client_loop
      ];
      connected = false;
      client_socket = on_close c.client_socket;
      client_fd = if c.client_socket.closed then c.client_fd else none;
    }
    else c

-- `send`, to the server.
pub send_to_server : Answer → ℕ → ℕ → UdpClient → UdpClient
unfolding send_in_loop
send_to_server a buf len c = record c {
  client_socket =
      send_in_loop a (record { buf = buf; len = len; addr = c.sock_addr }) c.client_socket;
}

-- A server that is stopped and opened again on the same descriptor hears nothing: its event was left in
-- the loop's table, so that epoll is asked for nothing, and the socket stays closed, so that a read
-- returns at once.
pub server_stop_reopened :
    (fd : ℕ) (sender : SockAddr → InetAddress) (rs : List Received) (s : UdpServer)
    → let opened = server_open (some fd) s in
      let again = server_open (some fd) (server_stop opened) in
      (again.loop.requests ≡ opened.loop.requests)
      × (on_read sender rs again.socket ≡ ok again.socket)
unfolding server_open server_stop
server_stop_reopened fd sender rs s = (
  add_event_again fd s.loop,
  on_read_closed (on_close s.socket) sender rs (on_close_closed s.socket),
)

-- A client that is closed behind its connecting leaves the loop's table as it was, for every descriptor
-- but the one it had, which is not watched any more.
pub client_close_connected :
    (inet_pton : ℕ → List ℕ → Option (List ℕ)) (atoi : List ℕ → ℕ) (fd x : ℕ) (c : UdpClient)
    → has_fd x (client_close (client_connect inet_pton atoi (some fd) c)).client_loop.events
      ≡ (if x == fd then false else has_fd x c.client_loop.events)
unfolding client_close client_connect
client_close_connected inet_pton atoi fd x c =
    has_fd-remove_event x fd (add_event fd c.client_loop) ∙ elim (Bool-cases (x == fd)) [
      | inl b ↦ rw b refl
      | inr b ↦ rw b (has_fd-add_event x fd c.client_loop ∙ rw b refl)
    ]
