-- ===== src/Client.antt =====
-- network/TcpClient.h and TcpClient.cpp: a connection that the client opens itself.
--
-- What `socket`, `connect` and `getsockopt` give is an argument. Every operation is called in the loop's
-- thread. The connection's own operations are those of Tcp.antt.
pub mod Opening
mod Tests
use turbo_multimedia_server.Common.{
  ℕ, suc, Bool, true, false, not, ◌&&◌, List, [], ◌∷◌, ◌++◌, Option, none, some, ◌==◌,
  if◌then◌else◌, Result, ok, ◌>>=◌,
}
use turbo_multimedia_server.Buffer.ReadFd.{ReadvResult}
use turbo_multimedia_server.Loop.{EventLoop, add_event, remove_event, enable_event_writing}
use turbo_multimedia_server.Tcp.{
  Iovec, Answer, TcpConnection, on_read, on_write, on_close, send_list,
}

-- `kTcpConnStatusInit` and the others.
pub data Status : Type 0 where
  initial connecting connected disconnected : Status

abbrev pub is_connecting : Status → Bool
is_connecting connecting = true
is_connecting _ = false

abbrev pub is_connected : Status → Bool
is_connected connected = true
is_connected _ = false

-- `fd` is none where `fd_` is -1. `established` counts the calls of `updateConnectionStatus`, and
-- `reports` those of `connection_cb_`.
pub record TcpClient : Type 0 where
  pub connection : TcpConnection
  pub loop : EventLoop
  pub fd : Option ℕ
  pub status : Status
  pub has_connection_cb : Bool
  pub established : ℕ
  pub reports : ℕ

-- What `connect` gives: 0, or -1 and an `errno`.
pub data Connect : Type 0 where
  connects : Connect
  refuses : ℕ → Connect

-- `EINPROGRESS`.
abbrev pub in_progress : ℕ
in_progress = 115

-- The loop, on the event of a descriptor; that of -1 is in no loop.
abbrev pub on_loop : (ℕ → EventLoop → EventLoop) → TcpClient → TcpClient
on_loop f c = record c { loop = elim c.fd [ none ↦ c.loop | some fd ↦ f fd c.loop ] }

-- `Event::close` sets the descriptor to -1 where the connection was open.
pub client_on_close : TcpClient → TcpClient
client_on_close c = record c {
  status = disconnected;
  connection = on_close c.connection;
  fd = if c.connection.closed then c.fd else none;
}

pub update_connection_status : TcpClient → TcpClient
update_connection_status c = record c {
  status = connected;
  established = suc c.established;
  reports = if c.has_connection_cb then suc c.reports else c.reports;
}

-- `connectInLoop`, with the descriptor that `socket` gives, or none, and what `connect` gives.
pub connect_in_loop : Option ℕ → Connect → TcpClient → TcpClient
unfolding client_on_close update_connection_status
connect_in_loop none result c = client_on_close (record c { fd = none })
connect_in_loop (some fd) result c =
    let c₁ : TcpClient = record c {
      fd = some fd;
      status = connecting;
      loop = enable_event_writing fd true (add_event fd c.loop);
      connection = record c.connection { writing = true };
    } in
    elim result [
      | connects ↦ update_connection_status c₁
      | refuses e ↦ if e == in_progress then c₁ else client_on_close c₁
    ]

-- An event while the client is connecting; `failed` is what `checkError` gives.
pub on_connecting : Bool → TcpClient → TcpClient
unfolding client_on_close update_connection_status
on_connecting failed c = if failed then client_on_close c else update_connection_status c

-- The connection as its own operation leaves it. Where that closed it, it called `onClose` of the client.
pub absorb : TcpConnection → TcpClient → TcpClient
absorb x c =
    if x.closed && not c.connection.closed
    then record c { connection = x; status = disconnected; fd = none }
    else record c { connection = x }

-- `heard` is what the message callback does to the connection.
pub client_on_read :
    Bool → (TcpConnection → TcpConnection) → List ReadvResult → TcpClient → Result TcpClient
unfolding on_connecting absorb
client_on_read failed heard rs c =
    if is_connecting c.status
    then ok (on_connecting failed c)
    else (if is_connected c.status
        then (on_read heard rs c.connection >>= λ x. ok (absorb x c))
        else ok c)

pub client_on_write : Bool → List Answer → TcpClient → Result TcpClient
unfolding on_connecting absorb
client_on_write failed answers c =
    if is_connecting c.status
    then ok (on_connecting failed c)
    else (if is_connected c.status
        then (on_write answers c.connection >>= λ x. ok (absorb x c))
        else ok c)

pub client_send_list : List Iovec → TcpClient → TcpClient
client_send_list vec c =
    if is_connected c.status then record c { connection = send_list vec c.connection } else c

-- `send` of an address and a length, which the body does not read.
pub client_send : ℕ → ℕ → TcpClient → TcpClient
client_send buf len c = record c {
  loop = if is_connected c.status then (on_loop remove_event c).loop else c.loop;
  status = connected;
  connection = on_close c.connection;
  fd = if c.connection.closed then c.fd else none;
}
