-- ===== src/Address/Sockets.antt =====
-- network/net/SocketOpt.cpp, and the other places where the source reads or fills a `sockaddr`:
-- `InetAddress::getSockAddress`, `UdpSocket::onRead` and `DnsService::getHostInfo`.
--
-- `inet_ntop`, `inet_pton`, `std::to_string` and `atoi` are parameters. A port is in host order: the
-- source calls `htons` and `ntohs` wherever it touches one.
pub mod Names
pub mod Opening
use turbo_multimedia_server.Common.{
  ℕ, zero, ◌+◌, ◌-◌, ◌*◌, ◌/◌, ◌%◌, ◌^◌, Bool, true, false, List, [], ◌∷◌, ◌++◌, Option, none, some,
  ◌==◌, if◌then◌else◌,
}
use turbo_multimedia_server.Address.{InetAddress, set_ip, set_port, set_is_ipv6}

-- `AF_INET` and `AF_INET6`.
abbrev pub af_inet : ℕ
af_inet = 2

abbrev pub af_inet6 : ℕ
af_inet6 = 10

-- `sockaddr_in` or `sockaddr_in6`, by its family, with the bytes of the address. `rest` are the bytes of
-- `sin_zero`, or of `sin6_flowinfo` and `sin6_scope_id`, which the source neither reads nor writes.
pub record SockAddr : Type 0 where
  pub family : ℕ
  pub port : ℕ
  pub address : List ℕ
  pub rest : List ℕ

-- `InetAddress()`.
abbrev pub no_address : InetAddress
no_address = record { ip = []; port = []; is_ipv6 = false }

-- What `accept4` gives.
pub data Accepted : Type 0 where
  refused : ℕ → Accepted
  accepted : ℕ → SockAddr → Accepted

module _ (inet_ntop : ℕ → List ℕ → List ℕ) (to_string : ℕ → List ℕ) where
  -- `setIP` and `setPort` of what the kernel filled.
  abbrev pub named : ℕ → SockAddr → InetAddress → InetAddress
  named family s a = set_port to_string s.port (set_ip (inet_ntop family s.address) a)

  -- The name of a socket's peer, as `accept` and `getPeerAddr` write it.
  pub write_name : SockAddr → InetAddress → InetAddress
  unfolding set_ip set_port set_is_ipv6
  write_name s a =
      if s.family == af_inet6 then named af_inet6 s a else set_is_ipv6 false (named af_inet s a)

  pub accept : Accepted → InetAddress → InetAddress
  unfolding write_name
  accept (refused e) peer = peer
  accept (accepted fd s) peer = write_name s peer

  -- `getPeerAddr` and `getLocalAddr`, with what `getpeername` and `getsockname` fill.
  pub get_peer_addr : SockAddr → InetAddress
  unfolding write_name
  get_peer_addr s = write_name s no_address

  pub get_local_addr : SockAddr → InetAddress
  unfolding write_name
  get_local_addr s = write_name s no_address

  -- The sender of a datagram in `UdpSocket::onRead`.
  pub sender : SockAddr → InetAddress
  unfolding set_ip set_port set_is_ipv6
  sender s =
      if s.family == af_inet6
      then set_is_ipv6 true (named af_inet6 s no_address)
      else set_is_ipv6 false (named af_inet s no_address)

  -- One result of `getaddrinfo` in `DnsService::getHostInfo`.
  pub host_address : SockAddr → InetAddress
  unfolding set_ip set_port set_is_ipv6
  host_address s =
      if s.family == af_inet6
      then named af_inet6 s no_address
      else if s.family == af_inet
      then set_is_ipv6 false (named af_inet s no_address)
      else no_address

  pub dump_sock_addr : SockAddr → List ℕ
  dump_sock_addr s =
      if s.family == af_inet
      then inet_ntop af_inet s.address ++ (b':' ∷ to_string s.port)
      else if s.family == af_inet6
      then inet_ntop af_inet6 s.address ++ (b':' ∷ to_string s.port)
      else []

module _ (inet_pton : ℕ → List ℕ → Option (List ℕ)) (atoi : List ℕ → ℕ) where
  -- The bytes stay as they are where `inet_pton` gives none. The `int` is cut to 16 bits.
  abbrev pub filled : ℕ → InetAddress → SockAddr → SockAddr
  filled family a s = record {
    family = family;
    port = atoi a.port % 2 ^ 16;
    address = elim (inet_pton family a.ip) [ none ↦ s.address | some bytes ↦ bytes ];
    rest = s.rest;
  }

  pub get_sock_address : InetAddress → SockAddr → SockAddr
  get_sock_address a s = if a.is_ipv6 then filled af_inet6 a s else filled af_inet a s

-- The options of a socket that the setters change. `flags` are those of `F_GETFL`.
pub record SocketOptions : Type 0 where
  pub reuse_addr : Bool
  pub reuse_port : Bool
  pub keep_alive : Bool
  pub no_delay : Bool
  pub flags : ℕ

pub set_reuse_addr : Bool → SocketOptions → SocketOptions
set_reuse_addr on s = record s { reuse_addr = on }

pub set_reuse_port : Bool → SocketOptions → SocketOptions
set_reuse_port on s = record s { reuse_port = on }

pub set_keep_alive : Bool → SocketOptions → SocketOptions
set_keep_alive on s = record s { keep_alive = on }

pub set_tcp_no_delay : Bool → SocketOptions → SocketOptions
set_tcp_no_delay on s = record s { no_delay = on }

-- `O_NONBLOCK`, one bit.
abbrev pub o_nonblock : ℕ
o_nonblock = 0x800

abbrev pub with_bit : Bool → ℕ → ℕ
with_bit on flags =
    let bit = flags / o_nonblock % 2 in
    if on then flags + (1 - bit) * o_nonblock else flags - bit * o_nonblock

pub set_non_blocking : Bool → SocketOptions → SocketOptions
set_non_blocking on s = record s { flags = with_bit on s.flags }
