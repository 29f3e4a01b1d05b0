-- ===== src/Address/Sockets/Opening.antt =====
-- The system calls that make, bind and connect a socket (network/net/SocketOpt.cpp), with what they are
-- given. What they answer is passed on by the source as it is.
use turbo_multimedia_server.Common.{
  ℕ, ◌≡◌, refl, inl, inr, List, Option, ◌==◌, if◌then◌else◌, Bool-cases,
}
use turbo_multimedia_server.Address.{InetAddress}
use turbo_multimedia_server.Address.Sockets.{SockAddr, af_inet6, get_sock_address}

-- `SOCK_STREAM` with `IPPROTO_TCP`, and `SOCK_DGRAM` with `IPPROTO_UDP`; both do not block and are closed
-- by `exec`.
pub data Kind : Type 0 where
  stream datagram : Kind

pub data SystemCall : Type 0 where
  makes : ℕ → Kind → SystemCall
  binds : ℕ → SockAddr → ℕ → SystemCall
  listens : ℕ → ℕ → SystemCall
  connects : ℕ → SockAddr → ℕ → SystemCall

-- `sizeof` of `sockaddr_in` and of `sockaddr_in6`.
abbrev pub size_in : ℕ
size_in = 16

abbrev pub size_in6 : ℕ
size_in6 = 28

pub create_nonblocking_tcp : ℕ → SystemCall
create_nonblocking_tcp family = makes family Kind.stream

pub create_nonblocking_udp : ℕ → SystemCall
create_nonblocking_udp family = makes family Kind.datagram

-- `SOMAXCONN` is the system's.
pub listen : ℕ → ℕ → SystemCall
listen somaxconn sock = listens sock somaxconn

-- `stale` is what the stack had where the `sockaddr` is filled.
module _ (inet_pton : ℕ → List ℕ → Option (List ℕ)) (atoi : List ℕ → ℕ) (stale : SockAddr) where
  pub bind : ℕ → InetAddress → SystemCall
  unfolding get_sock_address
  bind sock addr =
      if addr.is_ipv6
      then binds sock (get_sock_address inet_pton atoi addr stale) size_in6
      else binds sock (get_sock_address inet_pton atoi addr stale) size_in

  pub connect : ℕ → InetAddress → SystemCall
  unfolding get_sock_address
  connect sock addr = connects sock (get_sock_address inet_pton atoi addr stale) size_in6

  -- `bind` and `connect` name the same address; the size that `bind` gives is that of the family, and the
  -- size that `connect` gives is that of IPv6.
  bind-connect :
      (sock : ℕ) (addr : InetAddress)
      → (name : SockAddr) × (bind sock addr
          ≡ binds sock name (if name.family == af_inet6 then size_in6 else size_in))
        × (connect sock addr ≡ connects sock name size_in6)
  unfolding bind connect get_sock_address
  bind-connect sock addr = elim (Bool-cases addr.is_ipv6) [
    | inl six ↦ (get_sock_address inet_pton atoi addr stale, rw six refl, refl)
    | inr four ↦ (get_sock_address inet_pton atoi addr stale, rw four refl, refl)
  ]
