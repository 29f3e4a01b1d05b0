-- ===== src/Address.antt =====
-- network/net/InetAddress.h and InetAddress.cpp: an address as the texts of its host and port.
--
-- `std::to_string`, `std::stoi`, which throws where it gives nothing, and `IPV4`, which is `inet_pton`
-- and `ntohl`, are parameters.
pub mod Hosts
pub mod Sockets
mod Tests
use turbo_multimedia_server.Common.{
  ℕ, suc, ◌%◌, ◌^◌, Bool, true, false, not, ◌&&◌, ◌||◌, List, [], ◌∷◌, ◌++◌, Option, none, some,
  take, drop, leb, same_text, ◌==◌, if◌then◌else◌,
}

pub record InetAddress : Type 0 where
  pub ip : List ℕ
  pub port : List ℕ
  pub is_ipv6 : Bool

-- `find` of one byte.
pub find_first : ℕ → List ℕ → Option ℕ
find_first x [] = none
find_first x (c ∷ cs) =
    let rest = find_first x cs in
    if c == x then some 0 else elim rest [ none ↦ none | some i ↦ some (suc i) ]

-- The constructor from a host that may have a port behind a ':'.
pub of_host : List ℕ → Bool → InetAddress
unfolding find_first
of_host host is_ipv6 = elim (find_first b':' host) [
  | none ↦ record { ip = host; port = []; is_ipv6 = is_ipv6 }
  | some pos ↦ record { ip = take pos host; port = drop (suc pos) host; is_ipv6 = is_ipv6 }
]

pub get_ip : InetAddress → List ℕ
get_ip a = a.ip

pub to_ip_port : InetAddress → List ℕ
to_ip_port a = a.ip ++ (b':' ∷ a.port)

pub is_ipv4 : InetAddress → Bool
is_ipv4 a = not a.is_ipv6

pub set_ip : List ℕ → InetAddress → InetAddress
set_ip ip a = record a { ip = ip }

pub set_is_ipv6 : Bool → InetAddress → InetAddress
set_is_ipv6 b a = record a { is_ipv6 = b }

module _ (to_string : ℕ → List ℕ) where
  pub of_ip : List ℕ → ℕ → Bool → InetAddress
  of_ip ip port is_ipv6 = record { ip = ip; port = to_string port; is_ipv6 = is_ipv6 }

  pub set_port : ℕ → InetAddress → InetAddress
  set_port port a = record a { port = to_string port }

module _ (stoi : List ℕ → Option ℕ) where
  -- The `int` of `stoi` is cut to 16 bits.
  pub get_port : InetAddress → Option ℕ
  get_port a = elim a.port [
    | [] ↦ some 0
    | c ∷ cs ↦ elim (stoi a.port) [ none ↦ none | some n ↦ some (n % 2 ^ 16) ]
  ]

-- "127.0.0.1" and "::1".
abbrev pub loopback_four : List ℕ
loopback_four = b'1' ∷ b'2' ∷ b'7' ∷ b'.' ∷ b'0' ∷ b'.' ∷ b'0' ∷ b'.' ∷ b'1' ∷ []

abbrev pub loopback_six : List ℕ
loopback_six = b':' ∷ b':' ∷ b'1' ∷ []

pub is_loopback_ip : InetAddress → Bool
is_loopback_ip a = same_text a.ip loopback_four || same_text a.ip loopback_six

-- "10.0.0.0"
abbrev pub a_start : List ℕ
a_start = b'1' ∷ b'0' ∷ b'.' ∷ b'0' ∷ b'.' ∷ b'0' ∷ b'.' ∷ b'0' ∷ []

-- "10.255.255.255"
abbrev pub a_end : List ℕ
a_end =
    b'1' ∷ b'0' ∷ b'.' ∷ b'2' ∷ b'5' ∷ b'5' ∷ b'.' ∷ b'2' ∷ b'5' ∷ b'5' ∷ b'.' ∷ b'2' ∷ b'5' ∷ b'5'
    ∷ []

-- "172.16.0.0"
abbrev pub b_start : List ℕ
b_start = b'1' ∷ b'7' ∷ b'2' ∷ b'.' ∷ b'1' ∷ b'6' ∷ b'.' ∷ b'0' ∷ b'.' ∷ b'0' ∷ []

-- "172.31.255.255"
abbrev pub b_end : List ℕ
b_end =
    b'1' ∷ b'7' ∷ b'2' ∷ b'.' ∷ b'3' ∷ b'1' ∷ b'.' ∷ b'2' ∷ b'5' ∷ b'5' ∷ b'.' ∷ b'2' ∷ b'5' ∷ b'5'
    ∷ []

-- "192.168.0.0"
abbrev pub c_start : List ℕ
c_start = b'1' ∷ b'9' ∷ b'2' ∷ b'.' ∷ b'1' ∷ b'6' ∷ b'8' ∷ b'.' ∷ b'0' ∷ b'.' ∷ b'0' ∷ []

-- "192.168.255.255"
abbrev pub c_end : List ℕ
c_end =
    b'1' ∷ b'9' ∷ b'2' ∷ b'.' ∷ b'1' ∷ b'6' ∷ b'8' ∷ b'.' ∷ b'2' ∷ b'5' ∷ b'5' ∷ b'.' ∷ b'2' ∷ b'5'
    ∷ b'5' ∷ []

-- `INADDR_LOOPBACK`.
abbrev pub loopback : ℕ
loopback = 0x7F000001

module _ (ipv4 : List ℕ → ℕ) where
  pub is_between : List ℕ → List ℕ → ℕ → Bool
  is_between first last ip = leb (ipv4 first) ip && leb ip (ipv4 last)

  pub is_lan_ip : InetAddress → Bool
  unfolding is_between
  is_lan_ip a =
      let ip = ipv4 a.ip in
      is_between a_start a_end ip || (is_between b_start b_end ip || is_between c_start c_end ip)

  pub is_wan_ip : InetAddress → Bool
  unfolding is_between
  is_wan_ip a =
      let ip = ipv4 a.ip in
      not (is_between a_start a_end ip)
      && (not (is_between b_start b_end ip)
          && (not (is_between c_start c_end ip) && not (ip == loopback)))
