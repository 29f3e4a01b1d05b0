-- ===== src/Address/Sockets/Names.antt =====
-- The name of a peer and the `sockaddr` it was read from (network/net/SocketOpt.cpp and
-- InetAddress.cpp).
use turbo_multimedia_server.Common.{
  ℕ, ◌≡◌, refl, ap, ◌<◌, ◌^◌, inl, inr, ◌⊎◌, List, [], ◌∷◌, Option, some, length, arith, subst, sym,
}
use turbo_multimedia_server.Address.{set_ip, set_port, set_is_ipv6, to_ip_port}
use turbo_multimedia_server.Address.Sockets.{
  SockAddr, af_inet, af_inet6, no_address, accept, accepted, get_peer_addr, get_local_addr, sender,
  host_address, write_name, dump_sock_addr, get_sock_address,
}

-- A property of every member of a list.
abbrev pub All {ℓ} : {A : Type ℓ} → (A → Type 0) → List A → Type 0
All P [] = Unit {0}
All P (x ∷ xs) = P x × All P xs

-- The bytes of an address of a family.
pub record IsBytes (size : ℕ) (bytes : List ℕ) : Type 0 where
  pub size_fits : length bytes ≡ size
  pub small : All (λ b. b < 2 ^ 8) bytes

-- A `sockaddr` of one of the two families.
pub record IsInternet (s : SockAddr) : Type 0 where
  pub family :
      ((s.family ≡ af_inet) × IsBytes 4 s.address) ⊎ ((s.family ≡ af_inet6) × IsBytes 16 s.address)
  pub port : s.port < 2 ^ 16

-- A property of the `sockaddr` of both families, by their family alone.
by_family :
    (Holds : SockAddr → Type 0) (s : SockAddr)
    → IsInternet s
    → (IsBytes 4 s.address → Holds (record s { family = af_inet }))
    → (IsBytes 16 s.address → Holds (record s { family = af_inet6 }))
    → Holds s
by_family Holds s i four six = elim i.family [
  | inl (is_four, bytes) ↦ subst (λ f. Holds (record s { family = f })) (sym is_four) (four bytes)
  | inr (is_six, bytes) ↦ subst (λ f. Holds (record s { family = f })) (sym is_six) (six bytes)
]

module _ (inet_ntop : ℕ → List ℕ → List ℕ) (to_string : ℕ → List ℕ) where
  -- A `sockaddr` of either family is dumped as the address is printed that a datagram's sender gets.
  pub dump_sock_addr-sender :
      (s : SockAddr)
      → IsInternet s
      → dump_sock_addr inet_ntop to_string s ≡ to_ip_port (sender inet_ntop to_string s)
  unfolding dump_sock_addr to_ip_port sender set_ip set_port set_is_ipv6
  dump_sock_addr-sender s i =
      by_family
        (λ x. dump_sock_addr inet_ntop to_string x ≡ to_ip_port (sender inet_ntop to_string x)) s i
        (λ bytes. refl) (λ bytes. refl)

  module _ (inet_pton : ℕ → List ℕ → Option (List ℕ)) (atoi : List ℕ → ℕ) where
    -- The address of an accepted peer of IPv6, of either end of a connection of IPv6 or of a host of IPv6
    -- that was looked up is kept as one of IPv4, and the `sockaddr` that is made of it has that family.
    pub get_sock_address-six :
        (fd : ℕ) (s t : SockAddr)
        → s.family ≡ af_inet6
        → All
            (λ a. (get_sock_address inet_pton atoi a t).family ≡ af_inet)
            (accept inet_ntop to_string (accepted fd s) no_address
              ∷ get_peer_addr inet_ntop to_string s
              ∷ get_local_addr inet_ntop to_string s
              ∷ host_address inet_ntop to_string s
              ∷ [])
    unfolding get_sock_address accept get_peer_addr get_local_addr host_address write_name set_ip
        set_port
    get_sock_address-six fd s t six = rw six (refl, (refl, (refl, (refl, tt))))

  module _ (inet_pton : ℕ → List ℕ → Option (List ℕ)) (atoi : List ℕ → ℕ)
      (pton-ntop_four : (bytes : List ℕ)
        → IsBytes 4 bytes
        → inet_pton af_inet (inet_ntop af_inet bytes) ≡ some bytes)
      (pton-ntop_six : (bytes : List ℕ)
        → IsBytes 16 bytes
        → inet_pton af_inet6 (inet_ntop af_inet6 bytes) ≡ some bytes)
      (atoi-to_string : (n : ℕ) → n < 2 ^ 16 → atoi (to_string n) ≡ n) where
    -- The sender of a datagram, of either family, is turned back into the family, the port and the address
    -- of the `sockaddr` it was read from, if `inet_pton` reads the addresses that `inet_ntop` prints and
    -- `atoi` the ports that `to_string` does. The other bytes, the flow and the scope of IPv6 among them,
    -- stay as they were where the `sockaddr` is written.
    pub get_sock_address-sender :
        (s t : SockAddr)
        → IsInternet s
        → get_sock_address inet_pton atoi (sender inet_ntop to_string s) t
          ≡ record s { rest = t.rest }
    unfolding get_sock_address sender set_ip set_port set_is_ipv6
    get_sock_address-sender s t i =
        by_family
          (λ x.
            get_sock_address inet_pton atoi (sender inet_ntop to_string x) t
            ≡ record x { rest = t.rest })
          s i
          (λ bytes.
            rw (pton-ntop_four s.address bytes, atoi-to_string s.port i.port)
              (ap (λ p. record { family = af_inet; port = p; address = s.address; rest = t.rest })
                {y = s.port} (omega (arith, i.port))))
          (λ bytes.
            rw (pton-ntop_six s.address bytes, atoi-to_string s.port i.port)
              (ap (λ p. record { family = af_inet6; port = p; address = s.address; rest = t.rest })
                {y = s.port} (omega (arith, i.port))))
