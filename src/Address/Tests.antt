-- ===== src/Address/Tests.antt =====
-- Tests of the model of InetAddress: its theorems at short texts.
use turbo_multimedia_server.Common.{◌≡◌, refl, inr, Option, some, arith, ℕ, false, List, [], ◌∷◌}
use turbo_multimedia_server.Address.{InetAddress}
use turbo_multimedia_server.Address.Sockets.{
  SockAddr, af_inet, af_inet6, no_address, accept, accepted, get_peer_addr, get_local_addr, sender,
  host_address, get_sock_address,
}
use turbo_multimedia_server.Address.Sockets.Names.{
  IsInternet, All, get_sock_address-sender, get_sock_address-six,
}

-- "h:80"
abbrev host : List ℕ
host = b'h' ∷ b':' ∷ b'8' ∷ b'0' ∷ []

abbrev site : InetAddress
site = record { ip = b'h' ∷ []; port = []; is_ipv6 = false }

-- Texts and numbers that are printed as they are.
abbrev ntop : ℕ → List ℕ → List ℕ
ntop family bytes = bytes

abbrev pton : ℕ → List ℕ → Option (List ℕ)
pton family text = some text

abbrev print : ℕ → List ℕ
print n = n ∷ []

abbrev read : List ℕ → ℕ
read [] = 0
read (n ∷ rest) = n

-- "::1" of a link, and what the stack had.
abbrev local_six : SockAddr
local_six = record {
  family = af_inet6;
  port = 80;
  address = 0 ∷ 0 ∷ 0 ∷ 0 ∷ 0 ∷ 0 ∷ 0 ∷ 0 ∷ 0 ∷ 0 ∷ 0 ∷ 0 ∷ 0 ∷ 0 ∷ 0 ∷ 1 ∷ [];
  rest = 0 ∷ 0 ∷ 0 ∷ 0 ∷ 2 ∷ 0 ∷ 0 ∷ 0 ∷ [];
}

abbrev stale : SockAddr
stale = record { family = 0; port = 7; address = 9 ∷ []; rest = 8 ∷ [] }

local_six-IsInternet : IsInternet local_six
local_six-IsInternet = record {
  family = inr (refl, record { size_fits = refl; small = ground arith });
  port = omega arith;
}

get_sock_address-sender_example :
    get_sock_address pton read (sender ntop print local_six) stale
    ≡ record local_six { rest = 8 ∷ [] }
get_sock_address-sender_example =
    get_sock_address-sender ntop print pton read (λ b i. refl) (λ b i. refl) (λ n h. refl) local_six
      stale local_six-IsInternet

get_sock_address-six_example :
    All
      (λ a. (get_sock_address pton read a local_six).family ≡ af_inet)
      (accept ntop print (accepted 7 local_six) no_address
        ∷ get_peer_addr ntop print local_six
        ∷ get_local_addr ntop print local_six
        ∷ host_address ntop print local_six
        ∷ [])
get_sock_address-six_example = get_sock_address-six ntop print pton read 7 local_six local_six refl
