-- ===== src/Address/Hosts.antt =====
-- The texts and the ranges of addresses (network/net/InetAddress.cpp).
use turbo_multimedia_server.Common.{
  ℕ, suc, ◌≡◌, refl, ap, inl, inr, ◌⊎◌, Bool, true, false, not, ◌&&◌, ◌||◌, List, [], ◌∷◌, ◌++◌,
  Option, none, some, take, drop, ◌==◌, ==_iff, arith, subst, Bool-cases, Option-cases,
}
use turbo_multimedia_server.Address.{
  InetAddress, find_first, of_host, to_ip_port, is_between, is_lan_ip, is_wan_ip, loopback, a_start,
  a_end, b_start, b_end, c_start, c_end,
}

-- A place where the byte `x` parts a text.
abbrev pub PartedAt : ℕ → List ℕ → Option ℕ → Type 0
PartedAt x str none = Unit {0}
PartedAt x str (some i) = take i str ++ (x ∷ drop (suc i) str) ≡ str

find_first-PartedAt : (x : ℕ) (str : List ℕ) → PartedAt x str (find_first x str)
unfolding find_first
find_first-PartedAt x [] = tt
find_first-PartedAt x (c ∷ cs) =
    let behind = find_first-PartedAt x cs in
    elim (Bool-cases (c == x)) [
      | inl here ↦ rw (find_first, here) (ap (λ y. y ∷ cs) ((==_iff x c).0 (ground arith)))
      | inr other ↦ elim (Option-cases (find_first x cs)) [
        | inl never ↦ rw (find_first, other, never) tt
        | inr (i, there) ↦
            rw (find_first, other, there) (ap (λ t. c ∷ t) (subst (PartedAt x cs) there behind))
      ]
    ]

-- A host with a port behind a ':' is printed as it was read; one without gets a ':' behind it.
pub to_ip_port-of_host :
    (host : List ℕ) (is_ipv6 : Bool)
    → (to_ip_port (of_host host is_ipv6) ≡ host)
      ⊎ ((find_first b':' host ≡ none) × (to_ip_port (of_host host is_ipv6) ≡ host ++ (b':' ∷ [])))
unfolding to_ip_port of_host
to_ip_port-of_host host is_ipv6 = elim (Option-cases (find_first b':' host)) [
  | inl never ↦ inr (never, rw (of_host, never))
  | inr (i, there) ↦
      inl (rw (of_host, there) (subst (PartedAt b':' host) there (find_first-PartedAt b':' host)))
]

-- An address is of the wide area exactly if it is not of the local ranges and not the loopback address.
pub is_wan_ip-is_lan_ip :
    (ipv4 : List ℕ → ℕ) (a : InetAddress)
    → is_wan_ip ipv4 a ≡ (not (is_lan_ip ipv4 a) && not (ipv4 a.ip == loopback))
unfolding is_wan_ip is_lan_ip
is_wan_ip-is_lan_ip ipv4 a =
    parts (is_between ipv4 a_start a_end (ipv4 a.ip)) (is_between ipv4 b_start b_end (ipv4 a.ip))
      (is_between ipv4 c_start c_end (ipv4 a.ip)) (not (ipv4 a.ip == loopback))
  where
    parts : (p q r s : Bool) → (not p && (not q && (not r && s))) ≡ (not (p || (q || r)) && s)
    parts true q r s = refl
    parts false true r s = refl
    parts false false true s = refl
    parts false false false s = refl
