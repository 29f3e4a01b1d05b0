-- ===== src/Dns/Rounds.antt =====
-- What a client gets, and what a round of the worker changes (network/DndService.cpp).
use turbo_multimedia_server.Common.{
  size_of_int, ℕ, zero, suc, ◌%◌, ◌≡◌, refl, sym, ap, ◌∙◌, ◌<◌, inl, inr, ◌⊎◌, Bool, true, false,
  ◌||◌, List, [], ◌∷◌, Option, none, some, get_elem?, length, ltb, lt→ltb, if◌then◌else◌, ok, arith,
  Bool-cases, Option-cases, find_text, find_text-assign_text, same_text, same_text→eq,
}
use mathlib.Core.Option
use turbo_multimedia_server.Address.{InetAddress}
use turbo_multimedia_server.Dns.{
  Host, HostInfos, at, DnsService, get_host_address, update_host_address, Resolver, attempts,
  resolve, resolve_all, worker_round, get_host_infos,
}

at_lem :
    (addrs : List InetAddress) (i : ℕ)
    → i < length addrs
    → (a : InetAddress) × (get_elem? addrs i ≡ some a) × (at i addrs ≡ ok (some a))
at_lem [] i h = elim h [ ]
at_lem (a ∷ addrs) zero h = (a, refl, refl)
at_lem (a ∷ addrs) (suc i) h = at_lem addrs i (omega arith)

-- Asking for an address of a host: none if the host is not known or has none, and else one of its
-- addresses, whatever the index, a negative one included: the vector is never read out of bounds.
pub get_host_address_lem :
    (host : Host) (index : ℕ) (s : DnsService)
    → ((get_host_address host index s ≡ ok none)
        × ((find_text host s.host_infos ≡ none) ⊎ (find_text host s.host_infos ≡ some [])))
      ⊎ ((addrs : List InetAddress) × (a : InetAddress) × (find_text host s.host_infos ≡ some addrs)
          × (get_elem? addrs (size_of_int index % length addrs) ≡ some a)
          × (get_host_address host index s ≡ ok (some a)))
unfolding get_host_address
get_host_address_lem host index s = elim (Option-cases (find_text host s.host_infos)) [
  | inl unknown ↦ inl (rw (get_host_address, unknown) refl, inl unknown)
  | inr (addrs, known) ↦ with_addrs addrs known
]
  where
    with_addrs :
        (addrs : List InetAddress)
        → find_text host s.host_infos ≡ some addrs
        → ((get_host_address host index s ≡ ok none)
            × ((find_text host s.host_infos ≡ none) ⊎ (find_text host s.host_infos ≡ some [])))
          ⊎ ((addrs : List InetAddress) × (a : InetAddress) × (find_text host s.host_infos
                ≡ some addrs)
              × (get_elem? addrs (size_of_int index % length addrs) ≡ some a)
              × (get_host_address host index s ≡ ok (some a)))
    with_addrs [] known = inl (rw (get_host_address, known) refl, inr known)
    with_addrs (b ∷ bs) known =
        let (a, there, got) = at_lem (b ∷ bs) (size_of_int index % length (b ∷ bs)) (omega arith) in
        inr (
          b ∷ bs,
          a,
          known,
          there,
          rw (get_host_address, known, lt→ltb 0 (length (b ∷ bs)) (omega arith)) got,
        )

-- The first answer with an address, of `n` attempts from `i` on.
abbrev pub first_found : Resolver → Host → ℕ → ℕ → Option (List InetAddress)
first_found r host zero i = none
first_found r host (suc n) i =
    let rest = first_found r host n (suc i) in
    if ltb 0 (length (r host i)) then some (r host i) else rest

-- The addresses of a host behind a round.
abbrev pub renewed : Option (List InetAddress) → List InetAddress → List InetAddress
renewed none old = old
renewed (some found) old = found

abbrev pub renewal : Resolver → DnsService → Host → List InetAddress → List InetAddress
renewal r s host old = renewed (first_found r host (attempts s) 0) old

-- The map has a text as its key.
abbrev pub listed : Host → HostInfos → Bool
listed x [] = false
listed x ((k, v) ∷ infos) = same_text x k || listed x infos

resolve-attempts :
    (r : Resolver) (host : Host) (n i : ℕ) (s : DnsService)
    → attempts (resolve r host n i s) ≡ attempts s
unfolding resolve update_host_address
resolve-attempts r host zero i s = refl
resolve-attempts r host (suc n) i s = elim (Bool-cases (ltb 0 (length (r host i)))) [
  | inl found ↦ rw found refl
  | inr nothing ↦ rw nothing (resolve-attempts r host n (suc i) s)
]

-- Behind the attempts for a host that is known.
resolve_lem :
    (r : Resolver) (host x : Host) (n i : ℕ) (s : DnsService) (old : List InetAddress)
    → find_text x s.host_infos ≡ some old
    → find_text x (resolve r host n i s).host_infos
      ≡ some (if same_text x host then renewed (first_found r host n i) old else old)
unfolding resolve update_host_address
resolve_lem r host x zero i s old known = elim (Bool-cases (same_text x host)) [
  | inl b ↦ rw b known
  | inr b ↦ rw b known
]
resolve_lem r host x (suc n) i s old known = elim (Bool-cases (ltb 0 (length (r host i)))) [
  | inl found ↦ rw found (
      find_text-assign_text x host (r host i) s.host_infos
      ∙ elim (Bool-cases (same_text x host)) [ inl b ↦ rw b refl | inr b ↦ rw b known ])
  | inr nothing ↦ rw nothing (resolve_lem r host x n (suc i) s old known)
]

resolve_unknown :
    (r : Resolver) (host x : Host) (n i : ℕ) (s : DnsService)
    → same_text x host ≡ false
    → find_text x s.host_infos ≡ none
    → find_text x (resolve r host n i s).host_infos ≡ none
unfolding resolve update_host_address
resolve_unknown r host x zero i s other unknown = unknown
resolve_unknown r host x (suc n) i s other unknown = elim (Bool-cases (ltb 0 (length (r host i)))) [
  | inl found ↦ rw found (find_text-assign_text x host (r host i) s.host_infos ∙ rw other unknown)
  | inr nothing ↦ rw nothing (resolve_unknown r host x n (suc i) s other unknown)
]

renewed_twice :
    (found : Option (List InetAddress)) (old : List InetAddress)
    → renewed found (renewed found old) ≡ renewed found old
renewed_twice none old = refl
renewed_twice (some found) old = refl

resolve_all_lem :
    (r : Resolver) (infos : HostInfos) (x : Host) (s : DnsService) (old : List InetAddress)
    → find_text x s.host_infos ≡ some old
    → find_text x (resolve_all r infos s).host_infos
      ≡ some (if listed x infos then renewal r s x old else old)
unfolding resolve_all
resolve_all_lem r [] x s old known = known
resolve_all_lem r ((host, before) ∷ infos) x s old known =
    let s₁ = resolve r host (attempts s) 0 s in
    let first = resolve_lem r host x (attempts s) 0 s old known in
    let n = resolve-attempts r host (attempts s) 0 s in
    elim (Bool-cases (same_text x host)) [
      | inr other ↦
          let rest = resolve_all_lem r infos x s₁ old (first ∙ rw other refl) in
          rest ∙ rw (other, n) refl
      | inl here ↦
          let rest =
            resolve_all_lem r infos x s₁ (renewal r s x old)
              (first ∙ rw (here, same_text→eq x host here) refl) in
          rest ∙ elim (Bool-cases (listed x infos)) [
            | inl again ↦
                rw (here, again, n) (ap some (renewed_twice (first_found r x (attempts s) 0) old))
            | inr once ↦ rw (here, once) refl
          ]
    ]

resolve_all_unknown :
    (r : Resolver) (infos : HostInfos) (x : Host) (s : DnsService)
    → listed x infos ≡ false
    → find_text x s.host_infos ≡ none
    → find_text x (resolve_all r infos s).host_infos ≡ none
unfolding resolve_all
resolve_all_unknown r [] x s not_listed unknown = unknown
resolve_all_unknown r ((host, before) ∷ infos) x s not_listed unknown =
    elim (Bool-cases (same_text x host)) [
      | inl here ↦ absurd (ground arith)
      | inr other ↦
          resolve_all_unknown r infos x (resolve r host (attempts s) 0 s)
            (ap (λ b. b || listed x infos) (sym other) ∙ not_listed)
            (resolve_unknown r host x (attempts s) 0 s other unknown)
    ]

listed-find_text :
    (x : Host) (infos : HostInfos)
    → ((listed x infos ≡ false) × (find_text x infos ≡ none))
      ⊎ ((listed x infos ≡ true) × (old : List InetAddress) × (find_text x infos ≡ some old))
listed-find_text x [] = inl (refl, refl)
listed-find_text x ((k, v) ∷ infos) = elim (Bool-cases (same_text x k)) [
  | inl here ↦ inr (rw here refl, v, rw here refl)
  | inr other ↦ elim (listed-find_text x infos) [
    | inl (absent, unknown) ↦ inl (rw (other, absent) refl, rw (other, unknown) refl)
    | inr (there, old, known) ↦ inr (rw (other, there) refl, old, rw (other, known) refl)
  ]
]

-- A round of the worker, for every host: one that is known gets the first answer with an address of as
-- many attempts as there are retries, and keeps its addresses if no attempt gives one; no host becomes
-- known or unknown.
pub worker_round_lem :
    (r : Resolver) (s : DnsService) (x : Host)
    → s.running ≡ true
    → find_text x (worker_round r s).host_infos
      ≡ Option.map (renewal r s x) (find_text x s.host_infos)
unfolding worker_round get_host_infos
worker_round_lem r s x running =
    ap (λ b. find_text x (if b then resolve_all r s.host_infos s else s).host_infos) running
    ∙ elim (listed-find_text x s.host_infos) [
      | inl (absent, unknown) ↦
          resolve_all_unknown r s.host_infos x s absent unknown ∙ rw unknown refl
      | inr (there, old, known) ↦
          resolve_all_lem r s.host_infos x s old known ∙ rw (there, known) refl
    ]
