-- ===== src/Dns.antt =====
-- network/DnsService.h and DndService.cpp: the addresses of hosts, which a thread looks up again and
-- again.
--
-- What `getaddrinfo` gives is an argument. An operation under the lock is one step; `Steps` has the
-- worker's steps and those of its clients, in any order. The thread and its pauses are not modelled.
pub mod Steps
pub mod Rounds
mod Tests
use turbo_multimedia_server.Common.{
  ℕ, zero, suc, ◌+◌, ◌-◌, ◌%◌, ◌^◌, Bool, true, false, List, [], ◌∷◌, ◌++◌, map, Option, none, some,
  get_elem?, length, ltb, ◌==◌, if◌then◌else◌, Result, ok, fail, out_of_range, size_of_int,
  find_text, assign_text,
}
use turbo_multimedia_server.Address.{InetAddress}
use turbo_multimedia_server.Address.Sockets.{SockAddr, host_address}

abbrev pub Host : Type 0
Host = List ℕ

abbrev pub HostInfos : Type 0
HostInfos = List (Host × List InetAddress)

-- An `int` is its bit pattern.
pub record DnsService : Type 0 where
  pub host_infos : HostInfos
  pub interval : ℕ
  pub sleep : ℕ
  pub retry : ℕ
  pub running : Bool

-- The constructor, with the defaults of the fields.
pub init : DnsService
init = record { host_infos = []; interval = 5000; sleep = 1000; retry = 3; running = false }

pub add_host : Host → DnsService → DnsService
add_host host s = elim (find_text host s.host_infos) [
  | some addrs ↦ s
  | none ↦ record s { host_infos = assign_text host [] s.host_infos }
]

-- `operator[]` of a vector.
abbrev pub at : ℕ → List InetAddress → Result (Option InetAddress)
at i addrs = elim (get_elem? addrs i) [ none ↦ fail out_of_range | some a ↦ ok (some a) ]

pub get_host_address : Host → ℕ → DnsService → Result (Option InetAddress)
get_host_address host index s = elim (find_text host s.host_infos) [
  | none ↦ ok none
  | some addrs ↦
      if ltb 0 (length addrs) then at (size_of_int index % length addrs) addrs else ok none
]

pub get_host_addresses : Host → DnsService → List InetAddress
get_host_addresses host s = elim (find_text host s.host_infos) [ none ↦ [] | some addrs ↦ addrs ]

-- The caller's vector gets the addresses that were there.
pub update_host_address : Host → List InetAddress → DnsService → List InetAddress × DnsService
unfolding get_host_addresses
update_host_address host addrs s =
    (get_host_addresses host s, record s { host_infos = assign_text host addrs s.host_infos })

pub get_host_infos : DnsService → HostInfos
get_host_infos s = s.host_infos

pub set_dns_service_params : ℕ → ℕ → ℕ → DnsService → DnsService
set_dns_service_params interval sleep retry s = record s {
  interval = interval;
  sleep = sleep;
  retry = retry;
}

-- Whether a thread is made, and whether it is waited for.
pub start : DnsService → Bool × DnsService
start s = if s.running then (false, s) else (true, record s { running = true })

pub stop : DnsService → Bool × DnsService
stop s = if s.running then (true, record s { running = false }) else (false, s)

-- `getHostInfo`, with the list that `getaddrinfo` gives; none is an error or a null list.
pub get_host_info : (ℕ → List ℕ → List ℕ) → (ℕ → List ℕ) → Option (List SockAddr) → List InetAddress
get_host_info inet_ntop to_string result = elim result [
  | none ↦ []
  | some found ↦ map (host_address inet_ntop to_string) found
]

-- How often the loop on `retry_` runs, at most: never if it is negative.
abbrev pub attempts : DnsService → ℕ
attempts s = if ltb s.retry (2 ^ 31) then s.retry else 0

-- What the worker gets for a host in its attempts, one after another.
abbrev pub Resolver : Type 0
Resolver = Host → ℕ → List InetAddress

-- The inner loop of `onWorker`: `n` attempts are left, and `i` were made.
pub resolve : Resolver → Host → ℕ → ℕ → DnsService → DnsService
unfolding update_host_address
resolve r host zero i s = s
resolve r host (suc n) i s =
    let again = resolve r host n (suc i) s in
    if ltb 0 (length (r host i)) then (update_host_address host (r host i) s).1 else again

-- The outer loop, over the copy of the map that was made before; the number of attempts is read anew
-- for each host.
pub resolve_all : Resolver → HostInfos → DnsService → DnsService
unfolding resolve
resolve_all r [] s = s
resolve_all r ((host, old) ∷ infos) s = resolve_all r infos (resolve r host (attempts s) 0 s)

-- One round of `onWorker`.
pub worker_round : Resolver → DnsService → DnsService
unfolding resolve_all get_host_infos
worker_round r s = if s.running then resolve_all r (get_host_infos s) s else s
