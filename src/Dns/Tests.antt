-- ===== src/Dns/Tests.antt =====
-- Tests of the model of DnsService: its theorems at two hosts.
use turbo_multimedia_server.Common.{◌≡◌, find_text, refl, true, [], ◌∷◌, ◌==◌, if◌then◌else◌}
use turbo_multimedia_server.Address.Sockets.{no_address}
use turbo_multimedia_server.Dns.{
  Host, DnsService, add_host, update_host_address, Resolver, worker_round,
}
use turbo_multimedia_server.Dns.Steps.{
  System, Steps, done, later, adds, updates, added, emptied, Keeps, AllKnown, steps-Keeps,
}
use turbo_multimedia_server.Dns.Rounds.{renewal, worker_round_lem}
use mathlib.Core.Option

abbrev near : Host
near = b'a' ∷ []

abbrev far : Host
far = b'b' ∷ []

abbrev service : DnsService
service = record {
  host_infos = (near, no_address ∷ []) ∷ (far, []) ∷ [];
  interval = 5000;
  sleep = 1000;
  retry = 3;
  running = true;
}

-- The second attempt gives an address.
abbrev resolver : Resolver
resolver host attempt = if attempt == 1 then no_address ∷ no_address ∷ [] else []

abbrev at_rest : System
at_rest = record { service = service; todo = []; attempt = 0 }

abbrev grown : System
grown = record at_rest { service = (update_host_address far [] (add_host (b'c' ∷ []) service)).1 }

abbrev run : Steps at_rest grown
run = later (later done (adds (b'c' ∷ []))) (updates far [])

steps-Keeps_example : Keeps (added run) (emptied run) at_rest grown × AllKnown [] grown
steps-Keeps_example = steps-Keeps at_rest grown run tt

worker_round_lem_example :
    find_text far (worker_round resolver service).host_infos
    ≡ Option.map (renewal resolver service far) (find_text far service.host_infos)
worker_round_lem_example = worker_round_lem resolver service far refl
