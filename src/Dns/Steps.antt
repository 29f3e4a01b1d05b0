-- ===== src/Dns/Steps.antt =====
-- The worker of network/DndService.cpp between the operations of its clients: each step is what one
-- thread does under the lock. A client adds hosts, updates addresses, sets the parameters, starts and
-- stops.
use turbo_multimedia_server.Common.{
  ℕ, suc, ◌≡◌, refl, sym, ap, ◌∙◌, ◌≤◌, ◌<◌, inl, inr, ◌⊎◌, ◌≢◌, same_text_refl, Bool, true, false,
  ◌||◌, List, [], ◌∷◌, ◌++◌, none, some, length, if◌then◌else◌, arith, Bool-cases, Option-cases,
  find_text, assign_text, find_text-assign_text, same_text, same_text→eq, subst,
}
use turbo_multimedia_server.Address.{InetAddress}
use turbo_multimedia_server.Dns.{
  Host, HostInfos, DnsService, add_host, start, stop, set_dns_service_params, update_host_address,
  attempts,
}

-- `todo` are the hosts that are left in the worker's round, the first being looked up, and `attempt` how
-- often it was.
pub record System : Type 0 where
  pub service : DnsService
  pub todo : List Host
  pub attempt : ℕ

abbrev pub hosts : HostInfos → List Host
hosts [] = []
hosts ((host, addrs) ∷ infos) = host ∷ hosts infos

pub data Step (s : System) : System → Type 0 where
  adds : (host : Host) → Step s (record s { service = add_host host s.service })
  updates :
      (host : Host) (addrs : List InetAddress)
      → Step s (record s { service = (update_host_address host addrs s.service).1 })
  sets :
      (interval sleep retry : ℕ)
      → Step s (record s { service = set_dns_service_params interval sleep retry s.service })
  starts : Step s (record s { service = (start s.service).1 })
  stops : Step s (record s { service = (stop s.service).1 })
  copies :
      s.service.running ≡ true
      → s.todo ≡ []
      → Step s (record s { todo = hosts s.service.host_infos; attempt = 0 })
  finds :
      (host : Host) (others : List Host) (addrs : List InetAddress)
      → s.todo ≡ host ∷ others
      → s.attempt < attempts s.service
      → 0 < length addrs
      → Step s (record {
        service = (update_host_address host addrs s.service).1;
        todo = others;
        attempt = 0;
      })
  misses :
      (host : Host) (others : List Host)
      → s.todo ≡ host ∷ others
      → s.attempt < attempts s.service
      → Step s (record s { attempt = suc s.attempt })
  gives_up :
      (host : Host) (others : List Host)
      → s.todo ≡ host ∷ others
      → attempts s.service ≤ s.attempt
      → Step s (record s { todo = others; attempt = 0 })

pub data Steps (s : System) : System → Type 0 where
  done : Steps s s
  later : {t u : System} → Steps s t → Step t u → Steps s u

-- The hosts that the clients add or update.
abbrev pub added_by : {s t : System} → Step s t → List Host
added_by (adds host) = host ∷ []
added_by (updates host addrs) = host ∷ []
added_by _ = []

-- The hosts whose addresses a client takes away.
abbrev emptied_of : Host → List InetAddress → List Host
emptied_of host [] = host ∷ []
emptied_of host (a ∷ addrs) = []

abbrev pub emptied_by : {s t : System} → Step s t → List Host
emptied_by (updates host addrs) = emptied_of host addrs
emptied_by _ = []

abbrev pub added : {s t : System} → Steps s t → List Host
added done = []
added (later before step) = added_by step ++ added before

abbrev pub emptied : {s t : System} → Steps s t → List Host
emptied done = []
emptied (later before step) = emptied_by step ++ emptied before

abbrev pub among : Host → List Host → Bool
among x [] = false
among x (host ∷ others) = same_text x host || among x others

abbrev pub infos : System → HostInfos
infos s = s.service.host_infos

abbrev pub Known : Host → System → Type 0
Known x s = (addrs : List InetAddress) × (find_text x (infos s) ≡ some addrs)

-- What the worker has to do is known.
abbrev pub AllKnown : List Host → System → Type 0
AllKnown [] s = Unit {0}
AllKnown (host ∷ others) s = Known host s × AllKnown others s

-- From `s` to `t`: a host stays known and, once it has addresses, has some, unless it is one of `bare`; a
-- host that is known was known before or is one of `new`.
pub record Keeps (new bare : List Host) (s t : System) : Type 0 where
  pub kept :
      (x : Host) (old : List InetAddress)
      → find_text x (infos s) ≡ some old
      → (addrs : List InetAddress) × (find_text x (infos t) ≡ some addrs)
        × (among x bare ≡ false → 0 < length old → 0 < length addrs)
  pub only : (x : Host) → Known x t → Known x s ⊎ (among x new ≡ true)

Keeps-same : (new bare : List Host) (s t : System) → infos t ≡ infos s → Keeps new bare s t
Keeps-same new bare s t e = record {
  kept = λ x old known. (old, ap (find_text x) e ∙ known, λ b h. h);
  only = λ x (addrs, known). inl (addrs, ap (find_text x) (sym e) ∙ known);
}

module _ (host : Host) (value : List InetAddress) (new bare : List Host) (s t : System)
    (assigned : infos t ≡ assign_text host value (infos s))
    (some_left : (old : List InetAddress)
      → find_text host (infos s) ≡ some old
      → among host bare ≡ false
      → 0 < length old
      → 0 < length value)
    (accounted : Known host s ⊎ (among host new ≡ true)) where
  found :
      (x : Host)
      → find_text x (infos t) ≡ (if same_text x host then some value else find_text x (infos s))
  found x = ap (find_text x) assigned ∙ find_text-assign_text x host value (infos s)

  assign-Keeps : Keeps new bare s t
  assign-Keeps = record {
    kept = λ x old known. elim (Bool-cases (same_text x host)) [
      | inl here ↦ (
        value,
        found x ∙ rw here refl,
        λ kept.
            some_left old (ap (λ y. find_text y (infos s)) (sym (same_text→eq x host here)) ∙ known)
              (ap (λ y. among y bare) (sym (same_text→eq x host here)) ∙ kept),
      )
      | inr other ↦ (old, found x ∙ rw other known, λ b l. l)
    ];
    only = λ x (addrs, known). elim (Bool-cases (same_text x host)) [
      | inl here ↦
          subst (λ y. Known y s ⊎ (among y new ≡ true)) (sym (same_text→eq x host here)) accounted
      | inr other ↦ inl (
        addrs,
        ap (λ b. if b then some value else find_text x (infos s)) (sym other)
            ∙ sym (found x)
            ∙ known,
      )
    ];
  }

none-some : {a : List InetAddress} → none ≢ some a
none-some e = cc

adds-Keeps :
    (host : Host) (s : System)
    → Keeps (host ∷ []) [] s (record s { service = add_host host s.service })
unfolding add_host
adds-Keeps host s = elim (Option-cases (find_text host (infos s))) [
  | inr (addrs, known) ↦ Keeps-same (host ∷ []) [] s _ (rw (add_host, known) refl)
  | inl unknown ↦
      assign-Keeps host [] (host ∷ []) [] s _ (rw (add_host, unknown) refl)
        (λ old known. absurd (none-some (sym unknown ∙ known)))
        (inr (rw (same_text_refl host) refl))
]

updates-Keeps :
    (host : Host) (addrs : List InetAddress) (s : System)
    → Keeps
        (host ∷ [])
        (emptied_of host addrs)
        s
        (record s { service = (update_host_address host addrs s.service).1 })
unfolding update_host_address
updates-Keeps host [] s =
    assign-Keeps host [] (host ∷ []) (host ∷ []) s _ refl
      (λ old known bare some_left. absurd (listed_bare (rw (same_text_refl host) refl) bare))
      (inr (rw (same_text_refl host) refl))
  where
    listed_bare : {b : Bool} → b ≡ true → b ≡ false → ⊥
    listed_bare h k = cc
updates-Keeps host (a ∷ addrs) s =
    assign-Keeps host (a ∷ addrs) (host ∷ []) [] s _ refl (λ old known kept some_left. omega arith)
      (inr (rw (same_text_refl host) refl))

AllKnown-kept :
    (todo : List Host) (new bare : List Host) (s t : System)
    → Keeps new bare s t
    → AllKnown todo s
    → AllKnown todo t
AllKnown-kept [] new bare s t k a = tt
AllKnown-kept (host ∷ others) new bare s t k a =
    let (addrs, known, _) = k.kept host a.0.0 a.0.1 in
    ((addrs, known), AllKnown-kept others new bare s t k a.1)

hosts-AllKnown :
    (some_infos : HostInfos) (s : System)
    → ((x : Host) → (addrs : List InetAddress) × (find_text x some_infos ≡ some addrs) → Known x s)
    → AllKnown (hosts some_infos) s
hosts-AllKnown [] s f = tt
hosts-AllKnown ((host, v) ∷ rest) s f = (
  f host (v, rw (same_text_refl host) refl),
  hosts-AllKnown rest s (λ x (addrs, e). elim (Bool-cases (same_text x host)) [
    | inl here ↦ f x (v, rw here refl)
    | inr other ↦ f x (addrs, rw other e)
  ]),
)

among-append : (x : Host) (xs ys : List Host) → among x (xs ++ ys) ≡ (among x xs || among x ys)
among-append x [] ys = refl
among-append x (y ∷ xs) ys = rw (among-append x xs ys) (ground arith)

same : (s t : System) → infos t ≡ infos s → AllKnown s.todo s → Keeps [] [] s t × AllKnown s.todo t
same s t e a = let k = Keeps-same [] [] s t e in (k, AllKnown-kept s.todo [] [] s t k a)

-- A step keeps the hosts, and what the worker has to do stays known.
abbrev Holds : {s t : System} → Step s t → Type 0
Holds {s} {t} step = Keeps (added_by step) (emptied_by step) s t × AllKnown t.todo t

step-Holds : (s t : System) (step : Step s t) → AllKnown s.todo s → Holds step
unfolding start stop set_dns_service_params update_host_address
step-Holds s t (adds host) a =
    let k = adds-Keeps host s in (k, AllKnown-kept s.todo (host ∷ []) [] s _ k a)
step-Holds s t (updates host addrs) a =
    let k = updates-Keeps host addrs s in
    (k, AllKnown-kept s.todo (host ∷ []) (emptied_of host addrs) s _ k a)
step-Holds s t (sets interval sleep retry) a = same s t refl a
step-Holds s t starts a = same s _ (starting (Bool-cases s.service.running)) a
  where
    starting :
        (s.service.running ≡ true) ⊎ (s.service.running ≡ false)
        → (start s.service).1.host_infos ≡ infos s
    starting (inl b) = rw (start, b) refl
    starting (inr b) = rw (start, b) refl
step-Holds s t stops a = same s _ (stopping (Bool-cases s.service.running)) a
  where
    stopping :
        (s.service.running ≡ true) ⊎ (s.service.running ≡ false)
        → (stop s.service).1.host_infos ≡ infos s
    stopping (inl b) = rw (stop, b) refl
    stopping (inr b) = rw (stop, b) refl
step-Holds s t (copies running idle) a =
    (Keeps-same [] [] s _ refl, hosts-AllKnown (infos s) _ (λ x known. known))
step-Holds s t (finds host others addrs first some_left holds_some) a =
    let (known, rest) = subst (λ todo. AllKnown todo s) first a in
    let k =
      assign-Keeps host addrs [] [] s
        (record {
          service = (update_host_address host addrs s.service).1;
          todo = others;
          attempt = 0;
        })
        refl (λ old e b l. holds_some) (inl known) in
    (k, AllKnown-kept others [] [] s _ k rest)
step-Holds s t (misses host others first some_left) a = same s _ refl a
step-Holds s t (gives_up host others first none_left) a =
    let k = Keeps-same [] [] s (record { service = s.service; todo = others; attempt = 0 }) refl in
    (k, AllKnown-kept others [] [] s _ k (subst (λ todo. AllKnown todo s) first a).1)

neither : (a b : Bool) → (a || b) ≡ false → (a ≡ false) × (b ≡ false)
neither a b h = ground arith

Keeps-trans :
    (new new' bare bare' : List Host) (s t u : System)
    → Keeps new bare s t
    → Keeps new' bare' t u
    → Keeps (new' ++ new) (bare' ++ bare) s u
Keeps-trans new new' bare bare' s t u k k' = record {
  kept = λ x old known.
      let (addrs, known', l) = k.kept x old known in
      let (addrs', known'', l') = k'.kept x addrs known' in
      (
        addrs',
        known'',
        λ b h.
            let (b', b₀) =
              neither (among x bare') (among x bare) (sym (among-append x bare' bare) ∙ b) in
            l' b' (l b₀ h),
      );
  only = λ x known. elim (k'.only x known) [
    | inr b ↦ inr (among-append x new' new ∙ rw b refl)
    | inl before ↦ elim (k.only x before) [
      | inl old ↦ inl old
      | inr b ↦ inr (among-append x new' new ∙ rw b (ground arith))
    ]
  ];
}

-- Whatever the worker and its clients do, one step after another: a host that is known stays known; one
-- that has addresses has some ever after, unless a client takes them away by an update with none; and the
-- worker makes no host known, as all that are known were known before or were added or updated by a
-- client. What the worker still has to look up is known throughout, if it was at first.
pub steps-Keeps :
    (s t : System) (run : Steps s t)
    → AllKnown s.todo s
    → Keeps (added run) (emptied run) s t × AllKnown t.todo t
steps-Keeps s t done a = (Keeps-same [] [] s s refl, a)
steps-Keeps s t (later {t = u} before step) a =
    let (k, known) = steps-Keeps s u before a in
    let (k', known') = step-Holds u t step known in
    (
      Keeps-trans (added before) (added_by step) (emptied before) (emptied_by step) s u t k k',
      known',
    )
