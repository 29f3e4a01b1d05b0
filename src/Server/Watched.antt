-- ===== src/Server/Watched.antt =====
-- What the loop of a server watches (network/TcpServer.cpp and network/net/Acceptor.cpp).
use turbo_multimedia_server.Common.{
  ℕ, ◌≡◌, refl, sym, ap, ◌∙◌, inl, inr, ◌⊎◌, Bool, true, false, Option, none, some, ◌==◌,
  Bool-cases, ==_iff, subst,
}
use turbo_multimedia_server.Loop.{lookup}
use turbo_multimedia_server.Loop.Interest.{
  Agrees, lookup-erase, add_event-Agrees, remove_event-Agrees,
}
use turbo_multimedia_server.Loop.Watched.{
  has_fd, has_fd-erase, has_fd-add_event, has_fd-remove_event, add_event-timing_wheel,
  remove_event-timing_wheel,
}
use turbo_multimedia_server.Timing.State.{IsValid}
use turbo_multimedia_server.Tcp.{TcpConnection}
use turbo_multimedia_server.Server.{
  TcpServer, open_acceptor, stop, acceptor_on_close, on_connection_close, release,
}

abbrev pub is_acceptor : ℕ → TcpServer → Bool
is_acceptor x s = elim s.acceptor_fd [ none ↦ false | some fd ↦ x == fd ]

-- The loop watches every connection, and nothing but the connections, the acceptor and what `foreign`
-- has, which is not of this server. The connections are open and none is the acceptor, and epoll waits
-- for what the loop's table says.
pub record IsWatched (foreign : ℕ → Bool) (s : TcpServer) : Type 0 where
  pub epoll : Agrees s.loop
  pub timers : IsValid s.loop.timing_wheel
  pub conns : (x : ℕ) → has_fd x s.connections ≡ true → has_fd x s.loop.events ≡ true
  pub held :
      (x : ℕ)
      → has_fd x s.loop.events ≡ true
      → (foreign x ≡ true) ⊎ ((is_acceptor x s ≡ true) ⊎ (has_fd x s.connections ≡ true))
  pub apart : (x : ℕ) → is_acceptor x s ≡ true → has_fd x s.connections ≡ false
  pub opened : (x : ℕ) (c : TcpConnection) → lookup x s.connections ≡ some c → c.closed ≡ false

pub clash : {b : Bool} → b ≡ true → b ≡ false → ⊥
clash t f = cc

abbrev closed_of : Option TcpConnection → Bool
closed_of none = false
closed_of (some c) = c.closed

pub differs : {c : TcpConnection} → none ≡ some c → ⊥
differs h = cc

-- The acceptor's event is not in the loop.
abbrev pub IsQuiet : TcpServer → Type 0
IsQuiet s = (x : ℕ) → is_acceptor x s ≡ true → has_fd x s.loop.events ≡ false

stop-connections : (s : TcpServer) → (stop s).connections ≡ s.connections
unfolding stop
stop-connections s = by_acceptor s.acceptor_fd
  where
    by_acceptor : (a : Option ℕ) → (stop (record s { acceptor_fd = a })).connections ≡ s.connections
    by_acceptor none = refl
    by_acceptor (some fd) = refl

module _ (foreign : ℕ → Bool) where
  pub stop-IsWatched :
      (s : TcpServer) → IsWatched foreign s → IsWatched foreign (stop s) × IsQuiet (stop s)
  unfolding stop
  stop-IsWatched s v = by_acceptor s.acceptor_fd v
    where
      by_acceptor :
          (a : Option ℕ)
          → IsWatched foreign (record s { acceptor_fd = a })
          → IsWatched foreign (stop (record s { acceptor_fd = a }))
            × IsQuiet (stop (record s { acceptor_fd = a }))
      by_acceptor none v = (v, λ x h. absurd (clash h refl))
      by_acceptor (some fd) v = (
        record {
          epoll = remove_event-Agrees fd s.loop v.epoll;
          timers = subst IsValid (sym (remove_event-timing_wheel fd s.loop)) v.timers;
          conns = λ x h. elim (Bool-cases (x == fd)) [
            | inl b ↦ absurd (clash h (v.apart x b))
            | inr b ↦ has_fd-remove_event x fd s.loop ∙ rw b (v.conns x h)
          ];
          held = λ x h. elim (Bool-cases (x == fd)) [
            | inl b ↦ inr (inl b)
            | inr b ↦ v.held x (sym (has_fd-remove_event x fd s.loop ∙ rw b refl) ∙ h)
          ];
          apart = v.apart;
          opened = v.opened;
        },
        λ x h. has_fd-remove_event x fd s.loop ∙ rw h refl,
      )

  pub open_acceptor-IsWatched :
      (fresh : Option ℕ) (s : TcpServer)
      → IsWatched foreign s
      → IsQuiet s
      → ((fd : ℕ) → fresh ≡ some fd → has_fd fd s.connections ≡ false)
      → IsWatched foreign (open_acceptor fresh s)
  unfolding open_acceptor
  open_acceptor-IsWatched fresh s v quiet unused = by_fresh fresh unused
    where
      -- What is watched is not the old acceptor.
      others :
          (x : ℕ)
          → has_fd x s.loop.events ≡ true
          → (foreign x ≡ true) ⊎ (has_fd x s.connections ≡ true)
      others x h = elim (v.held x h) [
        | inl f ↦ inl f
        | inr (inl is_old) ↦ absurd (clash h (quiet x is_old))
        | inr (inr c) ↦ inr c
      ]

      by_fresh :
          (fresh : Option ℕ)
          → ((fd : ℕ) → fresh ≡ some fd → has_fd fd s.connections ≡ false)
          → IsWatched foreign (open_acceptor fresh s)
      by_fresh none unused = record {
        epoll = v.epoll;
        timers = v.timers;
        conns = v.conns;
        held = λ x h. elim (others x h) [ inl f ↦ inl f | inr c ↦ inr (inr c) ];
        apart = λ x h. absurd (clash h refl);
        opened = v.opened;
      }
      by_fresh (some fd) unused = record {
        epoll = add_event-Agrees fd s.loop v.epoll;
        timers = subst IsValid (sym (add_event-timing_wheel fd s.loop)) v.timers;
        conns = λ x h.
            has_fd-add_event x fd s.loop
            ∙ elim (Bool-cases (x == fd)) [ inl b ↦ rw b refl | inr b ↦ rw b (v.conns x h) ];
        held = λ x h. elim (Bool-cases (x == fd)) [
          | inl b ↦ inr (inl b)
          | inr b ↦ elim (others x (sym (has_fd-add_event x fd s.loop ∙ rw b refl) ∙ h)) [
            | inl f ↦ inl f
            | inr c ↦ inr (inr c)
          ]
        ];
        apart = λ x h. ap (λ y. has_fd y s.connections) ((==_iff x fd).0 h) ∙ unused fd refl;
        opened = v.opened;
      }

  pub acceptor_on_close-IsWatched :
      (fresh : Option ℕ) (s : TcpServer)
      → IsWatched foreign s
      → ((fd : ℕ) → fresh ≡ some fd → has_fd fd s.connections ≡ false)
      → IsWatched foreign (acceptor_on_close fresh s)
  unfolding acceptor_on_close
  acceptor_on_close-IsWatched fresh s v unused =
      let (stopped, quiet) = stop-IsWatched s v in
      open_acceptor-IsWatched fresh (stop s) stopped quiet
        (λ fd e. ap (λ k. has_fd fd k) (stop-connections s) ∙ unused fd e)

  pub release-IsWatched :
      (fd : ℕ) (s : TcpServer) → IsWatched foreign s → IsWatched foreign (release fd true s)
  unfolding release on_connection_close
  release-IsWatched fd s v = record {
    epoll = remove_event-Agrees fd s.loop v.epoll;
    timers = subst IsValid (sym (remove_event-timing_wheel fd s.loop)) v.timers;
    conns = λ x h. elim (Bool-cases (x == fd)) [
      | inl b ↦ absurd (clash h (has_fd-erase x fd s.connections ∙ rw b refl))
      | inr b ↦
          has_fd-remove_event x fd s.loop
          ∙ rw b (v.conns x (sym (has_fd-erase x fd s.connections ∙ rw b refl) ∙ h))
    ];
    held = λ x h. elim (Bool-cases (x == fd)) [
      | inl b ↦ absurd (clash h (has_fd-remove_event x fd s.loop ∙ rw b refl))
      | inr b ↦ elim (v.held x (sym (has_fd-remove_event x fd s.loop ∙ rw b refl) ∙ h)) [
        | inl f ↦ inl f
        | inr (inl a) ↦ inr (inl a)
        | inr (inr c) ↦ inr (inr (has_fd-erase x fd s.connections ∙ rw b c))
      ]
    ];
    apart = λ x h.
        has_fd-erase x fd s.connections
        ∙ elim (Bool-cases (x == fd)) [ inl b ↦ rw b refl | inr b ↦ rw b (v.apart x h) ];
    opened = λ x c h. elim (Bool-cases (x == fd)) [
      | inl b ↦ absurd (differs (sym (lookup-erase x fd s.connections ∙ rw b refl) ∙ h))
      | inr b ↦ v.opened x c (sym (lookup-erase x fd s.connections ∙ rw b refl) ∙ h)
    ];
  }
