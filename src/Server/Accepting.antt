-- ===== src/Server/Accepting.antt =====
-- What the loop of a server watches behind a new connection (network/TcpServer.cpp,
-- `onAccept`).
use turbo_multimedia_server.Common.{
  ℕ, ◌≡◌, refl, sym, ap, ◌∙◌, inl, inr, Bool, true, false, ◌||◌, List, [], ◌∷◌, ◌++◌, some, ◌==◌,
  if◌then◌else◌, arith, Bool-cases, ==_iff, subst, ok, ◌>>=◌,
}
use turbo_multimedia_server.Address.{InetAddress}
use turbo_multimedia_server.Buffer.{initial_size}
use turbo_multimedia_server.Buffer.Shrink.{init-Fresh}
use turbo_multimedia_server.Loop.{add_event}
use turbo_multimedia_server.Loop.Interest.{add_event-Agrees}
use turbo_multimedia_server.Loop.Watched.{
  has_fd, has_fd-put, has_fd-add_event, add_event-timing_wheel,
}
use turbo_multimedia_server.Timing.State.{IsValid}
use turbo_multimedia_server.Timing.{once, make_entry}
use turbo_multimedia_server.Tcp.Writes.{enable_check_idle_time_lem}
use turbo_multimedia_server.Tcp.{TcpConnection, enable_check_idle_time}
use turbo_multimedia_server.Server.{
  TcpServer, put_back, connection, noticed, on_accept, Notice, arrived,
}
use turbo_multimedia_server.Server.Watched.{is_acceptor, IsWatched}
use turbo_multimedia_server.Server.Settled.{kept, kept-IsWatched, put_back_open}

-- The descriptor `fd`, and what `foreign` has.
abbrev pub beside : ℕ → (ℕ → Bool) → ℕ → Bool
beside fd foreign x = x == fd || foreign x

pub widen-IsWatched :
    (fd : ℕ) (foreign : ℕ → Bool) (s : TcpServer)
    → IsWatched foreign s
    → IsWatched (beside fd foreign) s
widen-IsWatched fd foreign s v = record {
  epoll = v.epoll;
  timers = v.timers;
  conns = v.conns;
  held = λ x h. elim (v.held x h) [
    | inl f ↦ inl (rw f (ground arith))
    | inr (inl a) ↦ inr (inl a)
    | inr (inr c) ↦ inr (inr c)
  ];
  apart = v.apart;
  opened = v.opened;
}

pub narrow-IsWatched :
    (fd : ℕ) (foreign : ℕ → Bool) (s : TcpServer)
    → IsWatched (beside fd foreign) s
    → (has_fd fd s.loop.events ≡ true → has_fd fd s.connections ≡ true)
    → IsWatched foreign s
narrow-IsWatched fd foreign s v accounted = record {
  epoll = v.epoll;
  timers = v.timers;
  conns = v.conns;
  held = λ x h. elim (Bool-cases (x == fd)) [
    | inl b ↦
        let e = (==_iff x fd).0 b in
        inr (
          inr (
            ap (λ y. has_fd y s.connections) e
            ∙ accounted (ap (λ y. has_fd y s.loop.events) (sym e) ∙ h)))
    | inr b ↦ elim (v.held x h) [
      | inl f ↦ inl (ap (λ c. c || foreign x) (sym b) ∙ f)
      | inr (inl a) ↦ inr (inl a)
      | inr (inr c) ↦ inr (inr c)
    ]
  ];
  apart = v.apart;
  opened = v.opened;
}

noted-IsWatched :
    (foreign : ℕ → Bool) (ns : List Notice) (s : TcpServer)
    → IsWatched foreign s
    → IsWatched foreign (record s { notices = ns })
noted-IsWatched foreign ns s v = record {
  epoll = v.epoll;
  timers = v.timers;
  conns = v.conns;
  held = v.held;
  apart = v.apart;
  opened = v.opened;
}

module _ (foreign : ℕ → Bool) (fd : ℕ) (s : TcpServer) (v : IsWatched foreign s)
    (other : (x : ℕ) → (x == fd) ≡ true → is_acceptor x s ≡ false) where
  abbrev added : TcpServer
  added = record s { loop = add_event fd s.loop }

  added-IsWatched : IsWatched (beside fd foreign) added
  added-IsWatched = record {
    epoll = add_event-Agrees fd s.loop v.epoll;
    timers = subst IsValid (sym (add_event-timing_wheel fd s.loop)) v.timers;
    conns = λ x h.
        has_fd-add_event x fd s.loop
        ∙ elim (Bool-cases (x == fd)) [ inl b ↦ rw b refl | inr b ↦ rw b (v.conns x h) ];
    held = λ x h. elim (Bool-cases (x == fd)) [
      | inl b ↦ inl (rw b refl)
      | inr b ↦ elim (v.held x (sym (has_fd-add_event x fd s.loop ∙ rw b refl) ∙ h)) [
        | inl f ↦ inl (rw f (ground arith))
        | inr (inl a) ↦ inr (inl a)
        | inr (inr c) ↦ inr (inr c)
      ]
    ];
    apart = v.apart;
    opened = v.opened;
  }

  -- What a new connection changes.
  pub record Accepts (s' : TcpServer) : Type 0 where
    pub watched : IsWatched foreign s'
    pub there : has_fd fd s'.connections ≡ true
    pub acceptor : s'.acceptor_fd ≡ s.acceptor_fd
    pub callback : s'.has_accept_callback ≡ s.has_accept_callback
    pub before : (x : ℕ) → (x == fd) ≡ false → has_fd x s'.connections ≡ has_fd x s.connections

  kept-Accepts :
      (c : TcpConnection) → IsValid c.wheel → c.closed ≡ false → Accepts (kept fd c added)
  kept-Accepts c wheel still = record {
    watched =
        narrow-IsWatched fd foreign (kept fd c added)
          (kept-IsWatched (beside fd foreign) fd c added added-IsWatched wheel still
            (has_fd-add_event fd fd s.loop ∙ rw ((==_iff fd fd).1 refl) refl) other)
          (λ h. has_fd-put fd fd c s.connections ∙ rw ((==_iff fd fd).1 refl) refl);
    there = has_fd-put fd fd c s.connections ∙ rw ((==_iff fd fd).1 refl) refl;
    acceptor = refl;
    callback = refl;
    before = λ x b. has_fd-put x fd c s.connections ∙ rw b refl;
  }

  noticed-Accepts : (n : Notice) (s' : TcpServer) → Accepts s' → Accepts (noticed n s')
  noticed-Accepts n s' a = elim (Bool-cases s'.has_new_connection_cb) [
    | inr b ↦ subst (λ c. Accepts (by_callback c)) (sym b) a
    | inl b ↦
        subst (λ c. Accepts (by_callback c)) (sym b)
          (record {
            watched = noted-IsWatched foreign (s'.notices ++ (n ∷ [])) s' a.watched;
            there = a.there;
            acceptor = a.acceptor;
            callback = a.callback;
            before = a.before;
          })
  ]
    where
      by_callback : Bool → TcpServer
      by_callback c = if c then record s' { notices = s'.notices ++ (n ∷ []) } else s'

  -- A descriptor that is accepted becomes a connection of the server.
  pub on_accept_lem :
      (peer : InetAddress) → (s' : TcpServer) × (on_accept fd peer s ≡ ok s') × Accepts s'
  unfolding on_accept
  on_accept_lem peer =
      let (buffer, made, _) = init-Fresh initial_size (omega arith) in
      let (w, timed, wheel) =
        enable_check_idle_time_lem 30 (connection buffer added) added-IsWatched.timers
          (omega arith, omega arith) in
      let c : TcpConnection = record (connection buffer added) {
        max_idle_ms = 30;
        timeout_entry = some (make_entry (once 0) (connection buffer added).wheel);
        wheel = w;
      } in
      let welcome = λ (x : TcpConnection). noticed (arrived fd peer) (put_back fd x added) in
      (
        noticed (arrived fd peer) (kept fd c added),
        ap (λ r. r >>= λ b. enable_check_idle_time 30 (connection b added) >>= λ x. ok (welcome x))
              made
            ∙ ap (λ r. r >>= λ x. ok (welcome x)) timed
            ∙ ap (λ x. ok (noticed (arrived fd peer) x)) (put_back_open fd c added refl),
        noticed-Accepts (arrived fd peer) (kept fd c added) (kept-Accepts c wheel refl),
      )
