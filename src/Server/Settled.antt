-- ===== src/Server/Settled.antt =====
-- What the loop of a server watches behind a handler of a connection (network/TcpServer.cpp,
-- `onConnectionClose`).
use turbo_multimedia_server.Common.{
  ℕ, List, [], ◌∷◌, ◌≡◌, refl, sym, ap, ◌∙◌, inl, inr, Bool, true, false, Option, none, some, ◌==◌,
  if◌then◌else◌, Bool-cases, ==_iff, subst,
}
use turbo_multimedia_server.Loop.{EventLoop, put, enable_event_writing}
use turbo_multimedia_server.Loop.Interest.{Agrees, lookup-put, enable_event_writing-Agrees}
use turbo_multimedia_server.Loop.Watched.{
  has_fd, has_fd-put, has_fd-enable_event_writing, enable_event_writing-timing_wheel,
}
use turbo_multimedia_server.Timing.State.{IsValid}
use turbo_multimedia_server.Tcp.{TcpConnection}
use turbo_multimedia_server.Server.{TcpServer, release, put_back, settle, set_writing}
use turbo_multimedia_server.Server.Watched.{is_acceptor, IsWatched, clash, release-IsWatched}

abbrev closed_of : Option TcpConnection → Bool
closed_of none = false
closed_of (some c) = c.closed

-- The loop has the wheel of the connection.
abbrev pub turned : TcpConnection → TcpServer → TcpServer
turned c s = record s { loop = record s.loop { timing_wheel = c.wheel } }

abbrev pub kept : ℕ → TcpConnection → TcpServer → TcpServer
kept fd c s = record (turned c s) { connections = put fd c s.connections }

put_back_closed :
    (fd : ℕ) (c : TcpConnection) (s : TcpServer)
    → c.closed ≡ true
    → c.has_close_cb ≡ true
    → put_back fd c s ≡ release fd true (turned c s)
unfolding put_back
put_back_closed fd c s over called =
    ap (λ b. if b then release fd c.has_close_cb (turned c s) else kept fd c s) over
    ∙ ap (λ b. release fd b (turned c s)) called

pub put_back_open :
    (fd : ℕ) (c : TcpConnection) (s : TcpServer) → c.closed ≡ false → put_back fd c s ≡ kept fd c s
unfolding put_back
put_back_open fd c s still =
    ap (λ b. if b then release fd c.has_close_cb (turned c s) else kept fd c s) still

module _ (foreign : ℕ → Bool) (fd : ℕ) (c : TcpConnection) (s : TcpServer) where
  turned-IsWatched : IsWatched foreign s → IsValid c.wheel → IsWatched foreign (turned c s)
  turned-IsWatched v wheel = record {
    epoll = v.epoll;
    timers = wheel;
    conns = v.conns;
    held = v.held;
    apart = v.apart;
    opened = v.opened;
  }

  pub kept-IsWatched :
      IsWatched foreign s
      → IsValid c.wheel
      → c.closed ≡ false
      → has_fd fd s.loop.events ≡ true
      → ((x : ℕ) → (x == fd) ≡ true → is_acceptor x s ≡ false)
      → IsWatched foreign (kept fd c s)
  kept-IsWatched v wheel still watched other = record {
    epoll = v.epoll;
    timers = wheel;
    conns = λ x h. elim (Bool-cases (x == fd)) [
      | inl b ↦ ap (λ y. has_fd y s.loop.events) ((==_iff x fd).0 b) ∙ watched
      | inr b ↦ v.conns x (sym (has_fd-put x fd c s.connections ∙ rw b refl) ∙ h)
    ];
    held = λ x h. elim (v.held x h) [
      | inl f ↦ inl f
      | inr (inl a) ↦ inr (inl a)
      | inr (inr k) ↦ inr (
          inr (
            has_fd-put x fd c s.connections
            ∙ elim (Bool-cases (x == fd)) [ inl b ↦ rw b refl | inr b ↦ rw b k ]))
    ];
    apart = λ x h. elim (Bool-cases (x == fd)) [
      | inl b ↦ absurd (clash h (other x b))
      | inr b ↦ has_fd-put x fd c s.connections ∙ rw b (v.apart x h)
    ];
    opened = λ x k h. elim (Bool-cases (x == fd)) [
      | inl b ↦
          subst (λ o. closed_of o ≡ false) {x = some c} {y = some k}
            (sym (lookup-put x fd c s.connections ∙ rw b refl) ∙ h) still
      | inr b ↦ v.opened x k (sym (lookup-put x fd c s.connections ∙ rw b refl) ∙ h)
    ];
  }

  -- A connection that the loop watches, as a handler leaves it.
  pub put_back-IsWatched :
      IsWatched foreign s
      → IsValid c.wheel
      → c.has_close_cb ≡ true
      → has_fd fd s.loop.events ≡ true
      → ((x : ℕ) → (x == fd) ≡ true → is_acceptor x s ≡ false)
      → IsWatched foreign (put_back fd c s)
  put_back-IsWatched v wheel called watched other = elim (Bool-cases c.closed) [
    | inl over ↦
        subst (IsWatched foreign) (sym (put_back_closed fd c s over called))
          (release-IsWatched foreign fd (turned c s) (turned-IsWatched v wheel))
    | inr still ↦
        subst (IsWatched foreign) (sym (put_back_open fd c s still))
          (kept-IsWatched v wheel still watched other)
  ]

has_fd-set_writing :
    (x fd : ℕ) (asked : List Bool) (l : EventLoop)
    → has_fd x (set_writing fd asked l).events ≡ has_fd x l.events
has_fd-set_writing x fd [] l = refl
has_fd-set_writing x fd (enable ∷ later) l =
    has_fd-set_writing x fd later (enable_event_writing fd enable l)
    ∙ has_fd-enable_event_writing x fd enable l

set_writing-Agrees :
    (fd : ℕ) (asked : List Bool) (l : EventLoop) → Agrees l → Agrees (set_writing fd asked l)
set_writing-Agrees fd [] l a = a
set_writing-Agrees fd (enable ∷ later) l a =
    set_writing-Agrees fd later (enable_event_writing fd enable l)
      (enable_event_writing-Agrees fd enable l a)

set_writing-timing_wheel :
    (fd : ℕ) (asked : List Bool) (l : EventLoop)
    → (set_writing fd asked l).timing_wheel ≡ l.timing_wheel
set_writing-timing_wheel fd [] l = refl
set_writing-timing_wheel fd (enable ∷ later) l =
    set_writing-timing_wheel fd later (enable_event_writing fd enable l)
    ∙ enable_event_writing-timing_wheel fd enable l

-- A connection that the loop watches, behind a handler.
pub settle-IsWatched :
    (foreign : ℕ → Bool) (fd : ℕ) (asked : List Bool) (c : TcpConnection) (s : TcpServer)
    → IsWatched foreign s
    → IsValid c.wheel
    → c.has_close_cb ≡ true
    → has_fd fd s.loop.events ≡ true
    → ((x : ℕ) → (x == fd) ≡ true → is_acceptor x s ≡ false)
    → IsWatched foreign (settle fd asked c s)
unfolding settle
settle-IsWatched foreign fd asked c s v wheel called watched other =
    put_back-IsWatched foreign fd c (record s { loop = set_writing fd asked s.loop })
      (record {
        epoll = set_writing-Agrees fd asked s.loop v.epoll;
        timers = subst IsValid (sym (set_writing-timing_wheel fd asked s.loop)) v.timers;
        conns = λ x h. has_fd-set_writing x fd asked s.loop ∙ v.conns x h;
        held = λ x h. v.held x (sym (has_fd-set_writing x fd asked s.loop) ∙ h);
        apart = v.apart;
        opened = v.opened;
      })
      wheel called (has_fd-set_writing fd fd asked s.loop ∙ watched) other
