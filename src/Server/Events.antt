-- ===== src/Server/Events.antt =====
-- The events of a server (network/TcpServer.cpp and network/net/Acceptor.cpp), in any order.
use turbo_multimedia_server.Common.{
  ℕ, ◌≡◌, refl, sym, ap, ◌∙◌, inl, inr, Bool, true, false, List, [], ◌∷◌, ◌++◌, Option, none, some,
  ◌==◌, if◌then◌else◌, Bool-cases, ==_iff, Result, ok, ◌>>=◌,
}
use turbo_multimedia_server.Address.Sockets.{
  SockAddr, Accepted, refused, accepted, accept, no_address,
}
use turbo_multimedia_server.Loop.Watched.{has_fd, has_fd-add_event}
use turbo_multimedia_server.Timing.State.{IsValid}
use turbo_multimedia_server.Tcp.{TcpConnection, retryable}
use turbo_multimedia_server.Server.{
  TcpServer, open_acceptor, stop, start, acceptor_on_close, on_accept, accept_loop, settle,
}
use turbo_multimedia_server.Server.Watched.{
  is_acceptor, IsWatched, IsQuiet, clash, stop-IsWatched, open_acceptor-IsWatched,
  acceptor_on_close-IsWatched,
}
use turbo_multimedia_server.Server.Settled.{settle-IsWatched}
use turbo_multimedia_server.Server.Accepting.{on_accept_lem}

-- What happens to a server: connections arrive and then `accept4` fails; a handler of a connection calls
-- `enableWriting` so often and leaves it so; the server is stopped, or started; and the acceptor's handler of errors is called. A
-- descriptor is what `socket` gives if the acceptor is opened.
pub data Event : Type 0 where
  arrive : List (ℕ × SockAddr) → ℕ → Option ℕ → Event
  handle : ℕ → List Bool → TcpConnection → Event
  stops : Event
  starts fails : Option ℕ → Event

abbrev pub answers : List (ℕ × SockAddr) → ℕ → List Accepted
answers [] e = refused e ∷ []
answers ((fd, from) ∷ others) e = accepted fd from ∷ answers others e

-- A new socket's descriptor is of no connection.
abbrev pub IsUnused : Option ℕ → TcpServer → Type 0
IsUnused fresh s = (fd : ℕ) → fresh ≡ some fd → has_fd fd s.connections ≡ false

-- No descriptor is the acceptor's.
abbrev pub NotAcceptor : List (ℕ × SockAddr) → TcpServer → Type 0
NotAcceptor [] s = Unit {0}
NotAcceptor ((fd, from) ∷ others) s = (is_acceptor fd s ≡ false) × NotAcceptor others s

-- What the kernel and the handlers promise of an event.
abbrev pub Fits : Event → TcpServer → Type 0
Fits (arrive fds e fresh) s =
    NotAcceptor fds s × IsUnused fresh s × ((fd : ℕ) → fresh ≡ some fd → has_fd fd fds ≡ false)
Fits (handle fd asked c) s =
    (has_fd fd s.connections ≡ true) × (c.has_close_cb ≡ true) × IsValid c.wheel
Fits stops s = Unit {0}
Fits (starts fresh) s = IsQuiet s × IsUnused fresh s
Fits (fails fresh) s = IsUnused fresh s

has_fd-cons {ℓ} :
    {A : Type ℓ} (x fd : ℕ) (a : A) (fds : List (ℕ × A))
    → has_fd x ((fd, a) ∷ fds) ≡ false
    → ((x == fd) ≡ false) × (has_fd x fds ≡ false)
has_fd-cons x fd a fds h = elim (Bool-cases (x == fd)) [
  | inl b ↦ absurd (clash refl (sym (rw (has_fd, b) refl) ∙ h))
  | inr b ↦ (b, sym (rw (has_fd, b) refl) ∙ h)
]

NotAcceptor-eq :
    (fds : List (ℕ × SockAddr)) (s s' : TcpServer)
    → s'.acceptor_fd ≡ s.acceptor_fd
    → NotAcceptor fds s
    → NotAcceptor fds s'
NotAcceptor-eq [] s s' e n = tt
NotAcceptor-eq ((fd, from) ∷ fds) s s' e n =
    (ap (λ a. elim a [ none ↦ false | some y ↦ fd == y ]) e ∙ n.0, NotAcceptor-eq fds s s' e n.1)

module _ (inet_ntop : ℕ → List ℕ → List ℕ) (to_string : ℕ → List ℕ) where
  pub perform : Event → TcpServer → Result TcpServer
  perform (arrive fds e fresh) s = accept_loop inet_ntop to_string (answers fds e) fresh s
  perform (handle fd asked c) s = ok (settle fd asked c s)
  perform stops s = ok (stop s)
  perform (starts fresh) s = ok (start fresh s)
  perform (fails fresh) s = ok (acceptor_on_close fresh s)

  module _ (foreign : ℕ → Bool) where
    apart_lem :
        (s : TcpServer)
        → IsWatched foreign s
        → (fd x : ℕ) → has_fd fd s.connections ≡ true
        → (x == fd) ≡ true
        → is_acceptor x s ≡ false
    apart_lem s v fd x there b = elim (Bool-cases (is_acceptor x s)) [
      | inr is_not ↦ is_not
      | inl is_it ↦
          absurd
            (clash (ap (λ y. has_fd y s.connections) ((==_iff x fd).0 b) ∙ there) (v.apart x is_it))
    ]

    accept_loop-IsWatched :
        (fds : List (ℕ × SockAddr)) (e : ℕ) (fresh : Option ℕ) (s : TcpServer)
        → IsWatched foreign s
        → Fits (arrive fds e fresh) s
        → (s' : TcpServer) × (accept_loop inet_ntop to_string (answers fds e) fresh s ≡ ok s')
          × IsWatched foreign s'
    unfolding accept_loop
    accept_loop-IsWatched [] e fresh s v f = elim (Bool-cases (retryable e)) [
      | inl again ↦ (s, rw again refl, v)
      | inr over ↦ (_, rw over refl, acceptor_on_close-IsWatched foreign fresh s v f.1)
    ]
    accept_loop-IsWatched ((fd, from) ∷ fds) e fresh s v f =
        elim (Bool-cases s.has_accept_callback) [
          | inr deaf ↦
              let (s', rest, v') =
                accept_loop-IsWatched fds e fresh s v
                  (f.0.1, f.1, λ x is_x. (has_fd-cons x fd from fds (f.2 x is_x)).1) in
              (s', ap (λ b. if b then taken s >>= loop else loop s) deaf ∙ rest, v')
          | inl listens ↦
              let (s₁, first, a) =
                on_accept_lem foreign fd s v
                  (λ x b. ap (λ y. is_acceptor y s) ((==_iff x fd).0 b) ∙ f.0.0)
                  (accept inet_ntop to_string (accepted fd from) no_address) in
              let (s', rest, v') = accept_loop-IsWatched fds e fresh s₁ a.watched (
                NotAcceptor-eq fds s s₁ a.acceptor f.0.1,
                (λ x is_x. a.before x (has_fd-cons x fd from fds (f.2 x is_x)).0 ∙ f.1 x is_x),
                (λ x is_x. (has_fd-cons x fd from fds (f.2 x is_x)).1),
              ) in
              (
                s',
                ap (λ b. if b then taken s >>= loop else loop s) listens
                    ∙ ap (λ r. r >>= loop) first
                    ∙ rest,
                v',
              )
        ]
      where
        loop : TcpServer → Result TcpServer
        loop x = accept_loop inet_ntop to_string (answers fds e) fresh x

        taken : TcpServer → Result TcpServer
        taken x = on_accept fd (accept inet_ntop to_string (accepted fd from) no_address) x

    -- Each event of a server returns and keeps this: the loop watches every connection of the server and,
    -- beyond those, only the acceptor and what is not of this server; epoll waits for what the loop's table
    -- says; the connections are open, and none has the acceptor's descriptor. Connections arrive in any
    -- number before `accept4` fails, for whatever reason, and a handler of a connection may ask for writable
    -- events or not, as often as it likes, and leave the connection in any state with valid timers and the
    -- server's callback, closed or not. A descriptor that is accepted is not the acceptor's, one that is
    -- made for a new acceptor is of no connection, those that arrive included, and the server is started
    -- only while its acceptor is not watched.
    pub perform-IsWatched :
        (event : Event) (s : TcpServer)
        → IsWatched foreign s
        → Fits event s
        → (s' : TcpServer) × (perform event s ≡ ok s') × IsWatched foreign s'
    unfolding perform start
    perform-IsWatched (arrive fds e fresh) s v f = accept_loop-IsWatched fds e fresh s v f
    perform-IsWatched (handle fd asked c) s v f = (
      settle fd asked c s,
      refl,
      settle-IsWatched foreign fd asked c s v f.2 f.1 (v.conns fd f.0)
          (λ x b. apart_lem s v fd x f.0 b),
    )
    perform-IsWatched stops s v f = (stop s, refl, (stop-IsWatched foreign s v).0)
    perform-IsWatched (starts fresh) s v f = (
      _,
      refl,
      open_acceptor-IsWatched foreign fresh _
          (record {
            epoll = v.epoll;
            timers = v.timers;
            conns = v.conns;
            held = v.held;
            apart = v.apart;
            opened = v.opened;
          })
          f.0 f.1,
    )
    perform-IsWatched (fails fresh) s v f =
        (acceptor_on_close fresh s, refl, acceptor_on_close-IsWatched foreign fresh s v f)

-- A server that is started again while its acceptor is watched closes the acceptor's descriptor, but the
-- loop's table keeps it, whatever the new one is.
pub start_again :
    (fd : ℕ) (fresh : Option ℕ) (s : TcpServer)
    → s.acceptor_fd ≡ some fd
    → has_fd fd s.loop.events ≡ true
    → (has_fd fd (start fresh s).loop.events ≡ true)
      × ((start fresh s).closed_fds ≡ s.closed_fds ++ (fd ∷ []))
unfolding start open_acceptor
start_again fd none s is_fd watched =
    (watched, ap (λ a. elim a [ none ↦ s.closed_fds | some y ↦ s.closed_fds ++ (y ∷ []) ]) is_fd)
start_again fd (some x) s is_fd watched = (
  has_fd-add_event fd x s.loop
      ∙ elim (Bool-cases (fd == x)) [ inl b ↦ rw b refl | inr b ↦ rw b watched ],
  ap (λ a. elim a [ none ↦ s.closed_fds | some y ↦ s.closed_fds ++ (y ∷ []) ]) is_fd,
)
