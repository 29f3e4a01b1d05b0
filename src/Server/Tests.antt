-- ===== src/Server/Tests.antt =====
-- Tests of the model of a server: its theorems at one connection.
use turbo_multimedia_server.Common.{
  ℕ, ◌≡◌, refl, inl, inr, true, false, Bool, List, [], ◌∷◌, none, some, ◌==◌, ok, Bool-cases,
}
use turbo_multimedia_server.Address.Sockets.{SockAddr, no_address}
use turbo_multimedia_server.Loop.{event_read, ctl_add}
use turbo_multimedia_server.Loop.Watched.{has_fd}
use turbo_multimedia_server.Loop.Interest.{Agrees, table}
use turbo_multimedia_server.Timing.Idle.{still_wheel, still_wheel-IsValid}
use turbo_multimedia_server.Server.{TcpServer, start}
use turbo_multimedia_server.Server.Watched.{IsWatched, clash}
use turbo_multimedia_server.Server.Events.{arrive, perform, perform-IsWatched, start_again}

-- A server whose acceptor has the descriptor 5.
abbrev waiting : TcpServer
waiting = record {
  addr = no_address;
  loop = record {
    events = (5, event_read) ∷ [];
    requests = ctl_add 5 event_read ∷ [];
    capacity = 1024;
    functions = [];
    pipe = none;
    woken = 0;
    timing_wheel = still_wheel;
    called = [];
    fired = [];
  };
  acceptor_fd = some 5;
  has_accept_callback = true;
  connections = [];
  has_message_cb = false;
  has_write_complete_cb = false;
  has_new_connection_cb = true;
  has_destroy_connection_cb = true;
  families = [];
  closed_fds = [];
  notices = [];
}

abbrev nothing : ℕ → Bool
nothing x = false

waiting-IsWatched : IsWatched nothing waiting
unfolding table
waiting-IsWatched = record {
  epoll = agrees;
  timers = still_wheel-IsValid;
  conns = λ x h. cc;
  held = λ x h. inr (
      inl (elim (Bool-cases (x == 5)) [
        | inl b ↦ b
        | inr b ↦ absurd (clash h (rw (has_fd, b) refl))
      ]));
  apart = λ x h. refl;
  opened = λ x c h. cc;
}
  where
    agrees : Agrees waiting.loop
    agrees x = elim (Bool-cases (x == 5)) [ inl b ↦ rw b refl | inr b ↦ rw b refl ]

abbrev ntop : ℕ → List ℕ → List ℕ
ntop family bytes = bytes

abbrev print : ℕ → List ℕ
print n = n ∷ []

abbrev from : SockAddr
from = record { family = 2; port = 4000; address = 10 ∷ 0 ∷ 0 ∷ 1 ∷ []; rest = [] }

perform-IsWatched_example :
    (s' : TcpServer) × (perform ntop print (arrive ((7, from) ∷ []) 11 none) waiting ≡ ok s')
    × IsWatched nothing s'
perform-IsWatched_example =
    perform-IsWatched ntop print nothing (arrive ((7, from) ∷ []) 11 none) waiting waiting-IsWatched
      ((refl, tt), (λ fd h. refl), (λ fd h. cc))

start_again_example :
    (has_fd 5 (start (some 6) waiting).loop.events ≡ true)
    × ((start (some 6) waiting).closed_fds ≡ 5 ∷ [])
start_again_example = start_again 5 (some 6) waiting refl refl
