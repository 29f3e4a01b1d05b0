-- ===== src/Udp/Hops.antt =====
-- What threads ask of a datagram socket (network/UdpSocket.cpp, `send`, `forceClose` and `setTimeout`):
-- the loop's thread does it, at once or later.
use turbo_multimedia_server.Common.{
  ℕ, ◌≡◌, sym, ap, ◌∙◌, Bool, List, [], ◌∷◌, ◌++◌, append_assoc, append-nil, Result, ok, ◌>>=◌,
}
use turbo_multimedia_server.Timing.{run_after}
use turbo_multimedia_server.Tcp.{Answer}
use turbo_multimedia_server.Udp.{UdpBufferNode, UdpSocket, send_in_loop, send_list, on_close}
use turbo_multimedia_server.Udp.Order.{
  stream, Passes, send_in_loop-Passes, send_list-Passes, on_close-Passes,
}
use turbo_multimedia_server.Udp.Order
use turbo_multimedia_server.Udp.Writes.{IsTimed}
use turbo_multimedia_server.Loop.Hops.{
  Hops, do_tasks, hand_over, hand_over_all, flush, of_loop, of_others, flush-hand_over_all,
}

-- What is queued, with what `sendto` answers when it is done.
pub data Task : Type 0 where
  sends : Answer → UdpBufferNode → Task
  sends_list : List UdpBufferNode → Task
  closes : Task

pub do_task : Task → UdpSocket → UdpSocket
do_task (sends a node) s = send_in_loop a node s
do_task (sends_list nodes) s = send_list nodes s
do_task closes s = on_close s

pub send : Bool → Answer → UdpBufferNode → Hops UdpSocket Task → Hops UdpSocket Task
unfolding do_task
send in_thread a node h = hand_over do_task in_thread (sends a node) h

pub send_nodes : Bool → List UdpBufferNode → Hops UdpSocket Task → Hops UdpSocket Task
unfolding do_task
send_nodes in_thread nodes h = hand_over do_task in_thread (sends_list nodes) h

pub force_close : Bool → Hops UdpSocket Task → Hops UdpSocket Task
unfolding do_task
force_close in_thread h = hand_over do_task in_thread closes h

-- `setTimeout`: the callback `f` is called by the loop's wheel; the calls that are made at once are given
-- with the socket.
pub set_timeout : ℕ → ℕ → ℕ → UdpSocket → Result (UdpSocket × List (ℕ × ℕ))
set_timeout fuel timeout f s =
    run_after fuel timeout f s.wheel >>= λ r. ok (record s { wheel = r.0 }, r.1)

-- The datagrams of tasks, and that those that the kernel takes at once hold a byte.
abbrev pub given : Task → List UdpBufferNode
given (sends a node) = node ∷ []
given (sends_list nodes) = nodes
given closes = []

abbrev pub all_given : List Task → List UdpBufferNode
all_given [] = []
all_given (t ∷ ts) = given t ++ all_given ts

abbrev pub HasBytes : Task → Type 0
HasBytes (sends a node) = Order.HasBytes (Order.sends a node)
HasBytes (sends_list nodes) = Unit {0}
HasBytes closes = Unit {0}

abbrev pub AllHaveBytes : List Task → Type 0
AllHaveBytes [] = Unit {0}
AllHaveBytes (t ∷ ts) = HasBytes t × AllHaveBytes ts

do_task-Passes :
    (t : Task) (s : UdpSocket) → IsTimed s → HasBytes t → Passes (given t) s (do_task t s)
unfolding do_task
do_task-Passes (sends a node) s timed h = send_in_loop-Passes a node s timed h
do_task-Passes (sends_list nodes) s timed h = send_list-Passes nodes s timed
do_task-Passes closes s timed h =
    on_close-Passes [] s s (record { timed = timed; kept = sym (append-nil (stream s)) })

do_tasks-Passes :
    (ts : List Task) (s : UdpSocket)
    → IsTimed s
    → AllHaveBytes ts
    → Passes (all_given ts) s (do_tasks do_task ts s)
unfolding do_tasks
do_tasks-Passes [] s timed h = record { timed = timed; kept = sym (append-nil (stream s)) }
do_tasks-Passes (t ∷ ts) s timed h =
    let p = do_task-Passes t s timed h.0 in
    let q = do_tasks-Passes ts (do_task t s) p.timed h.1 in
    record {
      timed = q.timed;
      kept =
          q.kept
          ∙ ap (λ l. l ++ all_given ts) p.kept
          ∙ append_assoc (stream s) (given t) (all_given ts);
    }

-- Datagrams that are sent from several threads, with closes among them, each pass once: when the loop's
-- thread has run its queue, what the kernel took and what is pending are the datagrams that were there
-- before, then those that the loop's thread sent, and then those that the others sent, each in the order
-- of the calls. A datagram that the kernel takes at once holds a byte.
pub flush-stream :
    (ts : List (Bool × Task)) (s : UdpSocket)
    → IsTimed s
    → AllHaveBytes (of_loop ts)
    → AllHaveBytes (of_others ts)
    → stream (flush do_task (hand_over_all do_task ts (record { object = s; waiting = [] }))).object
      ≡ stream s ++ (all_given (of_loop ts) ++ all_given (of_others ts))
unfolding do_tasks
flush-stream ts s timed own others =
    let p = do_tasks-Passes (of_loop ts) s timed own in
    let q = do_tasks-Passes (of_others ts) _ p.timed others in
    ap (λ h. stream h.object) (flush-hand_over_all do_task ts (record { object = s; waiting = [] }))
    ∙ q.kept
    ∙ ap (λ l. l ++ all_given (of_others ts)) p.kept
    ∙ append_assoc (stream s) (all_given (of_loop ts)) (all_given (of_others ts))
