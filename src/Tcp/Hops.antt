-- ===== src/Tcp/Hops.antt =====
-- What other threads ask of a connection (network/net/TcpConnection.cpp, `send`, `forceClose` and `setTimeout`): the
-- loop's thread runs it later, in the order of the queue of `EventLoop::runInLoop`.
use turbo_multimedia_server.Common.{
  ℕ, ◌≡◌, refl, sym, ap, ◌∙◌, Bool, false, List, [], ◌∷◌, ◌++◌, append_assoc, Result, ok, ◌>>=◌,
  append-nil, subst, if◌then◌else◌,
}
use turbo_multimedia_server.Timing.{run_after}
use turbo_multimedia_server.Loop.Hops.{Hops, do_tasks, hand_over, flush}
use turbo_multimedia_server.Tcp.{Iovec, took, TcpConnection, send_in_loop, send_list, on_close}
use turbo_multimedia_server.Tcp.Stream.{Send, send_all, given, stream, AllFit, send_all-stream}

-- What is queued, with what `write` takes of a send when it is run.
pub data Task : Type 0 where
  sends : Send → Task
  sends_list : List Iovec → Task
  closes : Task

pub run_task : Task → TcpConnection → TcpConnection
run_task (sends s) c = send_in_loop (took s.write_takes 0) s.buf s.len c
run_task (sends_list vec) c = send_list vec c
run_task closes c = on_close c

-- `send` looks at `closed_` before it queues.
pub send : Bool → Send → Hops TcpConnection Task → Hops TcpConnection Task
unfolding run_task
send in_thread x s = if s.object.closed then s else hand_over run_task in_thread (sends x) s

pub send_vec : Bool → List Iovec → Hops TcpConnection Task → Hops TcpConnection Task
unfolding run_task
send_vec in_thread vec s =
    if s.object.closed then s else hand_over run_task in_thread (sends_list vec) s

pub force_close : Bool → Hops TcpConnection Task → Hops TcpConnection Task
unfolding run_task
force_close in_thread s = hand_over run_task in_thread closes s

-- `setTimeout`: the callback `f` is called by the loop's wheel; the calls that are made at once are given
-- with the connection.
pub set_timeout : ℕ → ℕ → ℕ → TcpConnection → Result (TcpConnection × List (ℕ × ℕ))
set_timeout fuel timeout f c =
    run_after fuel timeout f c.wheel >>= λ r. ok (record c { wheel = r.0 }, r.1)

-- Sends of other threads, one after another.
pub send_each : List Send → Hops TcpConnection Task → Hops TcpConnection Task
unfolding send
send_each [] s = s
send_each (x ∷ xs) s = send_each xs (send false x s)

abbrev tasks_of : List Send → List Task
tasks_of [] = []
tasks_of (x ∷ xs) = sends x ∷ tasks_of xs

send_each_lem :
    (xs : List Send) (ts : List Task) (c : TcpConnection)
    → c.closed ≡ false
    → send_each xs (record { object = c; waiting = ts })
      ≡ record { object = c; waiting = ts ++ tasks_of xs }
unfolding send_each send hand_over
send_each_lem [] ts c open_now = ap (λ l. record { object = c; waiting = l }) (sym (append-nil ts))
send_each_lem (x ∷ xs) ts c open_now =
    ap
      (λ b. send_each xs (
        if b
        then record { object = c; waiting = ts }
        else record { object = c; waiting = ts ++ (sends x ∷ []) }))
      open_now
    ∙ send_each_lem xs (ts ++ (sends x ∷ [])) c open_now
    ∙ ap (λ l. record { object = c; waiting = l }) (append_assoc ts (sends x ∷ []) (tasks_of xs))

do_tasks-sends :
    (xs : List Send) (c : TcpConnection) → do_tasks run_task (tasks_of xs) c ≡ send_all xs c
unfolding do_tasks run_task
do_tasks-sends [] c = refl
do_tasks-sends (x ∷ xs) c = do_tasks-sends xs _

-- What other threads send on an open connection for which nothing is queued: when the loop's thread has
-- run its queue, the bytes that the kernel took and then those that are pending are the ones that were
-- there before and then those of the sends, each once and in the order of the sends, as long as no `write`
-- fails; until then neither the kernel nor the pending parts have any of them.
pub flush-send_each :
    (xs : List Send) (c : TcpConnection)
    → AllFit xs
    → c.closed ≡ false
    → let s = send_each xs (record { object = c; waiting = [] }) in
      (stream s.object ≡ stream c) × (stream (flush run_task s).object ≡ stream c ++ given xs)
unfolding flush do_tasks
flush-send_each xs c fit open_now =
    subst
      (λ s.
        (stream s.object ≡ stream c) × (stream (flush run_task s).object ≡ stream c ++ given xs))
      (sym (send_each_lem xs [] c open_now))
      (refl, ap stream (do_tasks-sends xs c) ∙ (send_all-stream xs c fit open_now).1)
