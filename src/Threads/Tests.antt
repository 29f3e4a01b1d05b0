-- ===== src/Threads/Tests.antt =====
-- Tests of the model of the threads: its theorems at two loops and at one thread.
use turbo_multimedia_server.Common.{ℕ, ◌≡◌, ◌⊎◌, refl, true, List, [], ◌∷◌, Option, some}
use turbo_multimedia_server.Threads.{
  EventLoopThread, fresh, loops, ends, asks, returns, start, later, asking, waking, publishing,
  promising, returning,
}
use turbo_multimedia_server.Threads.Starting.{run_returns}

abbrev two : List (Option ℕ)
two = some 1 ∷ some 2 ∷ []

abbrev asked : EventLoopThread
asked = record fresh { running = true; caller = asks }

abbrev back : EventLoopThread
back = record fresh {
  running = true;
  loop = some 9;
  promised = true;
  worker = loops;
  caller = returns;
}

run_returns_example : (back.loop ≡ some 9) ⊎ (back.worker ≡ ends)
run_returns_example =
    run_returns 9 back
      (later
        (later (later (later (later start (asking refl)) (waking refl refl)) (publishing refl))
          (promising refl))
        (returning refl refl))
      refl
