-- ===== src/Loop/Handoff/Tests.antt =====
-- Tests of the model of a loop with other threads: its theorems at short runs.
use turbo_multimedia_server.Common.{
  run_moves, ◌≡◌, refl, ◌<◌, ◌⊎◌, List, [], ◌∷◌, none, some, arith,
}
use turbo_multimedia_server.Loop.Handoff.{
  nobody, waits, Shared, Move, enters, pushes, writes, polls, reads_pipe, locks, calls_front,
  unlocks, step, run, idle,
}
use turbo_multimedia_server.Loop.Handoff.Order.{run-heard}
use turbo_multimedia_server.Loop.Handoff.Stuck.{overfills, stuck, run-stuck}
use turbo_multimedia_server.Loop.Handoff.Waking.{CanCall, run-CanCall}

-- One function is pushed and called, and another one is pushed behind it.
abbrev story : List Move
story =
    enters
    ∷ pushes 4
    ∷ writes
    ∷ polls
    ∷ reads_pipe
    ∷ locks
    ∷ calls_front
    ∷ unlocks
    ∷ enters
    ∷ pushes 5
    ∷ writes
    ∷ []

abbrev left : Shared
left = record {
  holder = nobody;
  place = waits;
  pipe = 1;
  functions = 5 ∷ [];
  posted = 4 ∷ 5 ∷ [];
  called = 4 ∷ [];
}

told : run 8192 story idle ≡ some left
unfolding run_moves step
told = refl

run-heard_example : (left.functions ≡ []) ⊎ (0 < left.pipe)
run-heard_example = run-heard 8192 story left told refl refl

run-CanCall_example : CanCall 8192 left
run-CanCall_example = run-CanCall 8192 story left told (omega arith)

run-stuck_example :
    (run 2 (overfills (1 ∷ 2 ∷ []) 3 4) idle ≡ some (stuck (1 ∷ 2 ∷ []) 3 4))
    × (step 2 locks (stuck (1 ∷ 2 ∷ []) 3 4) ≡ none)
run-stuck_example = run-stuck 1 (2 ∷ []) 3 4 locks
