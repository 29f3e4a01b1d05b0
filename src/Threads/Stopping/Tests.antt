-- ===== src/Threads/Stopping/Tests.antt =====
-- Tests of the model of a thread that is stopped: its theorems at short runs.
use turbo_multimedia_server.Common.{run_moves, ◌≡◌, ◌≢◌, refl, true, List, [], ◌∷◌, some}
use turbo_multimedia_server.Threads.Stopping.{
  rounds, answered, joined, Stopping, Move, wakes, publishes, promising, enters, turns, destroys,
  asks, answers, tells, joins, made, run, move,
}
use turbo_multimedia_server.Threads.Stopping.Hanging.{early, unheard, run-unheard}
use turbo_multimedia_server.Threads.Stopping.Joining.{run_heard}

-- The loop is entered, and the owner has been told that the thread runs.
abbrev entered : Stopping
entered = record unheard { looping = true; closes = 0; stage = rounds; owner = answered }

abbrev entering : List Move
entering = asks ∷ wakes ∷ publishes ∷ promising ∷ answers ∷ enters ∷ []

run_heard_example :
    (t : Stopping) × (run (tells ∷ turns ∷ destroys ∷ joins ∷ []) entered ≡ some t)
    × (t.owner ≡ joined)
    × (t.closes ≡ 2)
unfolding run_moves move
run_heard_example = run_heard entering entered refl refl refl

-- The thread enters the loop and goes round.
abbrev turning : Stopping
turning = record unheard { looping = true; stage = rounds }

run-unheard_example : (run early made ≡ some unheard) × (turning.owner ≢ joined)
unfolding run_moves move
run-unheard_example = run-unheard (enters ∷ turns ∷ turns ∷ []) turning refl
