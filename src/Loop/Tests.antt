-- ===== src/Loop/Tests.antt =====
-- Tests of the model of the event loop: its theorems at a loop with two events.
use turbo_multimedia_server.Common.{
  ◌≡◌, refl, true, false, List, [], ◌∷◌, none, replicate, inl, inr, Option-cases, ℕ, ◌++◌, ok,
  arith,
}
use turbo_multimedia_server.Timing.{TimingWheel, has}
use turbo_multimedia_server.Timing.State.{IsValid}
use turbo_multimedia_server.Timing.Release.{ran}
use turbo_multimedia_server.Loop.Clock.{Turn, fails, waits, loop}
use turbo_multimedia_server.Loop.Clock.Delays.{loop-keeps_timer, loop-runs_timer}
use turbo_multimedia_server.Loop.{
  Report, Call, handles, calls, EventLoop, lookup, event_read, remove_event, after_in_loop,
}
use turbo_multimedia_server.Loop.Interest.{
  Agrees, Operation, adds, removes, reads, writes, run_operations, table, run_operations-Agrees,
}

abbrev empty_wheel : TimingWheel
empty_wheel = record {
  seconds = replicate 60 [];
  minutes = replicate 60 [];
  hours = replicate 24 [];
  days = replicate 30 [];
  last_ts = 0;
  tick = 0;
  next_id = 0;
}

-- A loop with nothing to wait for.
abbrev new_loop : EventLoop
new_loop = record {
  events = [];
  requests = [];
  capacity = 1024;
  functions = [];
  pipe = none;
  woken = 0;
  timing_wheel = empty_wheel;
  called = [];
  fired = [];
}

new_loop-Agrees : Agrees new_loop
unfolding table
new_loop-Agrees x = refl

-- One with events 4 and 5.
abbrev two_events : EventLoop
two_events = record new_loop { events = (4, event_read) ∷ (5, event_read) ∷ [] }

abbrev operations : List Operation
operations = adds 4 ∷ adds 5 ∷ writes 4 true ∷ removes 5 ∷ reads 4 false ∷ adds 4 ∷ []

run_operations-Agrees_example : Agrees (run_operations operations new_loop)
run_operations-Agrees_example = run_operations-Agrees operations new_loop new_loop-Agrees

-- A handler removes its event.
abbrev leave : Call → EventLoop → EventLoop
leave (handles fd h) l = remove_event fd l
leave (calls f) l = l

leave_keeps : (c : Call) (l : EventLoop) → (leave c l).called ≡ l.called
unfolding remove_event
leave_keeps (calls f) l = refl
leave_keeps (handles fd h) l = elim (Option-cases (lookup fd l.events)) [
  | inl missing ↦ rw (remove_event, missing)
  | inr (f, there) ↦ rw (remove_event, there)
]

-- A handler that does nothing.
abbrev idle_effect : Call → EventLoop → EventLoop
idle_effect c l = l

abbrev reports : List Report
reports =
    record {
      fd = 6;
      error = false;
      hang_up = false;
      readable = true;
      priority = false;
      writable = false;
    }
    ∷ record {
      fd = 4;
      error = false;
      hang_up = true;
      readable = false;
      priority = false;
      writable = true;
    }
    ∷ []

leave_wheel : (c : Call) (l : EventLoop) → (leave c l).timing_wheel ≡ l.timing_wheel
unfolding remove_event
leave_wheel (calls f) l = refl
leave_wheel (handles fd h) l = elim (Option-cases (lookup fd l.events)) [
  | inl missing ↦ rw (remove_event, missing)
  | inr (f, there) ↦ rw (remove_event, there)
]

leave_fired : (c : Call) (l : EventLoop) → (leave c l).fired ≡ l.fired
unfolding remove_event
leave_fired (calls f) l = refl
leave_fired (handles fd h) l = elim (Option-cases (lookup fd l.events)) [
  | inl missing ↦ rw (remove_event, missing)
  | inr (f, there) ↦ rw (remove_event, there)
]

-- One whose last tick was at 5000.
abbrev ticking_loop : EventLoop
ticking_loop = record two_events { timing_wheel = record empty_wheel { last_ts = 5000 } }

ticking_loop-IsValid : IsValid ticking_loop.timing_wheel
ticking_loop-IsValid = record {
  length_seconds = refl;
  length_minutes = refl;
  length_hours = refl;
  length_days = refl;
  known_seconds = _;
  known_minutes = _;
  known_hours = _;
  known_days = _;
}

-- Rounds before the delay of two seconds is over, and rounds to the end of it.
abbrev early_turns : List Turn
early_turns = waits reports 5900 ∷ fails ∷ waits [] 6999 ∷ []

abbrev all_turns : List Turn
all_turns =
    waits reports 5900 ∷ fails ∷ waits [] 6800 ∷ waits [] 7600 ∷ waits [] 8400 ∷ waits [] 9000 ∷ []

loop-keeps_timer_example :
    (l₁ : EventLoop) × (l₂ : EventLoop) × (log : List (ℕ × ℕ)) × (after_in_loop 1 2 7 ticking_loop
      ≡ ok l₁)
    × (loop leave 1 early_turns l₁ ≡ ok l₂)
    × (has 0 l₂.timing_wheel ≡ true)
    × (l₂.fired ≡ [] ++ log)
    × (ran 0 log ≡ false)
loop-keeps_timer_example =
    loop-keeps_timer leave leave_wheel leave_fired 0 2 7 early_turns ticking_loop
      ticking_loop-IsValid (omega arith) (omega arith) (omega arith)
      (omega arith, (omega arith, tt))

loop-runs_timer_example :
    (l₁ : EventLoop) × (l₂ : EventLoop) × (log : List (ℕ × ℕ)) × (after_in_loop 1 2 7 ticking_loop
      ≡ ok l₁)
    × (loop leave 1 all_turns l₁ ≡ ok l₂)
    × (l₂.fired ≡ [] ++ log)
    × (ran 0 log ≡ true)
    × (has 0 l₂.timing_wheel ≡ false)
loop-runs_timer_example =
    loop-runs_timer leave leave_wheel leave_fired 0 2 7 900 5000 all_turns ticking_loop
      ticking_loop-IsValid (omega arith) (omega arith) (omega arith) (omega arith)
      (omega arith, (omega arith, (omega arith, (omega arith, (omega arith, tt))))) (omega arith)
