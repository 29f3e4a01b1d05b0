-- ===== src/Timing/Tests.antt =====
-- Tests of the model of the timing wheel: its theorems at new wheels.
use turbo_multimedia_server.Common.{ℕ, ◌≡◌, refl, false, List, [], ok, arith}
use turbo_multimedia_server.Timing.{every, Entry, TimingWheel, init, has, insert_entry, run_after}
use turbo_multimedia_server.Timing.State.{IsValid}
use turbo_multimedia_server.Timing.Insert.{Inserts, insert_entry-Inserts}
use turbo_multimedia_server.Timing.Timers.{run_ticks}
use turbo_multimedia_server.Timing.Delays.Kept.{run_after_minutes}

-- A new wheel that has made one entry.
abbrev used : TimingWheel
used = record init { next_id = 1 }

used-IsValid : IsValid used
unfolding init
used-IsValid = record {
  length_seconds = refl;
  length_minutes = refl;
  length_hours = refl;
  length_days = refl;
  known_seconds = _;
  known_minutes = _;
  known_hours = _;
  known_days = _;
}

abbrev tick_entry : Entry
tick_entry = record { id = 0; action = every 5 7 }

insert_entry-Inserts_example : Inserts tick_entry 100000 used (insert_entry 100000 tick_entry used)
insert_entry-Inserts_example =
    insert_entry-Inserts 100000 tick_entry used-IsValid (omega arith, (omega arith, omega arith))

run_after_minutes_example :
    (w' : TimingWheel) × (r : TimingWheel × List (ℕ × ℕ)) × (run_after 0 1800 7 used ≡ ok (w', []))
    × (run_ticks 1 60 w' ≡ ok r)
    × (has 1 r.0 ≡ false)
run_after_minutes_example = run_after_minutes 0 1800 7 used-IsValid (omega arith) (omega arith)
