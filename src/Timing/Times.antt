-- ===== src/Timing/Times.antt =====
-- When a timer runs by the clock (network/net/TimingWheel.cpp, `onTimer`): a call of `onTimer` makes one
-- tick at most, and none within a second of the last tick.
pub mod Runs
use turbo_multimedia_server.Common.{
  ℕ, zero, suc, ◌+◌, ◌-◌, ◌*◌, ◌≡◌, refl, ◌∙◌, ◌≤◌, ◌<◌, inl, inr, true, false, List, [], ◌∷◌, ◌++◌,
  ◌==◌, ltb, ok, ◌>>=◌, arith, Bool-cases, ltb→lt, not-ltb→le, lt→ltb,
}
use native.Mathlib.Nat.{suc-mul}
use turbo_multimedia_server.Timing.{TimingWheel, Step, has, on_tick, on_timer}
use turbo_multimedia_server.Timing.State.{IsValid}
use turbo_multimedia_server.Timing.Tick.Whole.{Ticked, turns_minutes, on_tick_lem}
use turbo_multimedia_server.Timing.Timers.{
  StandsAt, StandsAt-has, EndsBy, EndsBy-eq, EndsBy-has, no_turn, tick-StandsAt, tick-EndsBy,
  tick_runs,
}
use turbo_multimedia_server.Timing.Release.{ran, ran-append}

-- `onTimer` at one time after another.
unfoldable pub run_timers : ℕ → List ℕ → TimingWheel → Step
run_timers fuel [] w = ok (w, [])
run_timers fuel (now ∷ ts) w =
    on_timer fuel now w >>= λ r. run_timers fuel ts r.0 >>= λ r'. ok (r'.0, r.1 ++ r'.1)

-- An entry that stands in slot `j` of the seconds and in no other, once the clock runs.
pub record Pending (x j : ℕ) (w : TimingWheel) : Type 0 where
  pub valid : IsValid w
  pub known : x < w.next_id
  pub stands : StandsAt x j w
  pub ends : EndsBy x (suc j) 0 w
  pub started : 0 < w.last_ts

-- An entry that stands nowhere.
pub record Gone (x : ℕ) (w : TimingWheel) : Type 0 where
  pub valid : IsValid w
  pub known : x < w.next_id
  pub ends : EndsBy x 0 0 w
  pub started : 0 < w.last_ts

abbrev at : ℕ → TimingWheel → TimingWheel
at now w = record w { last_ts = now }

at-IsValid : (now : ℕ) {w : TimingWheel} → IsValid w → IsValid (at now w)
at-IsValid now v = record {
  length_seconds = v.length_seconds;
  length_minutes = v.length_minutes;
  length_hours = v.length_hours;
  length_days = v.length_days;
  known_seconds = v.known_seconds;
  known_minutes = v.known_minutes;
  known_hours = v.known_hours;
  known_days = v.known_days;
}

at-EndsBy : (now x s m : ℕ) {w : TimingWheel} → EndsBy x s m w → EndsBy x s m (at now w)
at-EndsBy now x s m e = record {
  seconds = e.seconds;
  minutes = e.minutes;
  hours = e.hours;
  days = e.days;
}

not_zero : (n : ℕ) → 0 < n → (n == 0) ≡ false
not_zero n h = ground arith

waits :
    (fuel now : ℕ) (w : TimingWheel)
    → 0 < w.last_ts
    → now < w.last_ts + 1000
    → on_timer fuel now w ≡ ok (w, [])
unfolding on_timer
waits fuel now w h below =
    rw (not_zero w.last_ts h, lt→ltb (now - w.last_ts) 1000 (omega arith)) refl

ticks :
    (fuel now : ℕ) (w : TimingWheel)
    → 0 < w.last_ts
    → w.last_ts + 1000 ≤ now
    → on_timer fuel now w ≡ on_tick fuel (at now w)
unfolding on_timer
ticks fuel now w h above = rw (not_zero w.last_ts h, late) refl
  where
    late : ltb (now - w.last_ts) 1000 ≡ false
    late = ground arith

-- A tick at a time: what stands in the wheels comes one slot nearer, or runs.
tick_at :
    (n now : ℕ) {w : TimingWheel}
    → IsValid w
    → 0 < w.last_ts
    → w.last_ts + 1000 ≤ now
    → (r : TimingWheel × List (ℕ × ℕ)) × (on_timer (suc n) now w ≡ ok r) × Ticked (at now w) r
tick_at n now {w} v h above =
    let (r, e, t) = on_tick_lem n (at-IsValid now v) in (r, ticks (suc n) now w h above ∙ e, t)

tick-Pending :
    (now x j : ℕ) {w : TimingWheel} {r : TimingWheel × List (ℕ × ℕ)}
    → Pending x (suc j) w
    → w.last_ts + 1000 ≤ now
    → Ticked (at now w) r
    → Pending x j r.0
tick-Pending now x j {w} {r} p above t = record {
  valid = t.valid;
  known = omega (arith, t.next_id, p.known);
  stands = tick-StandsAt x j {w = at now w} (t.moved x p.known) p.stands;
  ends = EndsBy-eq x r.0 (omega arith) (no_turn (turns_minutes (suc w.tick))) (
      tick-EndsBy x (suc (suc j)) 0 {w = at now w} (t.moved x p.known)
        (at-EndsBy now x (suc (suc j)) 0 p.ends));
  started = omega (arith, t.last_ts);
}

tick-Gone :
    (now x s : ℕ) {w : TimingWheel} {r : TimingWheel × List (ℕ × ℕ)}
    → x < w.next_id
    → EndsBy x s 0 w
    → s ≤ 1
    → w.last_ts + 1000 ≤ now
    → Ticked (at now w) r
    → Gone x r.0
tick-Gone now x s {w} {r} known ends small above t = record {
  valid = t.valid;
  known = omega (arith, t.next_id, known);
  ends =
      EndsBy-eq x r.0 (omega arith) (no_turn (turns_minutes (suc w.tick)))
        (tick-EndsBy x s 0 {w = at now w} (t.moved x known) (at-EndsBy now x s 0 ends));
  started = omega (arith, t.last_ts);
}
