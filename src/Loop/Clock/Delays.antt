-- ===== src/Loop/Clock/Delays.antt =====
-- The delay that `runAfter` in the loop's thread keeps (network/net/EventLoop.cpp, `loop` and `runAfter`).
use turbo_multimedia_server.Common.{
  ℕ, suc, ◌+◌, ◌*◌, ◌-◌, ◌≡◌, refl, sym, ap, ◌∙◌, ◌≤◌, ◌<◌, true, false, List, [], ◌++◌, append-nil,
  ok, arith, subst,
}
use turbo_multimedia_server.Timing.{TimingWheel, timing_minute, has, run_after}
use turbo_multimedia_server.Timing.State.{IsValid}
use turbo_multimedia_server.Timing.Release.{ran}
use turbo_multimedia_server.Timing.Times.{Pending}
use turbo_multimedia_server.Timing.Times.Runs.{
  Before, Steady, last_time, run_timers-keeps, run_timers-runs,
}
use turbo_multimedia_server.Timing.Delays.Kept.{run_after-placed}
use turbo_multimedia_server.Loop.{Call, EventLoop, after_in_loop}
use turbo_multimedia_server.Loop.Clock.{Turn, times, loop, loop_timers}

-- A new timer stands in the slot of seconds before its delay.
set_timer :
    (n d f : ℕ) {w : TimingWheel}
    → IsValid w
    → 0 < w.last_ts
    → 0 < d
    → d < timing_minute
    → (w' : TimingWheel) × (run_after n d f w ≡ ok (w', []))
      × Pending w.next_id (d - 1) w'
      × (w'.last_ts ≡ w.last_ts)
set_timer n d f v s p h =
    let (w', e, later, known, stands, ends) = run_after-placed n d f v p h in
    (
      w',
      e,
      record {
        valid = later.valid;
        known = known;
        stands = stands;
        ends = ends;
        started = omega (arith, later.last_ts);
      },
      later.last_ts,
    )

module _ (effect : Call → EventLoop → EventLoop)
    (wheel_kept : (c : Call) (l : EventLoop) → (effect c l).timing_wheel ≡ l.timing_wheel)
    (fired_kept : (c : Call) (l : EventLoop) → (effect c l).fired ≡ l.fired) where
  -- A timer of less than a minute that the loop's thread sets is kept, not run, by the rounds whose times
  -- are less than its delay behind the last tick, if the handlers and functions leave the timers alone: it is in the wheels still, and is not among the callbacks that were called.
  pub loop-keeps_timer :
      (n d f : ℕ) (ts : List Turn) (l : EventLoop)
      → IsValid l.timing_wheel
      → 0 < l.timing_wheel.last_ts
      → 0 < d
      → d < timing_minute
      → Before (l.timing_wheel.last_ts + 1000 * d) (times ts)
      → (l₁ : EventLoop) × (l₂ : EventLoop) × (log : List (ℕ × ℕ)) × (after_in_loop (suc n) d f l
          ≡ ok l₁)
        × (loop effect (suc n) ts l₁ ≡ ok l₂)
        × (has l.timing_wheel.next_id l₂.timing_wheel ≡ true)
        × (l₂.fired ≡ l.fired ++ log)
        × (ran l.timing_wheel.next_id log ≡ false)
  unfolding after_in_loop
  loop-keeps_timer n d f ts l v s p h before =
      let x = l.timing_wheel.next_id in
      let (w, e, pending, same) = set_timer (suc n) d f v s p h in
      let (r, e₁, there, silent) =
        run_timers-keeps n x (d - 1) (times ts) pending
          (subst (λ t. Before t (times ts)) (omega (arith, same)) before) in
      let l₁ : EventLoop = record l { timing_wheel = w; fired = l.fired ++ [] } in
      let (l₂, e₂, wheel, fired) = loop_timers effect wheel_kept fired_kept (suc n) ts l₁ e₁ in
      (
        l₁,
        l₂,
        r.1,
        rw e refl,
        e₂,
        ap (λ u. has x u) wheel ∙ there,
        fired ∙ ap (λ q. q ++ r.1) (append-nil l.fired),
        silent,
      )

  -- A timer of less than a minute that the loop's thread sets has been run, and dropped, once the rounds
  -- come to a time that is as many times a second and a gap behind the last tick as its delay has seconds,
  -- where no round that calls the timing wheel comes more than the gap behind the one before, and if the
  -- handlers and functions leave the timers alone.
  pub loop-runs_timer :
      (n d f gap t : ℕ) (ts : List Turn) (l : EventLoop)
      → IsValid l.timing_wheel
      → 0 < l.timing_wheel.last_ts
      → 0 < d
      → d < timing_minute
      → t < l.timing_wheel.last_ts + 1000
      → Steady gap t (times ts)
      → l.timing_wheel.last_ts + d * (1000 + gap) ≤ last_time t (times ts)
      → (l₁ : EventLoop) × (l₂ : EventLoop) × (log : List (ℕ × ℕ)) × (after_in_loop (suc n) d f l
          ≡ ok l₁)
        × (loop effect (suc n) ts l₁ ≡ ok l₂)
        × (l₂.fired ≡ l.fired ++ log)
        × (ran l.timing_wheel.next_id log ≡ true)
        × (has l.timing_wheel.next_id l₂.timing_wheel ≡ false)
  unfolding after_in_loop
  loop-runs_timer n d f gap t ts l v s p h recent steady reached =
      let x = l.timing_wheel.next_id in
      let (w, e, pending, same) = set_timer (suc n) d f v s p h in
      let (r, e₁, runs, gone) =
        run_timers-runs n x gap t (d - 1) (times ts) pending (omega (arith, same, recent)) steady (
          subst (λ q. q ≤ last_time t (times ts))
            (ap (λ q. q + d * (1000 + gap)) (sym same)
              ∙ ap (λ k. w.last_ts + k * (1000 + gap)) (omega arith))
            reached) in
      let l₁ : EventLoop = record l { timing_wheel = w; fired = l.fired ++ [] } in
      let (l₂, e₂, wheel, fired) = loop_timers effect wheel_kept fired_kept (suc n) ts l₁ e₁ in
      (
        l₁,
        l₂,
        r.1,
        rw e refl,
        e₂,
        fired ∙ ap (λ q. q ++ r.1) (append-nil l.fired),
        runs,
        ap (λ u. has x u) wheel ∙ gone,
      )
