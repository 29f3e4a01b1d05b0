-- ===== src/Timing/Delays/Kept.antt =====
-- How long `runAfter` keeps a timer (network/net/TimingWheel.cpp).
use turbo_multimedia_server.Common.{
  ℕ, suc, ◌-◌, ◌/◌, ◌%◌, ◌≡◌, refl, ◌≤◌, ◌<◌, inl, inr, true, false, List, [], drop, leb, ok, arith,
  Bool-cases, subst, not-leb→lt,
}
use turbo_multimedia_server.Timing.{
  once, Entry, TimingWheel, has, timing_minute, timing_hour, run_after, make_entry, made,
}
use turbo_multimedia_server.Timing.Marks.{marks, any, put}
use turbo_multimedia_server.Timing.State.{IsValid}
use turbo_multimedia_server.Timing.Release.{Later}
use turbo_multimedia_server.Timing.Timers.{
  run_ticks, StandsAt, EndsBy, EndsBy-has, run_ticks-StandsAt, StandsAt-has, run_ticks_runs,
  run_ticks-EndsBy, EndsBy-eq,
}
use turbo_multimedia_server.Timing.Release.{ran}
use turbo_multimedia_server.Timing.Delays.{
  drop_more, drop_none, insert_minutes_entry, insert_seconds_entry, no_marks, put-ends, put-stands,
  run_after_stored, with_minutes, with_seconds,
}

-- The slots of a new timer of less than an hour: at most slot 58 of either wheel.
minutes-EndsBy :
    (d f : ℕ) {w : TimingWheel}
    → IsValid w
    → timing_minute ≤ d
    → d < timing_hour
    → EndsBy w.next_id 59 59 (with_minutes d (make_entry (once f) w) (made w))
minutes-EndsBy d f {w} v l h = elim (Bool-cases (leb (d % timing_minute) 0)) [
  | inl z ↦ rw z (record {
    seconds = drop_none (marks x w.seconds) 59 fresh.seconds;
    minutes = minutes;
    hours = fresh.hours;
    days = fresh.days;
  })
  | inr z ↦ rw z (record {
    seconds =
        drop_more (marks x (put (d % timing_minute - 1) entry w.seconds))
          (suc (d % timing_minute - 1)) 59 (omega (arith, not-leb→lt _ _ z))
          (put-ends (d % timing_minute - 1) entry w.seconds fresh.seconds);
    minutes = minutes;
    hours = fresh.hours;
    days = fresh.days;
  })
]
  where
    x : ℕ
    x = w.next_id

    entry : Entry
    entry = make_entry (once f) w

    fresh : EndsBy x 0 0 w
    fresh = no_marks x v refl

    minutes : any (drop 59 (marks x (put (d / timing_minute - 1) entry w.minutes))) ≡ false
    minutes =
        drop_more (marks x (put (d / timing_minute - 1) entry w.minutes))
          (suc (d / timing_minute - 1)) 59 (omega arith)
          (put-ends (d / timing_minute - 1) entry w.minutes fresh.minutes)

-- Where a timer of less than a minute stands: in the slot of seconds before its delay, and in no other.
pub run_after-placed :
    (n d f : ℕ) {w : TimingWheel}
    → IsValid w
    → 0 < d
    → d < timing_minute
    → (w' : TimingWheel) × (run_after n d f w ≡ ok (w', []))
      × Later w w'
      × (w.next_id < w'.next_id)
      × StandsAt w.next_id (d - 1) w'
      × EndsBy w.next_id (suc (d - 1)) 0 w'
run_after-placed n d f {w} v l h =
    let (e, later) =
      run_after_stored n d f v (l, omega arith)
        (insert_seconds_entry d entry (made w) v.length_seconds l h) in
    (
      with_seconds d entry (made w),
      e,
      later,
      omega arith,
      put-stands (d - 1) entry w.seconds (omega (arith, v.length_seconds)),
      record {
        seconds = put-ends (d - 1) entry w.seconds fresh.seconds;
        minutes = fresh.minutes;
        hours = fresh.hours;
        days = fresh.days;
      },
    )
  where
    entry : Entry
    entry = make_entry (once f) w

    fresh : EndsBy w.next_id 0 0 w
    fresh = no_marks w.next_id v refl

-- A delay of less than a minute is kept to the second: in the ticks before, the timer is kept, and the
-- tick of that number runs it and drops it.
pub run_after_seconds :
    (n d f : ℕ) {w : TimingWheel}
    → IsValid w
    → 0 < d
    → d < timing_minute
    → (w' : TimingWheel) × (run_after n d f w ≡ ok (w', []))
      × ((k : ℕ)
          → k < d
          → (r : TimingWheel × List (ℕ × ℕ)) × (run_ticks (suc n) k w' ≡ ok r)
            × (has w.next_id r.0 ≡ true))
      × ((r : TimingWheel × List (ℕ × ℕ)) × (run_ticks (suc n) d w' ≡ ok r)
          × (ran w.next_id r.1 ≡ true)
          × (has w.next_id r.0 ≡ false))
run_after_seconds n d f {w} v l h =
    let x = w.next_id in
    let (w', started, later, known, stands, ends) = run_after-placed n d f v l h in
    (
      w',
      started,
      λ k below.
          let (r, e, _, s) =
            run_ticks-StandsAt n k x (d - 1 - k) later.valid known
              (subst (λ i. StandsAt x i w') (omega arith) stands) in
          (r, e, StandsAt-has x (d - 1 - k) r.0 s),
      subst
          (λ k.
            (r : TimingWheel × List (ℕ × ℕ)) × (run_ticks (suc n) k w' ≡ ok r)
            × (ran x r.1 ≡ true)
            × (has x r.0 ≡ false))
          {x = suc (d - 1)} (omega arith)
          (run_ticks_runs n (d - 1) x later.valid known stands ends),
    )

-- A delay of a minute or more, below an hour, is not kept: within 60 ticks no wheel has the timer any
-- more.
pub run_after_minutes :
    (n d f : ℕ) {w : TimingWheel}
    → IsValid w
    → timing_minute ≤ d
    → d < timing_hour
    → (w' : TimingWheel) × (r : TimingWheel × List (ℕ × ℕ)) × (run_after n d f w ≡ ok (w', []))
      × (run_ticks (suc n) 60 w' ≡ ok r)
      × (has w.next_id r.0 ≡ false)
run_after_minutes n d f {w} v l h =
    let (r, e, ends) =
      run_ticks-EndsBy n 60 w.next_id 59 59 started.1.valid (omega (arith, next))
        (minutes-EndsBy d f v l h) in
    (
      with_minutes d (make_entry (once f) w) (made w),
      r,
      started.0,
      e,
      EndsBy-has w.next_id r.0 (EndsBy-eq w.next_id r.0 (omega arith) (omega arith) ends),
    )
  where
    started :
        (run_after n d f w ≡ ok (with_minutes d (make_entry (once f) w) (made w), []))
        × Later w (with_minutes d (make_entry (once f) w) (made w))
    started =
        run_after_stored n d f v (omega arith, omega arith)
          (insert_minutes_entry d (make_entry (once f) w) (made w) v.length_seconds v.length_minutes
            l h)

    next : (with_minutes d (make_entry (once f) w) (made w)).next_id ≡ suc w.next_id
    next = ground arith
