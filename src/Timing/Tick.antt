-- ===== src/Timing/Tick.antt =====
-- One second of the timing wheel (network/net/TimingWheel.cpp, `popUp` and `onTimer`).
pub mod Whole
use turbo_multimedia_server.Common.{
  ℕ, suc, ◌%◌, ◌≡◌, refl, ◌∙◌, ◌≤◌, ◌<◌, inl, inr, Bool, true, false, not, List, [], ◌∷◌, ◌++◌,
  length, length-append, ◌==◌, if◌then◌else◌, ok, arith, Bool-cases,
}
use turbo_multimedia_server.Timing.{
  Wheel, TimingWheel, timing_minute, timing_hour, timing_day, front, rotated, pop_seconds,
  pop_minutes, pop_hours, pop_days, pop_coarse, on_tick,
}
use turbo_multimedia_server.Timing.Marks.{marks, turned, marks-rotated, rotated-Known, front-Known}
use turbo_multimedia_server.Timing.State.{IsValid}
use turbo_multimedia_server.Timing.Release.{Later, called, release_lem}

length-rotated : (n : ℕ) (wheel : Wheel) → length wheel ≡ suc n → length (rotated wheel) ≡ suc n
length-rotated n [] h = absurd (omega arith)
length-rotated n (s ∷ ss) h = omega (arith, length-append ss ([] ∷ []))

rotate_seconds-IsValid :
    {w : TimingWheel} → IsValid w → IsValid (record w { seconds = rotated w.seconds })
rotate_seconds-IsValid {w} v = record {
  length_seconds = length-rotated 59 w.seconds v.length_seconds;
  length_minutes = v.length_minutes;
  length_hours = v.length_hours;
  length_days = v.length_days;
  known_seconds = rotated-Known w.next_id w.seconds v.known_seconds;
  known_minutes = v.known_minutes;
  known_hours = v.known_hours;
  known_days = v.known_days;
}

pub pop_seconds_lem :
    (n : ℕ) {w : TimingWheel}
    → IsValid w
    → let turning = record w { seconds = rotated w.seconds } in
      (w' : TimingWheel) × (pop_seconds (suc n) w ≡ ok (w', called turning (front w.seconds)))
      × Later turning w'
unfolding pop_seconds
pop_seconds_lem n {w} v =
    release_lem n (front w.seconds) (rotate_seconds-IsValid v)
      (front-Known w.next_id w.seconds v.known_seconds)

rotate_minutes-IsValid :
    {w : TimingWheel} → IsValid w → IsValid (record w { minutes = rotated w.minutes })
rotate_minutes-IsValid {w} v = record {
  length_seconds = v.length_seconds;
  length_minutes = length-rotated 59 w.minutes v.length_minutes;
  length_hours = v.length_hours;
  length_days = v.length_days;
  known_seconds = v.known_seconds;
  known_minutes = rotated-Known w.next_id w.minutes v.known_minutes;
  known_hours = v.known_hours;
  known_days = v.known_days;
}

pub pop_minutes_lem :
    (n : ℕ) {w : TimingWheel}
    → IsValid w
    → let turning = record w { minutes = rotated w.minutes } in
      (w' : TimingWheel) × (pop_minutes (suc n) w ≡ ok (w', called turning (front w.minutes)))
      × Later turning w'
unfolding pop_minutes
pop_minutes_lem n {w} v =
    release_lem n (front w.minutes) (rotate_minutes-IsValid v)
      (front-Known w.next_id w.minutes v.known_minutes)

rotate_hours-IsValid :
    {w : TimingWheel} → IsValid w → IsValid (record w { hours = rotated w.hours })
rotate_hours-IsValid {w} v = record {
  length_seconds = v.length_seconds;
  length_minutes = v.length_minutes;
  length_hours = length-rotated 23 w.hours v.length_hours;
  length_days = v.length_days;
  known_seconds = v.known_seconds;
  known_minutes = v.known_minutes;
  known_hours = rotated-Known w.next_id w.hours v.known_hours;
  known_days = v.known_days;
}

pub pop_hours_lem :
    (n : ℕ) {w : TimingWheel}
    → IsValid w
    → let turning = record w { hours = rotated w.hours } in
      (w' : TimingWheel) × (pop_hours (suc n) w ≡ ok (w', called turning (front w.hours)))
      × Later turning w'
unfolding pop_hours
pop_hours_lem n {w} v =
    release_lem n (front w.hours) (rotate_hours-IsValid v)
      (front-Known w.next_id w.hours v.known_hours)

rotate_days-IsValid : {w : TimingWheel} → IsValid w → IsValid (record w { days = rotated w.days })
rotate_days-IsValid {w} v = record {
  length_seconds = v.length_seconds;
  length_minutes = v.length_minutes;
  length_hours = v.length_hours;
  length_days = length-rotated 29 w.days v.length_days;
  known_seconds = v.known_seconds;
  known_minutes = v.known_minutes;
  known_hours = v.known_hours;
  known_days = rotated-Known w.next_id w.days v.known_days;
}

-- Popping a wheel turns it; the callbacks are those of the entries of its front slot that no slot has
-- any more.
pub pop_days_lem :
    (n : ℕ) {w : TimingWheel}
    → IsValid w
    → let turning = record w { days = rotated w.days } in
      (w' : TimingWheel) × (pop_days (suc n) w ≡ ok (w', called turning (front w.days)))
      × Later turning w'
unfolding pop_days
pop_days_lem n {w} v =
    release_lem n (front w.days) (rotate_days-IsValid v) (front-Known w.next_id w.days v.known_days)
