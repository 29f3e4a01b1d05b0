-- ===== src/Timing/Tick/Whole.antt =====
-- One whole tick of the timing wheel (network/net/TimingWheel.cpp, `onTimer`).
use turbo_multimedia_server.Common.{
  ℕ, suc, ◌%◌, ◌≡◌, refl, ap, ◌∙◌, ◌≤◌, ◌<◌, inl, inr, Bool, true, false, not, List, [], ◌++◌, ◌==◌,
  if◌then◌else◌, ok, arith, Bool-cases,
}
use turbo_multimedia_server.Timing.{
  TimingWheel, timing_minute, timing_hour, timing_day, has, front, rotated, pop_coarse, on_tick,
}
use turbo_multimedia_server.Timing.Marks.{marks, any, turned, marks-rotated}
use turbo_multimedia_server.Timing.State.{IsValid, has-marks}
use turbo_multimedia_server.Timing.Release.{Later, called, ran, ran-append, ran-called_kept}
use turbo_multimedia_server.Timing.Tick.{
  pop_days_lem, pop_hours_lem, pop_minutes_lem, pop_seconds_lem,
}

-- Whether the wheel of minutes, hours or days turns at a tick.
abbrev pub turns_minutes : ℕ → Bool
turns_minutes t = not (t % timing_minute == 0)

abbrev pub turns_hours : ℕ → Bool
turns_hours t = if turns_minutes t then false else not (t % timing_hour == 0)

abbrev pub turns_days : ℕ → Bool
turns_days t =
    if turns_minutes t then false else if turns_hours t then false else not (t % timing_day == 0)

-- What a tick does to the marks of an entry that was there before.
pub record Moved (x : ℕ) (w w' : TimingWheel) : Type 0 where
  pub seconds : marks x w'.seconds ≡ turned (marks x w.seconds)
  pub minutes :
      marks x w'.minutes
      ≡ (if turns_minutes (suc w.tick) then turned (marks x w.minutes) else marks x w.minutes)
  pub hours :
      marks x w'.hours
      ≡ (if turns_hours (suc w.tick) then turned (marks x w.hours) else marks x w.hours)
  pub days :
      marks x w'.days
      ≡ (if turns_days (suc w.tick) then turned (marks x w.days) else marks x w.days)

-- The wheels as the front slot of seconds goes.
abbrev pub ticking : TimingWheel → TimingWheel
ticking w = record w { seconds = rotated w.seconds; tick = suc w.tick }

-- What a tick does; its callbacks begin with those of the front slot of seconds.
pub record Ticked (w : TimingWheel) (r : TimingWheel × List (ℕ × ℕ)) : Type 0 where
  pub valid : IsValid r.0
  pub moved : (x : ℕ) → x < w.next_id → Moved x w r.0
  pub next_id : w.next_id ≤ r.0.next_id
  pub tick : r.0.tick ≡ suc w.tick
  pub last_ts : r.0.last_ts ≡ w.last_ts
  pub silent : (x : ℕ) → x < w.next_id → any (turned (marks x w.seconds)) ≡ true → ran x r.1 ≡ false
  pub log : (rest : List (ℕ × ℕ)) × (r.1 ≡ called (ticking w) (front w.seconds) ++ rest)

-- The part of a tick behind the seconds.
record Coarse (w w' : TimingWheel) : Type 0 where
  valid : IsValid w'
  seconds : (x : ℕ) → x < w.next_id → marks x w'.seconds ≡ marks x w.seconds
  minutes :
      (x : ℕ)
      → x < w.next_id
      → marks x w'.minutes
        ≡ (if turns_minutes w.tick then turned (marks x w.minutes) else marks x w.minutes)
  hours :
      (x : ℕ)
      → x < w.next_id
      → marks x w'.hours
        ≡ (if turns_hours w.tick then turned (marks x w.hours) else marks x w.hours)
  days :
      (x : ℕ)
      → x < w.next_id
      → marks x w'.days ≡ (if turns_days w.tick then turned (marks x w.days) else marks x w.days)
  next_id : w.next_id ≤ w'.next_id
  tick : w'.tick ≡ w.tick
  last_ts : w'.last_ts ≡ w.last_ts

Coarse-minutes :
    (w w' : TimingWheel)
    → Later (record w { minutes = rotated w.minutes }) w'
    → turns_minutes w.tick ≡ true
    → turns_hours w.tick ≡ false
    → turns_days w.tick ≡ false
    → Coarse w w'
Coarse-minutes w w' l em eh ed = record {
  valid = l.valid;
  seconds = λ x h. (l.older x h).seconds;
  minutes = λ x h. rw em ((l.older x h).minutes ∙ marks-rotated x w.minutes);
  hours = λ x h. rw eh ((l.older x h).hours);
  days = λ x h. rw ed ((l.older x h).days);
  next_id = l.next_id;
  tick = l.tick;
  last_ts = l.last_ts;
}

Coarse-hours :
    (w w' : TimingWheel)
    → Later (record w { hours = rotated w.hours }) w'
    → turns_minutes w.tick ≡ false
    → turns_hours w.tick ≡ true
    → turns_days w.tick ≡ false
    → Coarse w w'
Coarse-hours w w' l em eh ed = record {
  valid = l.valid;
  seconds = λ x h. (l.older x h).seconds;
  minutes = λ x h. rw em ((l.older x h).minutes);
  hours = λ x h. rw eh ((l.older x h).hours ∙ marks-rotated x w.hours);
  days = λ x h. rw ed ((l.older x h).days);
  next_id = l.next_id;
  tick = l.tick;
  last_ts = l.last_ts;
}

Coarse-days :
    (w w' : TimingWheel)
    → Later (record w { days = rotated w.days }) w'
    → turns_minutes w.tick ≡ false
    → turns_hours w.tick ≡ false
    → turns_days w.tick ≡ true
    → Coarse w w'
Coarse-days w w' l em eh ed = record {
  valid = l.valid;
  seconds = λ x h. (l.older x h).seconds;
  minutes = λ x h. rw em ((l.older x h).minutes);
  hours = λ x h. rw eh ((l.older x h).hours);
  days = λ x h. rw ed ((l.older x h).days ∙ marks-rotated x w.days);
  next_id = l.next_id;
  tick = l.tick;
  last_ts = l.last_ts;
}

Coarse-none :
    (w : TimingWheel)
    → turns_minutes w.tick ≡ false
    → turns_hours w.tick ≡ false
    → turns_days w.tick ≡ false
    → IsValid w
    → Coarse w w
Coarse-none w em eh ed v = record {
  valid = v;
  seconds = λ x h. refl;
  minutes = λ x h. rw em;
  hours = λ x h. rw eh;
  days = λ x h. rw ed;
  next_id = omega arith;
  tick = refl;
  last_ts = refl;
}

-- An entry of the wheel of seconds is in the wheels.
seconds-has : (x : ℕ) (w : TimingWheel) → any (marks x w.seconds) ≡ true → has x w ≡ true
seconds-has x w there = rw (has-marks x w, there)

pop_coarse_lem :
    (n : ℕ) {w : TimingWheel}
    → IsValid w
    → (w' : TimingWheel) × (log : List (ℕ × ℕ)) × (pop_coarse (suc n) w ≡ ok (w', log))
      × Coarse w w'
      × ((x : ℕ) → any (marks x w.seconds) ≡ true → ran x log ≡ false)
unfolding pop_coarse
pop_coarse_lem n {w} v = elim (Bool-cases (w.tick % timing_minute == 0)) [
  | inr m ↦
      let (w', e, l) = pop_minutes_lem n v in
      (
        w',
        called (record w { minutes = rotated w.minutes }) (front w.minutes),
        rw (m, e),
        Coarse-minutes w w' l (rw m) (rw m) (rw m),
        λ x there.
            ran-called_kept x (record w { minutes = rotated w.minutes }) _
              (seconds-has x (record w { minutes = rotated w.minutes }) there),
      )
  | inl m ↦ elim (Bool-cases (w.tick % timing_hour == 0)) [
    | inr h ↦
        let (w', e, l) = pop_hours_lem n v in
        (
          w',
          called (record w { hours = rotated w.hours }) (front w.hours),
          rw (m, h, e),
          Coarse-hours w w' l (rw m) (rw (m, h)) (rw (m, h)),
          λ x there.
              ran-called_kept x (record w { hours = rotated w.hours }) _
                (seconds-has x (record w { hours = rotated w.hours }) there),
        )
    | inl h ↦ elim (Bool-cases (w.tick % timing_day == 0)) [
      | inr d ↦
          let (w', e, l) = pop_days_lem n v in
          (
            w',
            called (record w { days = rotated w.days }) (front w.days),
            rw (m, h, d, e),
            Coarse-days w w' l (rw m) (rw (m, h)) (rw (m, h, d)),
            λ x there.
                ran-called_kept x (record w { days = rotated w.days }) _
                  (seconds-has x (record w { days = rotated w.days }) there),
          )
      | inl d ↦
          (w, [], rw (m, h, d), Coarse-none w (rw m) (rw (m, h)) (rw (m, h, d)) v, λ x there. refl)
    ]
  ]
]

tick-IsValid : {w : TimingWheel} → IsValid w → IsValid (record w { tick = suc w.tick })
tick-IsValid v = record {
  length_seconds = v.length_seconds;
  length_minutes = v.length_minutes;
  length_hours = v.length_hours;
  length_days = v.length_days;
  known_seconds = v.known_seconds;
  known_minutes = v.known_minutes;
  known_hours = v.known_hours;
  known_days = v.known_days;
}

Moved-Coarse :
    (x : ℕ) (w w₁ w₂ : TimingWheel)
    → Later (ticking w) w₁
    → Coarse w₁ w₂
    → x < w.next_id
    → Moved x w w₂
Moved-Coarse x w w₁ w₂ l c h =
    let older = l.older x h in
    let newer : x < w₁.next_id = omega (arith, l.next_id) in
    record {
      seconds = c.seconds x newer ∙ older.seconds ∙ marks-rotated x w.seconds;
      minutes = c.minutes x newer ∙ rw (l.tick, older.minutes);
      hours = c.hours x newer ∙ rw (l.tick, older.hours);
      days = c.days x newer ∙ rw (l.tick, older.days);
    }

-- A tick ends, keeps the wheels well formed, and moves every entry that stood in them by a slot in each
-- wheel that turns.
pub on_tick_lem :
    (n : ℕ) {w : TimingWheel}
    → IsValid w
    → (r : TimingWheel × List (ℕ × ℕ)) × (on_tick (suc n) w ≡ ok r) × Ticked w r
unfolding on_tick
on_tick_lem n {w} v =
    let (w₁, e₁, l) = pop_seconds_lem n (tick-IsValid v) in
    let (w₂, log, e₂, c, quiet) = pop_coarse_lem n l.valid in
    (
      _,
      rw (e₁, e₂),
      record {
        valid = c.valid;
        moved = λ x h. Moved-Coarse x w w₁ w₂ l c h;
        next_id = omega (arith, l.next_id, c.next_id);
        tick = c.tick ∙ l.tick;
        last_ts = c.last_ts ∙ l.last_ts;
        silent = λ x h there.
            let turned_has = ap any (marks-rotated x w.seconds) ∙ there in
            ran-append x (called (ticking w) (front w.seconds)) log
            ∙ rw
                (
                  ran-called_kept x (ticking w) (front w.seconds)
                      (seconds-has x (ticking w) turned_has),
                  quiet x (ap any ((l.older x h).seconds) ∙ turned_has),
                )
                refl;
        log = (log, refl);
      },
    )
