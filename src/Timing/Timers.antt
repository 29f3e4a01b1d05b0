-- ===== src/Timing/Timers.antt =====
-- When a timer runs: ticks of the wheel, one after another (network/net/TimingWheel.cpp).
use turbo_multimedia_server.Common.{
  ℕ, zero, suc, ◌+◌, ◌-◌, ◌/◌, ◌≡◌, refl, ap, ◌∙◌, ◌<◌, inl, inr, Bool, true, false, ◌||◌, List, [],
  ◌∷◌, ◌++◌, append-nil, drop, get_or, ◌==◌, if◌then◌else◌, ok, ◌>>=◌, arith, Bool-cases, ==_iff,
  subst,
}
use native.Mathlib.Nat.{zero-add, suc-add}
use turbo_multimedia_server.Timing.{
  Slot, Wheel, TimingWheel, Step, slot_has, has, timing_minute, front, on_tick,
}
use turbo_multimedia_server.Timing.Marks.{marks, any, turned, marks-rotated}
use turbo_multimedia_server.Timing.State.{IsValid, has-marks}
use turbo_multimedia_server.Timing.Release.{called, ran, ran-append}
use turbo_multimedia_server.Timing.Tick.Whole.{
  Moved, Ticked, ticking, turns_minutes, turns_hours, turns_days, on_tick_lem,
}

-- `k` ticks; what they call is put together.
pub run_ticks : ℕ → ℕ → TimingWheel → Step
run_ticks fuel zero w = ok (w, [])
run_ticks fuel (suc k) w =
    on_tick fuel w >>= λ r. run_ticks fuel k r.0 >>= λ r'. ok (r'.0, r.1 ++ r'.1)

get_or-append_false :
    (bs : List Bool) (j : ℕ) → get_or (bs ++ (false ∷ [])) j false ≡ get_or bs j false
get_or-append_false [] zero = refl
get_or-append_false [] (suc j) = refl
get_or-append_false (b ∷ bs) zero = refl
get_or-append_false (b ∷ bs) (suc j) = get_or-append_false bs j

pub get_or-turned : (ms : List Bool) (j : ℕ) → get_or (turned ms) j false ≡ get_or ms (suc j) false
get_or-turned [] zero = refl
get_or-turned [] (suc j) = refl
get_or-turned (b ∷ bs) j = get_or-append_false bs j

any-drop_append_false :
    (bs : List Bool) (n : ℕ) → any (drop n (bs ++ (false ∷ []))) ≡ any (drop n bs)
any-drop_append_false [] zero = refl
any-drop_append_false [] (suc zero) = refl
any-drop_append_false [] (suc (suc n)) = refl
any-drop_append_false (b ∷ bs) zero = ap (λ c. b || c) (any-drop_append_false bs zero)
any-drop_append_false (b ∷ bs) (suc n) = any-drop_append_false bs n

any-drop-turned : (ms : List Bool) (n : ℕ) → any (drop n (turned ms)) ≡ any (drop (suc n) ms)
any-drop-turned [] zero = refl
any-drop-turned [] (suc zero) = refl
any-drop-turned [] (suc (suc n)) = refl
any-drop-turned (b ∷ bs) n = any-drop_append_false bs n

any-drop-suc : (ms : List Bool) (n : ℕ) → any (drop n ms) ≡ false → any (drop (suc n) ms) ≡ false
any-drop-suc [] zero h = refl
any-drop-suc [] (suc n) h = refl
any-drop-suc (b ∷ bs) zero h = ground arith
any-drop-suc (b ∷ bs) (suc n) h = any-drop-suc bs n h

pub any_of_get_or : (ms : List Bool) (j : ℕ) → get_or ms j false ≡ true → any ms ≡ true
any_of_get_or [] j h = cc
any_of_get_or (b ∷ bs) zero h = rw h
any_of_get_or (b ∷ bs) (suc j) h = rw (any_of_get_or bs j h) (ground arith)

-- An entry stands in slot `j` of the wheel of seconds.
abbrev pub StandsAt : ℕ → ℕ → TimingWheel → Type 0
StandsAt x j w = get_or (marks x w.seconds) j false ≡ true

pub StandsAt-has : (x j : ℕ) (w : TimingWheel) → StandsAt x j w → has x w ≡ true
StandsAt-has x j w h = rw (has-marks x w, any_of_get_or (marks x w.seconds) j h)

-- No slot of seconds from `s` on, and of minutes from `m` on, has the entry, and no other slot.
pub record EndsBy (x s m : ℕ) (w : TimingWheel) : Type 0 where
  pub seconds : any (drop s (marks x w.seconds)) ≡ false
  pub minutes : any (drop m (marks x w.minutes)) ≡ false
  pub hours : any (marks x w.hours) ≡ false
  pub days : any (marks x w.days) ≡ false

pub EndsBy-has : (x : ℕ) (w : TimingWheel) → EndsBy x 0 0 w → has x w ≡ false
EndsBy-has x w e = rw (has-marks x w, e.seconds, e.minutes, e.hours, e.days)

pub EndsBy-eq :
    (x : ℕ) {s s' m m' : ℕ} (w : TimingWheel) → s ≡ s' → m ≡ m' → EndsBy x s m w → EndsBy x s' m' w
EndsBy-eq x w p q e = record {
  seconds = subst (λ k. any (drop k (marks x w.seconds)) ≡ false) p e.seconds;
  minutes = subst (λ k. any (drop k (marks x w.minutes)) ≡ false) q e.minutes;
  hours = e.hours;
  days = e.days;
}

pub no_turn : (b : Bool) → (if b then 0 - 1 else 0) ≡ 0
no_turn true = refl
no_turn false = refl

ran-called :
    (x : ℕ) (w : TimingWheel) (es : Slot)
    → slot_has x es ≡ true
    → has x w ≡ false
    → ran x (called w es) ≡ true
ran-called x w [] h n = cc
ran-called x w (e ∷ es) h n = elim (Bool-cases (e.id == x)) [
  | inl here ↦ rw (ap (λ y. has y w) ((==_iff e.id x).0 here) ∙ n) (rw here)
  | inr other ↦
      let rest = ran-called x w es (ground arith) n in
      elim (Bool-cases (has e.id w)) [
        | inl old ↦ rw (old, rest)
        | inr gone ↦ rw (gone, other, rest)
      ]
]

-- A tick brings an entry one slot nearer.
pub tick-StandsAt :
    (x j : ℕ) {w w' : TimingWheel} → Moved x w w' → StandsAt x (suc j) w → StandsAt x j w'
tick-StandsAt x j {w} m h = rw m.seconds (get_or-turned (marks x w.seconds) j ∙ h)

any-drop_turn :
    (ms : List Bool) (m : ℕ) → any (drop m ms) ≡ false → any (drop (m - 1) (turned ms)) ≡ false
any-drop_turn ms zero h = any-drop-turned ms 0 ∙ any-drop-suc ms 0 h
any-drop_turn ms (suc m) h =
    subst (λ k. any (drop k (turned ms)) ≡ false) {x = m} (omega arith) (any-drop-turned ms m ∙ h)

any-drop_turn_if :
    (b : Bool) (ms : List Bool) (m : ℕ)
    → any (drop m ms) ≡ false
    → any (drop (if b then m - 1 else m) (if b then turned ms else ms)) ≡ false
any-drop_turn_if true ms m h = any-drop_turn ms m h
any-drop_turn_if false ms m h = h

any-turn_if :
    (b : Bool) (ms : List Bool) → any ms ≡ false → any (if b then turned ms else ms) ≡ false
any-turn_if true ms h = any-drop_turn ms 0 h
any-turn_if false ms h = h

pub tick-EndsBy :
    (x s m : ℕ) {w w' : TimingWheel}
    → Moved x w w'
    → EndsBy x s m w
    → EndsBy x (s - 1) (if turns_minutes (suc w.tick) then m - 1 else m) w'
tick-EndsBy x s m {w} v e = record {
  seconds = rw v.seconds (any-drop_turn (marks x w.seconds) s e.seconds);
  minutes =
      rw v.minutes (any-drop_turn_if (turns_minutes (suc w.tick)) (marks x w.minutes) m e.minutes);
  hours = rw v.hours (any-turn_if (turns_hours (suc w.tick)) (marks x w.hours) e.hours);
  days = rw v.days (any-turn_if (turns_days (suc w.tick)) (marks x w.days) e.days);
}

-- An entry is kept until the tick that pops its slot of seconds, whatever other timers do.
pub run_ticks-StandsAt :
    (n k x j : ℕ) {w : TimingWheel}
    → IsValid w
    → x < w.next_id
    → StandsAt x (k + j) w
    → (r : TimingWheel × List (ℕ × ℕ)) × (run_ticks (suc n) k w ≡ ok r)
      × IsValid r.0
      × StandsAt x j r.0
unfolding run_ticks
run_ticks-StandsAt n zero x j {w} v h s =
    ((w, []), refl, v, subst (λ i. StandsAt x i w) (zero-add j) s)
run_ticks-StandsAt n (suc k) x j {w} v h s =
    let (r, e, t) = on_tick_lem n v in
    let (r', e', v', s') =
      run_ticks-StandsAt n k x j t.valid (omega (arith, t.next_id))
        (tick-StandsAt x (k + j) (t.moved x h) (subst (λ i. StandsAt x i w) (suc-add k j) s)) in
    ((r'.0, r.1 ++ r'.1), rw (e, e'), v', s')

front_has :
    (x : ℕ) (wheel : Wheel)
    → get_or (marks x wheel) 0 false ≡ true
    → slot_has x (front wheel) ≡ true
front_has x [] h = cc
front_has x (s ∷ ss) h = h

-- The tick that pops the only slot that an entry stands in runs it.
pub tick_runs :
    (x : ℕ) {w : TimingWheel} {r : TimingWheel × List (ℕ × ℕ)}
    → Ticked w r
    → StandsAt x 0 w
    → EndsBy x 1 0 w
    → ran x r.1 ≡ true
tick_runs x {w} {r} t s e =
    let (rest, log) = t.log in
    rw (
      log,
      ran-append x (called (ticking w) (front w.seconds)) rest,
      ran-called x (ticking w) (front w.seconds) (front_has x w.seconds s) gone,
    )
  where
    gone : has x (ticking w) ≡ false
    gone = EndsBy-has x (ticking w) (record {
      seconds = rw (marks-rotated x w.seconds) (any-drop_turn (marks x w.seconds) 1 e.seconds);
      minutes = e.minutes;
      hours = e.hours;
      days = e.days;
    })

-- An entry that stands in slot `j` of the seconds and in no other runs in the tick `j + 1`, and is gone.
pub run_ticks_runs :
    (n j x : ℕ) {w : TimingWheel}
    → IsValid w
    → x < w.next_id
    → StandsAt x j w
    → EndsBy x (suc j) 0 w
    → (r : TimingWheel × List (ℕ × ℕ)) × (run_ticks (suc n) (suc j) w ≡ ok r)
      × (ran x r.1 ≡ true)
      × (has x r.0 ≡ false)
unfolding run_ticks
run_ticks_runs n zero x {w} v h s e =
    let (r, eq, t) = on_tick_lem n v in
    let ends = tick-EndsBy x 1 0 (t.moved x h) e in
    (
      (r.0, r.1 ++ []),
      rw eq,
      rw append-nil (tick_runs x t s e),
      EndsBy-has x r.0 (EndsBy-eq x r.0 (omega arith) (no_turn (turns_minutes (suc w.tick))) ends),
    )
run_ticks_runs n (suc j) x {w} v h s e =
    let (r, eq, t) = on_tick_lem n v in
    let ends = tick-EndsBy x (suc (suc j)) 0 (t.moved x h) e in
    let (r', eq', runs, gone) =
      run_ticks_runs n j x t.valid (omega (arith, t.next_id)) (tick-StandsAt x j (t.moved x h) s)
        (EndsBy-eq x r.0 (omega arith) (no_turn (turns_minutes (suc w.tick))) ends) in
    ((r'.0, r.1 ++ r'.1), rw (eq, eq'), rw (ran-append x r.1 r'.1, runs) (ground arith), gone)

-- How often the wheel of minutes turns in `k` ticks behind tick `t`: at every tick but the multiples of
-- 60.
abbrev pub minute_turns : ℕ → ℕ → ℕ
minute_turns t k = k - ((t + k) / timing_minute - t / timing_minute)

turns_step :
    (m t k : ℕ)
    → (if turns_minutes (suc t) then m - 1 else m) - minute_turns (suc t) k
      ≡ m - minute_turns t (suc k)
turns_step m t k = ground arith

-- Every slot that an entry may stand in comes nearer with each tick.
pub run_ticks-EndsBy :
    (n k x s m : ℕ) {w : TimingWheel}
    → IsValid w
    → x < w.next_id
    → EndsBy x s m w
    → (r : TimingWheel × List (ℕ × ℕ)) × (run_ticks (suc n) k w ≡ ok r)
      × EndsBy x (s - k) (m - minute_turns w.tick k) r.0
unfolding run_ticks
run_ticks-EndsBy n zero x s m {w} v h e =
    ((w, []), refl, EndsBy-eq x w (omega arith) (omega arith) e)
run_ticks-EndsBy n (suc k) x s m {w} v h e =
    let (r, eq, t) = on_tick_lem n v in
    let (r', eq', e') =
      run_ticks-EndsBy n k x (s - 1) _ t.valid (omega (arith, t.next_id))
        (tick-EndsBy x s m (t.moved x h) e) in
    (
      (r'.0, r.1 ++ r'.1),
      rw (eq, eq'),
      EndsBy-eq x r'.0 (omega arith)
          (ap (λ u. (if turns_minutes (suc w.tick) then m - 1 else m) - minute_turns u k) t.tick
            ∙ turns_step m w.tick k)
          e',
    )
