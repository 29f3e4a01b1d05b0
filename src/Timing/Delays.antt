-- ===== src/Timing/Delays.antt =====
-- `TimingWheel::runAfter` (network/net/TimingWheel.cpp): when the callback of a delay runs.
pub mod Kept
use turbo_multimedia_server.Common.{
  ℕ, zero, suc, ◌-◌, ◌/◌, ◌%◌, ◌≡◌, refl, sym, ◌∙◌, ◌≤◌, ◌<◌, inl, inr, Bool, true, false, List, [],
  ◌∷◌, length, drop, get_or, set, leb, if◌then◌else◌, Result, ok, ok_inj, arith, Bool-cases, subst,
  lt→ltb, ltb_le, lt→not-leb, le→leb, leb→le, not-leb→lt,
}
use turbo_multimedia_server.Timing.{
  once, Entry, Wheel, TimingWheel, has, timing_minute, timing_hour, insert_second_entry,
  insert_minute_entry, insert_with, insert_fuel, insert_entry, run_after, make_entry, made,
}
use turbo_multimedia_server.Timing.Marks.{
  marks, any, put, insert_at-put, marks-put_self, length-marks, wheel_has-marks, IsStorable,
}
use turbo_multimedia_server.Timing.State.{IsValid}
use turbo_multimedia_server.Timing.Release.{Later, insert_made, wheel_has_new}
use turbo_multimedia_server.Timing.Timers.{
  run_ticks, StandsAt, EndsBy, EndsBy-has, run_ticks-StandsAt, StandsAt-has, run_ticks_runs,
  run_ticks-EndsBy, EndsBy-eq,
}
use turbo_multimedia_server.Timing.Release.{ran}

-- The wheels behind `insertEntry` with a delay below a minute, and below an hour.
abbrev pub with_seconds : ℕ → Entry → TimingWheel → TimingWheel
with_seconds d e w = record w { seconds = put (d - 1) e w.seconds }

abbrev pub with_minutes : ℕ → Entry → TimingWheel → TimingWheel
with_minutes d e w =
    let w' : TimingWheel = record w { minutes = put (d / timing_minute - 1) e w.minutes } in
    if leb (d % timing_minute) 0 then w' else with_seconds (d % timing_minute) e w'

insert_seconds :
    (n d : ℕ) (e : Entry) (w : TimingWheel)
    → length w.seconds ≡ 60
    → 0 < d
    → d < timing_minute
    → insert_fuel (suc n) d e w ≡ ok (with_seconds d e w)
unfolding insert_fuel insert_with insert_second_entry
insert_seconds n d e w size l h =
    rw (lt→not-leb _ _ l, lt→ltb _ _ h, insert_at-put (d - 1) e w.seconds (omega arith))

insert_none : (n d : ℕ) (e : Entry) (w : TimingWheel) → d ≤ 0 → insert_fuel (suc n) d e w ≡ ok w
unfolding insert_fuel insert_with
insert_none n d e w h = rw (le→leb _ _ h)

insert_fuel-suc :
    (n d : ℕ) (e : Entry) (w : TimingWheel)
    → insert_fuel (suc n) d e w ≡ insert_with (insert_fuel n) d e w
unfolding insert_fuel
insert_fuel-suc n d e w = refl

step_minutes :
    (again : ℕ → Entry → TimingWheel → Result TimingWheel) (d : ℕ) (e : Entry) (w : TimingWheel)
    → length w.minutes ≡ 60
    → timing_minute ≤ d
    → d < timing_hour
    → insert_with again d e w
      ≡ again (d % timing_minute) e (record w { minutes = put (d / timing_minute - 1) e w.minutes })
unfolding insert_with insert_minute_entry
step_minutes again d e w size l h = rw (
  lt→not-leb d 0 (omega arith),
  ltb_le timing_minute d l,
  lt→ltb _ _ h,
  insert_at-put (d / timing_minute - 1) e w.minutes (omega arith),
)

insert_minutes :
    (n d : ℕ) (e : Entry) (w : TimingWheel)
    → length w.seconds ≡ 60
    → length w.minutes ≡ 60
    → timing_minute ≤ d
    → d < timing_hour
    → insert_fuel (suc (suc n)) d e w ≡ ok (with_minutes d e w)
insert_minutes n d e w size size' l h =
    fuel_step ∙ step_minutes (insert_fuel (suc n)) d e w size' l h ∙ rest
  where
    w₁ : TimingWheel
    w₁ = record w { minutes = put (d / timing_minute - 1) e w.minutes }

    fuel_step : insert_fuel (suc (suc n)) d e w ≡ insert_with (insert_fuel (suc n)) d e w
    fuel_step = insert_fuel-suc (suc n) d e w

    rest : insert_fuel (suc n) (d % timing_minute) e w₁ ≡ ok (with_minutes d e w)
    rest = elim (Bool-cases (leb (d % timing_minute) 0)) [
      | inl z ↦ rw z (insert_none n (d % timing_minute) e w₁ (leb→le _ _ z))
      | inr z ↦
          rw z (insert_seconds n (d % timing_minute) e w₁ size (not-leb→lt _ _ z) (omega arith))
    ]

-- An entry that is made now stands nowhere yet.
no_marks : (x : ℕ) {w : TimingWheel} → IsValid w → x ≡ w.next_id → EndsBy x 0 0 w
no_marks x {w} v e = record {
  seconds =
      sym (wheel_has-marks x w.seconds)
      ∙ wheel_has_new w.next_id x w.seconds (omega arith) v.known_seconds;
  minutes =
      sym (wheel_has-marks x w.minutes)
      ∙ wheel_has_new w.next_id x w.minutes (omega arith) v.known_minutes;
  hours =
      sym (wheel_has-marks x w.hours)
      ∙ wheel_has_new w.next_id x w.hours (omega arith) v.known_hours;
  days =
      sym (wheel_has-marks x w.days) ∙ wheel_has_new w.next_id x w.days (omega arith) v.known_days;
}

any-drop-set :
    (ms : List Bool) (i : ℕ) → any ms ≡ false → any (drop (suc i) (set ms i true)) ≡ false
any-drop-set [] i h = refl
any-drop-set (b ∷ bs) zero h = ground arith
any-drop-set (b ∷ bs) (suc i) h = any-drop-set bs i (ground arith)

get_or-set-true : (ms : List Bool) (i : ℕ) → i < length ms → get_or (set ms i true) i false ≡ true
get_or-set-true [] i h = elim h [ ]
get_or-set-true (b ∷ bs) zero h = refl
get_or-set-true (b ∷ bs) (suc i) h = get_or-set-true bs i (omega arith)

drop_none : (ms : List Bool) (n : ℕ) → any ms ≡ false → any (drop n ms) ≡ false
drop_none ms zero h = h
drop_none [] (suc n) h = refl
drop_none (b ∷ bs) (suc n) h = drop_none bs n (ground arith)

drop_more : (ms : List Bool) (m n : ℕ) → m ≤ n → any (drop m ms) ≡ false → any (drop n ms) ≡ false
drop_more ms zero n l h = drop_none ms n h
drop_more [] (suc m) zero l h = refl
drop_more [] (suc m) (suc n) l h = refl
drop_more (b ∷ bs) (suc m) zero l h = elim l [ ]
drop_more (b ∷ bs) (suc m) (suc n) l h = drop_more bs m n (omega arith) h

put-ends :
    (i : ℕ) (e : Entry) (wheel : Wheel)
    → any (marks e.id wheel) ≡ false
    → any (drop (suc i) (marks e.id (put i e wheel))) ≡ false
put-ends i e wheel h = rw (marks-put_self i e wheel) (any-drop-set (marks e.id wheel) i h)

put-stands :
    (i : ℕ) (e : Entry) (wheel : Wheel)
    → i < length wheel
    → get_or (marks e.id (put i e wheel)) i false ≡ true
put-stands i e wheel h =
    rw (marks-put_self i e wheel)
      (get_or-set-true (marks e.id wheel) i (omega (arith, length-marks e.id wheel)))

-- `runAfter` with a storable delay calls nothing yet.
run_after_stored :
    (n d f : ℕ) {w w' : TimingWheel}
    → IsValid w
    → IsStorable d
    → insert_entry d (make_entry (once f) w) (made w) ≡ ok w'
    → (run_after n d f w ≡ ok (w', [])) × Later w w'
unfolding run_after
run_after_stored n d f {w} {w'} v s e =
    let (u, e', l, stored) = insert_made d (once f) v tt in
    let same : u ≡ w' = ok_inj (sym e' ∙ e) in
    (rw (e, subst (λ z. has w.next_id z ≡ true) same (stored s)), subst (Later w) same l)

insert_seconds_entry :
    (d : ℕ) (e : Entry) (w : TimingWheel)
    → length w.seconds ≡ 60
    → 0 < d
    → d < timing_minute
    → insert_entry d e w ≡ ok (with_seconds d e w)
unfolding insert_entry
insert_seconds_entry d e w size l h = insert_seconds 3 d e w size l h

insert_minutes_entry :
    (d : ℕ) (e : Entry) (w : TimingWheel)
    → length w.seconds ≡ 60
    → length w.minutes ≡ 60
    → timing_minute ≤ d
    → d < timing_hour
    → insert_entry d e w ≡ ok (with_minutes d e w)
unfolding insert_entry
insert_minutes_entry d e w size size' l h = insert_minutes 2 d e w size size' l h
