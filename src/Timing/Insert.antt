-- ===== src/Timing/Insert.antt =====
-- `TimingWheel::insertEntry` (network/net/TimingWheel.cpp): it indexes no wheel out of range, ends, and
-- moves no other entry.
use turbo_multimedia_server.Common.{
  ℕ, suc, ◌-◌, ◌/◌, ◌%◌, ◌≡◌, refl, ◌≤◌, ◌<◌, inl, inr, true, ltb, leb, if◌then◌else◌, Result, ok,
  arith, Bool-cases, ltb→lt, not-ltb→le, leb→le,
}
use turbo_multimedia_server.Timing.{
  Entry, TimingWheel, has, timing_minute, timing_hour, timing_day, insert_second_entry,
  insert_minute_entry, insert_hour_entry, insert_day_entry, insert_with, insert_fuel, insert_entry,
}
use turbo_multimedia_server.Timing.Marks.{IsKnown, IsStorable, insert_at-put}
use turbo_multimedia_server.Timing.State.{
  IsValid, Placed, Placed-refl, Placed-trans, PlacedIn, put_seconds-PlacedIn, put_minutes-PlacedIn,
  put_hours-PlacedIn, put_days-PlacedIn,
}

-- The outcome of inserting `e` with a delay.
abbrev pub Inserts : Entry → ℕ → TimingWheel → Result TimingWheel → Type 0
Inserts e d w r =
    (w' : TimingWheel) × (r ≡ ok w') × Placed e w w' × (IsStorable d → has e.id w' ≡ true)

-- A coarse wheel takes the entry, and what is left of the delay is inserted.
coarse-Inserts :
    (e : Entry) (d d' : ℕ) (w w' : TimingWheel) (r : Result TimingWheel)
    → PlacedIn e w w'
    → Inserts e d' w' r
    → Inserts e d w r
coarse-Inserts e d d' w w' r p (w'', eq, q, _) =
    (w'', eq, Placed-trans e w w' w'' p.placed q, λ _. q.keeps p.stored)

module _ (e : Entry) (bound : ℕ) (again : ℕ → Entry → TimingWheel → Result TimingWheel)
    (rest : (d : ℕ) (w : TimingWheel)
      → d < bound
      → IsValid w
      → IsKnown w.next_id e
      → Inserts e d w (again d e w)) where
  insert_with-Inserts :
      (d : ℕ) {w : TimingWheel}
      → (timing_minute ≤ d → timing_minute ≤ bound)
      → (timing_hour ≤ d → timing_hour ≤ bound)
      → (timing_day ≤ d → timing_day ≤ bound)
      → IsValid w
      → IsKnown w.next_id e
      → Inserts e d w (insert_with again d e w)
  unfolding insert_with insert_second_entry insert_minute_entry insert_hour_entry insert_day_entry
  insert_with-Inserts d {w} bm bh bd v k = elim (Bool-cases (leb d 0)) [
    | inl none_left ↦
        rw none_left (w, refl, Placed-refl e v, λ s. absurd (omega (arith, leb→le _ _ none_left)))
    | inr some_left ↦ elim (Bool-cases (ltb d timing_minute)) [
      | inl short ↦
          let i : d - 1 < 60 = omega (arith, ltb→lt _ _ short) in
          let p = put_seconds-PlacedIn (d - 1) e v k i in
          rw (some_left, short, insert_at-put (d - 1) e w.seconds (omega (arith, v.length_seconds)))
            (_, refl, p.placed, λ _. p.stored)
      | inr not_short ↦ rw (some_left, not_short) (coarse (not-ltb→le _ _ not_short))
    ]
  ]
    where
      minute : timing_minute ≤ d → d < timing_hour → Inserts e d w (insert_minute_entry again d e w)
      minute l h =
          let i : d / timing_minute - 1 < 60 = omega arith in
          let p = put_minutes-PlacedIn (d / timing_minute - 1) e v k i in
          rw (insert_at-put (d / timing_minute - 1) e w.minutes (omega (arith, v.length_minutes))) (
            coarse-Inserts e d _ w _ _ p
              (rest (d % timing_minute) _ (omega (arith, bm l)) p.placed.valid k))

      hour : timing_hour ≤ d → d < timing_day → Inserts e d w (insert_hour_entry again d e w)
      hour l h =
          let i : d / timing_hour - 1 < 24 = omega arith in
          let p = put_hours-PlacedIn (d / timing_hour - 1) e v k i in
          rw (insert_at-put (d / timing_hour - 1) e w.hours (omega (arith, v.length_hours))) (
            coarse-Inserts e d _ w _ _ p
              (rest (d % timing_hour) _ (omega (arith, bh l)) p.placed.valid k))

      day : timing_day ≤ d → d / timing_day ≤ 30 → Inserts e d w (insert_day_entry again d e w)
      day l h =
          let i : d / timing_day - 1 < 30 = omega arith in
          let p = put_days-PlacedIn (d / timing_day - 1) e v k i in
          rw (insert_at-put (d / timing_day - 1) e w.days (omega (arith, v.length_days))) (
            coarse-Inserts e d _ w _ _ p
              (rest (d % timing_day) _ (omega (arith, bd l)) p.placed.valid k))

      coarse :
          timing_minute ≤ d
          → Inserts e d w (
              if ltb d timing_hour
              then insert_minute_entry again d e w
              else if ltb d timing_day
              then insert_hour_entry again d e w
              else if ltb 30 (d / timing_day)
              then ok w
              else insert_day_entry again d e w)
      coarse l = elim (Bool-cases (ltb d timing_hour)) [
        | inl h ↦ rw h (minute l (ltb→lt _ _ h))
        | inr h ↦ elim (Bool-cases (ltb d timing_day)) [
          | inl h' ↦ rw (h, h') (hour (not-ltb→le _ _ h) (ltb→lt _ _ h'))
          | inr h' ↦ elim (Bool-cases (ltb 30 (d / timing_day))) [
            | inl far ↦
                rw (h, h', far)
                  (w, refl, Placed-refl e v, λ s. absurd (omega (arith, ltb→lt _ _ far)))
            | inr near ↦ rw (h, h', near) (day (not-ltb→le _ _ h') (not-ltb→le _ _ near))
          ]
        ]
      ]

module _ (e : Entry) where
  within_minute :
      (n d : ℕ) (w : TimingWheel)
      → d < timing_minute
      → IsValid w
      → IsKnown w.next_id e
      → Inserts e d w (insert_fuel (suc n) d e w)
  unfolding insert_fuel
  within_minute n d w h v k =
      insert_with-Inserts e 0 (insert_fuel n) (λ d' u l. absurd (omega arith)) d
        (λ l. absurd (omega arith)) (λ l. absurd (omega arith)) (λ l. absurd (omega arith)) v k

  within_hour :
      (n d : ℕ) (w : TimingWheel)
      → d < timing_hour
      → IsValid w
      → IsKnown w.next_id e
      → Inserts e d w (insert_fuel (suc (suc n)) d e w)
  unfolding insert_fuel
  within_hour n d w h v k =
      insert_with-Inserts e timing_minute (insert_fuel (suc n)) (within_minute n) d
        (λ l. omega arith) (λ l. omega arith) (λ l. omega arith) v k

  within_day :
      (n d : ℕ) (w : TimingWheel)
      → d < timing_day
      → IsValid w
      → IsKnown w.next_id e
      → Inserts e d w (insert_fuel (suc (suc (suc n))) d e w)
  unfolding insert_fuel
  within_day n d w h v k =
      insert_with-Inserts e timing_hour (insert_fuel (suc (suc n))) (within_hour n) d
        (λ l. omega arith) (λ l. omega arith) (λ l. omega arith) v k

-- `insertEntry` ends for every delay, indexes no wheel out of range, keeps the wheels well formed and
-- every other entry where it is, and stores the entry for every delay from 1 second to 31 days.
pub insert_entry-Inserts :
    (d : ℕ) (e : Entry) {w : TimingWheel}
    → IsValid w
    → IsKnown w.next_id e
    → Inserts e d w (insert_entry d e w)
unfolding insert_entry insert_fuel
insert_entry-Inserts d e {w} v k =
    insert_with-Inserts e timing_day (insert_fuel 3) (within_day e 0) d (λ l. omega arith)
      (λ l. omega arith) (λ l. omega arith) v k
