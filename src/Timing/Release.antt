-- ===== src/Timing/Release.antt =====
-- What happens when entries go: their callbacks run, and those of `runEvery` put themselves into the
-- wheels again (network/net/TimingWheel.cpp, `popUp`, `runEvery`, and the destructor of
-- `CallbackEntry` in TimingWheel.h).
use turbo_multimedia_server.Common.{
  Bool, ap, ◌++◌, ◌||◌, ◌==◌, ==_iff, ℕ, zero, suc, ◌*◌, ◌/◌, ◌≡◌, refl, ◌∙◌, ◌≤◌, ◌<◌, inl, inr,
  true, false, List, [], ◌∷◌, ltb, leb, if◌then◌else◌, ok, fail, unfinished, ◌>>=◌, arith,
  Bool-cases, ltb→lt, not-ltb→le, not-leb→lt, lt→ltb, ltb_le,
}
use turbo_multimedia_server.Timing.{
  Action, once, every, Entry, Slot, Wheel, TimingWheel, slot_has, wheel_has, has, timing_minute,
  timing_hour, timing_day, make_entry, made, insert_with, insert_fuel, insert_entry, run_every,
  destroy, release,
}
use turbo_multimedia_server.Timing.Marks.{
  SlotKnown, WheelKnown, WheelKnown-mono, SlotKnown-mono, IsStorable, IsRepeatable,
}
use turbo_multimedia_server.Timing.State.{
  IsValid, SameMarks, SameMarks-refl, SameMarks-trans, SameMarks-has,
}
use turbo_multimedia_server.Timing.Insert.{insert_entry-Inserts}

-- Entries that are older than the next one stay where they are; new ones may have come.
pub record Later (w w' : TimingWheel) : Type 0 where
  pub valid : IsValid w'
  pub older : (x : ℕ) → x < w.next_id → SameMarks x w w'
  pub next_id : w.next_id ≤ w'.next_id
  pub tick : w'.tick ≡ w.tick
  pub last_ts : w'.last_ts ≡ w.last_ts

pub Later-refl : {w : TimingWheel} → IsValid w → Later w w
Later-refl {w} v = record {
  valid = v;
  older = λ x h. SameMarks-refl x w;
  next_id = omega arith;
  tick = refl;
  last_ts = refl;
}

pub Later-trans : (u v w : TimingWheel) → Later u v → Later v w → Later u w
Later-trans u v w p q = record {
  valid = q.valid;
  older = λ x h. SameMarks-trans x u v w (p.older x h) (q.older x (omega (arith, p.next_id)));
  next_id = omega (arith, p.next_id, q.next_id);
  tick = q.tick ∙ p.tick;
  last_ts = q.last_ts ∙ p.last_ts;
}

made-IsValid : {w : TimingWheel} → IsValid w → IsValid (made w)
made-IsValid {w} v = record {
  length_seconds = v.length_seconds;
  length_minutes = v.length_minutes;
  length_hours = v.length_hours;
  length_days = v.length_days;
  known_seconds = WheelKnown-mono w.next_id (suc w.next_id) w.seconds (omega arith) v.known_seconds;
  known_minutes = WheelKnown-mono w.next_id (suc w.next_id) w.minutes (omega arith) v.known_minutes;
  known_hours = WheelKnown-mono w.next_id (suc w.next_id) w.hours (omega arith) v.known_hours;
  known_days = WheelKnown-mono w.next_id (suc w.next_id) w.days (omega arith) v.known_days;
}

-- A new entry, inserted with a storable delay.
pub insert_made :
    (d : ℕ) (a : Action) {w : TimingWheel}
    → IsValid w
    → IsRepeatable a
    → (w' : TimingWheel) × (insert_entry d (make_entry a w) (made w) ≡ ok w')
      × Later w w'
      × (IsStorable d → has w.next_id w' ≡ true)
insert_made d a {w} v r =
    let (w', e, p, s) = insert_entry-Inserts d (make_entry a w) (made-IsValid v) (omega arith, r) in
    (
      w',
      e,
      record {
        valid = p.valid;
        older = λ x h. older_lem x (p.others x (λ eq. absurd (omega arith)));
        next_id = omega (arith, p.next_id);
        tick = p.tick;
        last_ts = p.last_ts;
      },
      s,
    )
  where
    older_lem : (x : ℕ) {w' : TimingWheel} → SameMarks x (made w) w' → SameMarks x w w'
    older_lem x m = record {
      seconds = m.seconds;
      minutes = m.minutes;
      hours = m.hours;
      days = m.days;
    }

-- `runEvery` with an interval of 1 second to 31 days returns, calls nothing yet, keeps the new entry,
-- and leaves older entries where they are.
pub run_every_lem :
    (n interval f : ℕ) {w : TimingWheel}
    → IsValid w
    → IsStorable interval
    → (w' : TimingWheel) × (run_every (suc n) interval f w ≡ ok (w', []))
      × Later w w'
      × (has w.next_id w' ≡ true)
unfolding run_every
run_every_lem n interval f {w} v s =
    let (w', e, l, h) = insert_made interval (every interval f) v s in
    (w', rw (e, h s, ◌>>=◌), l, h s)

slot_has_new : (n x : ℕ) (s : Slot) → n ≤ x → SlotKnown n s → slot_has x s ≡ false
slot_has_new n x [] h k = refl
slot_has_new n x (e ∷ es) h k = rw (slot_has_new n x es h k.1) (ground (arith, k.0.0))

pub wheel_has_new :
    (n x : ℕ) (wheel : Wheel) → n ≤ x → WheelKnown n wheel → wheel_has x wheel ≡ false
wheel_has_new n x [] h k = refl
wheel_has_new n x (s ∷ ss) h k = rw (slot_has_new n x s h k.0, wheel_has_new n x ss h k.1)

pub has_new : (x : ℕ) {w : TimingWheel} → IsValid w → w.next_id ≤ x → has x w ≡ false
unfolding has
has_new x {w} v h = rw (
  wheel_has_new w.next_id x w.seconds h v.known_seconds,
  wheel_has_new w.next_id x w.minutes h v.known_minutes,
  wheel_has_new w.next_id x w.hours h v.known_hours,
  wheel_has_new w.next_id x w.days h v.known_days,
)

insert_nowhere : (d : ℕ) (e : Entry) (w : TimingWheel) → ¬ IsStorable d → insert_entry d e w ≡ ok w
unfolding insert_entry insert_fuel insert_with
insert_nowhere d e w h = elim (Bool-cases (leb d 0)) [
  | inl none_left ↦ rw none_left
  | inr some_left ↦
      let far : 31 * timing_day ≤ d = at_least (not-leb→lt _ _ some_left) in
      rw (
        some_left,
        ltb_le timing_minute d (omega arith),
        ltb_le timing_hour d (omega arith),
        ltb_le timing_day d (omega arith),
        lt→ltb 30 (d / timing_day) (omega arith),
      )
]
  where
    at_least : 0 < d → 31 * timing_day ≤ d
    at_least p = elim (Bool-cases (ltb d (31 * timing_day))) [
      | inl l ↦ absurd (h (p, ltb→lt _ _ l))
      | inr l ↦ not-ltb→le _ _ l
    ]

has-made : (x : ℕ) (w : TimingWheel) → has x (made w) ≡ has x w
unfolding has
has-made x w = refl

-- With an interval of 0, or of 31 days or more, `runEvery` never returns: whatever the fuel, it calls
-- itself once more.
pub run_every_unfinished :
    (n interval f : ℕ) {w : TimingWheel}
    → IsValid w
    → ¬ IsStorable interval
    → run_every n interval f w ≡ fail unfinished
unfolding run_every
run_every_unfinished zero interval f v h = refl
run_every_unfinished (suc n) interval f {w} v h = rw (
  insert_nowhere interval (make_entry (every interval f) w) (made w) h,
  made_has,
  ◌>>=◌,
  run_every_unfinished n interval f (made-IsValid v) h,
)
  where
    made_has : has w.next_id (made w) ≡ false
    made_has = has-made w.next_id w ∙ has_new w.next_id v (omega arith)

-- The callback of an entry.
abbrev pub callback : Action → ℕ
callback (once f) = f
callback (every i f) = f

destroy_action :
    (n : ℕ) (a : Action) (x : ℕ) {w : TimingWheel}
    → IsValid w
    → IsRepeatable a
    → (w' : TimingWheel) × (destroy (suc n) (record { id = x; action = a }) w
        ≡ ok (w', (x, callback a) ∷ []))
      × Later w w'
unfolding destroy
destroy_action n (once f) x {w} v r = (w, refl, Later-refl v)
destroy_action n (every i f) x {w} v r =
    let (w', e, l, _) = run_every_lem n i f v r in (w', rw e, l)

-- A destroyed entry calls its callback once, and nothing else is called.
pub destroy_lem :
    (n : ℕ) (e : Entry) {w : TimingWheel}
    → IsValid w
    → IsRepeatable e.action
    → (w' : TimingWheel) × (destroy (suc n) e w ≡ ok (w', (e.id, callback e.action) ∷ []))
      × Later w w'
destroy_lem n e v r = destroy_action n e.action e.id v r

-- The callbacks of the entries of a popped slot that no wheel has any more.
abbrev pub called : TimingWheel → Slot → List (ℕ × ℕ)
called w [] = []
called w (e ∷ es) = if has e.id w then called w es else ((e.id, callback e.action) ∷ called w es)

called-Later :
    (es : Slot) (w w' : TimingWheel)
    → Later w w'
    → SlotKnown w.next_id es
    → called w' es ≡ called w es
called-Later [] w w' l k = refl
called-Later (e ∷ es) w w' l k =
    rw (called-Later es w w' l k.1, SameMarks-has e.id w w' (l.older e.id k.0.0))

-- A popped slot goes, which ends: exactly the entries that no wheel has any more are called, in order,
-- and older entries stay where they are.
pub release_lem :
    (n : ℕ) (es : Slot) {w : TimingWheel}
    → IsValid w
    → SlotKnown w.next_id es
    → (w' : TimingWheel) × (release (suc n) es w ≡ ok (w', called w es)) × Later w w'
unfolding release
release_lem n [] {w} v k = (w, refl, Later-refl v)
release_lem n (e ∷ es) {w} v k = elim (Bool-cases (has e.id w)) [
  | inl kept ↦ let (w', eq, l) = release_lem n es v k.1 in (w', rw (kept, eq), l)
  | inr gone ↦
      let (w₁, e₁, l₁) = destroy_lem n e v k.0.1 in
      let (w₂, e₂, l₂) =
        release_lem n es l₁.valid (SlotKnown-mono w.next_id w₁.next_id es l₁.next_id k.1) in
      (w₂, rw (gone, e₁, e₂, called-Later es w w₁ l₁ k.1), Later-trans w w₁ w₂ l₁ l₂)
]

-- Whether an entry's callback is among the calls.
abbrev pub ran : ℕ → List (ℕ × ℕ) → Bool
ran x [] = false
ran x ((y, f) ∷ cs) = y == x || ran x cs

pub ran-append : (x : ℕ) (cs ds : List (ℕ × ℕ)) → ran x (cs ++ ds) ≡ (ran x cs || ran x ds)
ran-append x [] ds = refl
ran-append x ((y, f) ∷ cs) ds = rw (ran-append x cs ds) (ground arith)

-- An entry that a wheel has is not called.
pub ran-called_kept :
    (x : ℕ) (w : TimingWheel) (es : Slot) → has x w ≡ true → ran x (called w es) ≡ false
ran-called_kept x w [] h = refl
ran-called_kept x w (e ∷ es) h = elim (Bool-cases (has e.id w)) [
  | inl there ↦ rw there (ran-called_kept x w es h)
  | inr gone ↦ elim (Bool-cases (e.id == x)) [
    | inl same ↦ absurd (apart (ap (λ y. has y w) ((==_iff e.id x).0 same) ∙ h) gone)
    | inr other ↦ rw (gone, other, ran-called_kept x w es h)
  ]
]
  where
    apart : {b : Bool} → b ≡ true → b ≡ false → ⊥
    apart t f = cc
