-- ===== src/Timing/Marks.antt =====
-- Where an entry stands in a wheel, as a list of marks, one for each slot
-- (network/net/TimingWheel.cpp).
use turbo_multimedia_server.Common.{
  ℕ, zero, suc, ◌*◌, ◌≡◌, refl, ap, ◌≢◌, ◌≤◌, ◌<◌, inl, inr, Bool, true, false, ◌||◌, List, [], ◌∷◌,
  ◌++◌, length, get_or, set, ok, arith, Bool-cases, lt→ltb,
}
use turbo_multimedia_server.Timing.{
  Action, once, every, Entry, Slot, Wheel, slot_has, wheel_has, slot_insert, insert_at, timing_day,
  rotated, front,
}

abbrev pub marks : ℕ → Wheel → List Bool
marks x [] = []
marks x (s ∷ ss) = slot_has x s ∷ marks x ss

abbrev pub any : List Bool → Bool
any [] = false
any (b ∷ bs) = b || any bs

pub wheel_has-marks : (x : ℕ) (wheel : Wheel) → wheel_has x wheel ≡ any (marks x wheel)
wheel_has-marks x [] = refl
wheel_has-marks x (s ∷ ss) = ap (λ b. slot_has x s || b) (wheel_has-marks x ss)

-- An interval that `insertEntry` takes into a wheel.
abbrev pub IsStorable : ℕ → Type 0
IsStorable d = (0 < d) × (d < 31 * timing_day)

-- The intervals with which an entry can be made again.
abbrev pub IsRepeatable : Action → Type 0
IsRepeatable (once f) = Unit {0}
IsRepeatable (every i f) = IsStorable i

-- An entry that is older than `n`.
abbrev pub IsKnown : ℕ → Entry → Type 0
IsKnown n e = (e.id < n) × IsRepeatable e.action

abbrev pub SlotKnown : ℕ → Slot → Type 0
SlotKnown n [] = Unit {0}
SlotKnown n (e ∷ es) = IsKnown n e × SlotKnown n es

abbrev pub WheelKnown : ℕ → Wheel → Type 0
WheelKnown n [] = Unit {0}
WheelKnown n (s ∷ ss) = SlotKnown n s × WheelKnown n ss

pub SlotKnown-mono : (n m : ℕ) (s : Slot) → n ≤ m → SlotKnown n s → SlotKnown m s
SlotKnown-mono n m [] h k = tt
SlotKnown-mono n m (e ∷ es) h k = ((omega arith, k.0.1), SlotKnown-mono n m es h k.1)

pub WheelKnown-mono : (n m : ℕ) (wheel : Wheel) → n ≤ m → WheelKnown n wheel → WheelKnown m wheel
WheelKnown-mono n m [] h k = tt
WheelKnown-mono n m (s ∷ ss) h k = (SlotKnown-mono n m s h k.0, WheelKnown-mono n m ss h k.1)

pub slot_insert-Known :
    (n : ℕ) (e : Entry) (s : Slot) → IsKnown n e → SlotKnown n s → SlotKnown n (slot_insert e s)
slot_insert-Known n e s h k = elim (Bool-cases (slot_has e.id s)) [
  | inl old ↦ rw old k
  | inr new ↦ rw new (h, k)
]

slot_insert_self : (e : Entry) (s : Slot) → slot_has e.id (slot_insert e s) ≡ true
slot_insert_self e s = elim (Bool-cases (slot_has e.id s)) [
  | inl old ↦ rw old old
  | inr new ↦ rw new (ground arith)
]

slot_insert_ne :
    (x : ℕ) (e : Entry) (s : Slot) → x ≢ e.id → slot_has x (slot_insert e s) ≡ slot_has x s
slot_insert_ne x e s h = elim (Bool-cases (slot_has e.id s)) [
  | inl old ↦ rw old
  | inr new ↦ rw new (ground arith)
]

slot_insert_keeps :
    (x : ℕ) (e : Entry) (s : Slot) → slot_has x s ≡ true → slot_has x (slot_insert e s) ≡ true
slot_insert_keeps x e s h = elim (Bool-cases (slot_has e.id s)) [
  | inl old ↦ rw old h
  | inr new ↦ rw new (ground arith)
]

-- A wheel with an entry put into slot `i`.
abbrev pub put : ℕ → Entry → Wheel → Wheel
put i e wheel = set wheel i (slot_insert e (get_or wheel i []))

pub insert_at-put :
    (i : ℕ) (e : Entry) (wheel : Wheel)
    → i < length wheel
    → insert_at i e wheel ≡ ok (put i e wheel)
unfolding insert_at
insert_at-put i e wheel h = rw (lt→ltb _ _ h)

pub put-Known :
    (n i : ℕ) (e : Entry) (wheel : Wheel)
    → IsKnown n e
    → WheelKnown n wheel
    → WheelKnown n (put i e wheel)
put-Known n i e [] h k = tt
put-Known n zero e (s ∷ ss) h k = (slot_insert-Known n e s h k.0, k.1)
put-Known n (suc i) e (s ∷ ss) h k = (k.0, put-Known n i e ss h k.1)

-- Other entries stay where they are.
pub marks-put_ne :
    (x i : ℕ) (e : Entry) (wheel : Wheel) → x ≢ e.id → marks x (put i e wheel) ≡ marks x wheel
marks-put_ne x i e [] h = refl
marks-put_ne x zero e (s ∷ ss) h = ap (λ b. b ∷ marks x ss) (slot_insert_ne x e s h)
marks-put_ne x (suc i) e (s ∷ ss) h = ap (λ l. slot_has x s ∷ l) (marks-put_ne x i e ss h)

-- The entry itself gets one more mark.
pub marks-put_self :
    (i : ℕ) (e : Entry) (wheel : Wheel) → marks e.id (put i e wheel) ≡ set (marks e.id wheel) i true
marks-put_self i e [] = refl
marks-put_self zero e (s ∷ ss) = ap (λ b. b ∷ marks e.id ss) (slot_insert_self e s)
marks-put_self (suc i) e (s ∷ ss) = ap (λ l. slot_has e.id s ∷ l) (marks-put_self i e ss)

pub length-marks : (x : ℕ) (wheel : Wheel) → length (marks x wheel) ≡ length wheel
length-marks x [] = refl
length-marks x (s ∷ ss) = ap suc (length-marks x ss)

-- The marks of a wheel that turned by one slot.
abbrev pub turned : List Bool → List Bool
turned [] = false ∷ []
turned (b ∷ bs) = bs ++ (false ∷ [])

marks-append_empty : (x : ℕ) (ss : Wheel) → marks x (ss ++ ([] ∷ [])) ≡ marks x ss ++ (false ∷ [])
marks-append_empty x [] = refl
marks-append_empty x (s ∷ ss) = ap (λ l. slot_has x s ∷ l) (marks-append_empty x ss)

pub marks-rotated : (x : ℕ) (wheel : Wheel) → marks x (rotated wheel) ≡ turned (marks x wheel)
marks-rotated x [] = refl
marks-rotated x (s ∷ ss) = marks-append_empty x ss

WheelKnown-append_empty : (n : ℕ) (ss : Wheel) → WheelKnown n ss → WheelKnown n (ss ++ ([] ∷ []))
WheelKnown-append_empty n [] k = (tt, tt)
WheelKnown-append_empty n (s ∷ ss) k = (k.0, WheelKnown-append_empty n ss k.1)

pub rotated-Known : (n : ℕ) (wheel : Wheel) → WheelKnown n wheel → WheelKnown n (rotated wheel)
rotated-Known n [] k = (tt, tt)
rotated-Known n (s ∷ ss) k = WheelKnown-append_empty n ss k.1

pub front-Known : (n : ℕ) (wheel : Wheel) → WheelKnown n wheel → SlotKnown n (front wheel)
front-Known n [] k = tt
front-Known n (s ∷ ss) k = k.0
