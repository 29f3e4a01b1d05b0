-- ===== src/Timing.antt =====
-- network/net/TimingWheel.h and TimingWheel.cpp: timers in four wheels of slots.
--
-- An entry is a `shared_ptr`, told from others by `id`; what runs is its destructor, when the last
-- reference goes. The wheels hold the only references that outlive a call, so an entry is destroyed
-- when a call ends, or a slot is popped, and no slot has it. A callback is a number that is logged
-- when it is called. A delay below 0 takes the branch of 0.
pub mod Marks
pub mod State
pub mod Insert
pub mod Release
pub mod Tick
pub mod Timers
pub mod Times
pub mod Idle
pub mod Delays
mod Tests
use turbo_multimedia_server.Common.{
  ℕ, zero, suc, ◌+◌, ◌-◌, ◌*◌, ◌/◌, ◌%◌, Bool, true, false, ◌||◌, not, List, [], ◌∷◌, ◌++◌, length,
  replicate, get_or, set, ltb, leb, ◌==◌, if◌then◌else◌, Result, ok, fail, out_of_range, unfinished,
  ◌>>=◌, ◌>>◌,
}

pub data Action : Type 0 where
  once : ℕ → Action
  every : ℕ → ℕ → Action

pub record Entry : Type 0 where
  pub id : ℕ
  pub action : Action

-- `WheelEntry`, an `unordered_set` of entries, and `Wheel`, a `deque` of those.
abbrev pub Slot : Type 0
Slot = List Entry

abbrev pub Wheel : Type 0
Wheel = List Slot

-- `next_id` is the identity of the next entry that is made.
pub record TimingWheel : Type 0 where
  pub seconds : Wheel
  pub minutes : Wheel
  pub hours : Wheel
  pub days : Wheel
  pub last_ts : ℕ
  pub tick : ℕ
  pub next_id : ℕ

abbrev pub timing_minute : ℕ
timing_minute = 60

abbrev pub timing_hour : ℕ
timing_hour = 60 * 60

abbrev pub timing_day : ℕ
timing_day = 60 * 60 * 24

pub init : TimingWheel
init = record {
  seconds = replicate 60 [];
  minutes = replicate 60 [];
  hours = replicate 24 [];
  days = replicate 30 [];
  last_ts = 0;
  tick = 0;
  next_id = 0;
}

abbrev pub slot_has : ℕ → Slot → Bool
slot_has x [] = false
slot_has x (e ∷ es) = e.id == x || slot_has x es

abbrev pub wheel_has : ℕ → Wheel → Bool
wheel_has x [] = false
wheel_has x (s ∷ ss) = slot_has x s || wheel_has x ss

-- Whether the wheels refer to an entry.
unfoldable pub has : ℕ → TimingWheel → Bool
has x w =
    wheel_has x w.seconds || (wheel_has x w.minutes || (wheel_has x w.hours || wheel_has x w.days))

-- `insert` of a set.
abbrev pub slot_insert : Entry → Slot → Slot
slot_insert e s = if slot_has e.id s then s else e ∷ s

-- `wheel[i].insert(entry)`.
pub insert_at : ℕ → Entry → Wheel → Result Wheel
insert_at i e wheel =
    if ltb i (length wheel)
    then ok (set wheel i (slot_insert e (get_or wheel i [])))
    else fail out_of_range

-- `insertSecondEntry`.
pub insert_second_entry : ℕ → Entry → TimingWheel → Result TimingWheel
insert_second_entry delay e w =
    insert_at (delay - 1) e w.seconds >>= λ s. ok (record w { seconds = s })

-- The three next functions end with the destructor of `newEntry`, which nothing else refers to: it
-- calls `insertEntry` with the rest of the delay at once. `again` is that call.
pub insert_minute_entry :
    (ℕ → Entry → TimingWheel → Result TimingWheel) → ℕ → Entry → TimingWheel → Result TimingWheel
insert_minute_entry again delay e w = insert_at (delay / timing_minute - 1) e w.minutes >>= λ s.
    again (delay % timing_minute) e (record w { minutes = s })

pub insert_hour_entry :
    (ℕ → Entry → TimingWheel → Result TimingWheel) → ℕ → Entry → TimingWheel → Result TimingWheel
insert_hour_entry again delay e w = insert_at (delay / timing_hour - 1) e w.hours >>= λ s.
    again (delay % timing_hour) e (record w { hours = s })

pub insert_day_entry :
    (ℕ → Entry → TimingWheel → Result TimingWheel) → ℕ → Entry → TimingWheel → Result TimingWheel
insert_day_entry again delay e w = insert_at (delay / timing_day - 1) e w.days >>= λ s.
    again (delay % timing_day) e (record w { days = s })

-- The body of `insertEntry`.
pub insert_with :
    (ℕ → Entry → TimingWheel → Result TimingWheel) → ℕ → Entry → TimingWheel → Result TimingWheel
insert_with again delay e w =
    if leb delay 0
    then ok w
    else if ltb delay timing_minute
    then insert_second_entry delay e w
    else if ltb delay timing_hour
    then insert_minute_entry again delay e w
    else if ltb delay timing_day
    then insert_hour_entry again delay e w
    else if ltb 30 (delay / timing_day)
    then ok w
    else insert_day_entry again delay e w

-- `insertEntry`, with fuel for the calls of itself.
pub insert_fuel : ℕ → ℕ → Entry → TimingWheel → Result TimingWheel
insert_fuel zero delay e w = fail unfinished
insert_fuel (suc n) delay e w = insert_with (insert_fuel n) delay e w

pub insert_entry : ℕ → Entry → TimingWheel → Result TimingWheel
insert_entry delay e w = insert_fuel 4 delay e w

-- `std::make_shared<CallbackEntry>`.
abbrev pub make_entry : Action → TimingWheel → Entry
make_entry a w = record { id = w.next_id; action = a }

abbrev pub made : TimingWheel → TimingWheel
made w = record w { next_id = suc w.next_id }

-- The new state, and what was called: an entry's callback, with the entry's `id` before it.
abbrev pub Step : Type 0
Step = Result (TimingWheel × List (ℕ × ℕ))

-- `runEvery`. If the wheels do not take the entry it is destroyed as the call ends, and its
-- destructor calls the callback and `runEvery` again: this recursion takes fuel.
pub run_every : ℕ → ℕ → ℕ → TimingWheel → Step
run_every zero interval f w = fail unfinished
run_every (suc n) interval f w =
    insert_entry interval (make_entry (every interval f) w) (made w) >>= λ w'.
    elim (has w.next_id w') [
      | true ↦ ok (w', [])
      | false ↦ run_every n interval f w' >>= λ r. ok (r.0, (w.next_id, f) ∷ r.1)
    ]

-- The destructor of `CallbackEntry`.
pub destroy : ℕ → Entry → TimingWheel → Step
destroy fuel e w = elim e.action [
  | once f ↦ ok (w, (e.id, f) ∷ [])
  | every interval f ↦ run_every fuel interval f w >>= λ r. ok (r.0, (e.id, f) ∷ r.1)
]

-- `runAfter`: as the call ends, the entry is destroyed unless the wheels took it.
pub run_after : ℕ → ℕ → ℕ → TimingWheel → Step
run_after fuel delay f w =
    let e = make_entry (once f) w in
    insert_entry delay e (made w) >>= λ w'. if has e.id w' then ok (w', []) else destroy fuel e w'

-- The end of `popUp`, when the slot that was swapped out goes: each entry that no slot has any more is
-- destroyed.
pub release : ℕ → Slot → TimingWheel → Step
release fuel [] w = ok (w, [])
release fuel (e ∷ es) w = (if has e.id w then ok (w, []) else destroy fuel e w) >>= λ r.
    release fuel es r.0 >>= λ r'. ok (r'.0, r.1 ++ r'.1)

-- The front slot, and the wheel with an empty one behind.
abbrev pub front : Wheel → Slot
front [] = []
front (s ∷ ss) = s

abbrev pub rotated : Wheel → Wheel
rotated [] = [] ∷ []
rotated (s ∷ ss) = ss ++ ([] ∷ [])

pub pop_seconds : ℕ → TimingWheel → Step
pop_seconds fuel w = release fuel (front w.seconds) (record w { seconds = rotated w.seconds })

pub pop_minutes : ℕ → TimingWheel → Step
pop_minutes fuel w = release fuel (front w.minutes) (record w { minutes = rotated w.minutes })

pub pop_hours : ℕ → TimingWheel → Step
pop_hours fuel w = release fuel (front w.hours) (record w { hours = rotated w.hours })

pub pop_days : ℕ → TimingWheel → Step
pop_days fuel w = release fuel (front w.days) (record w { days = rotated w.days })

-- A test of the source such as `tick_ % kTimingMinute` holds if the rest is not 0.
pub pop_coarse : ℕ → TimingWheel → Step
pop_coarse fuel w =
    if not (w.tick % timing_minute == 0)
    then pop_minutes fuel w
    else if not (w.tick % timing_hour == 0)
    then pop_hours fuel w
    else if not (w.tick % timing_day == 0)
    then pop_days fuel w
    else ok (w, [])

-- What `onTimer` does once a second has passed.
pub on_tick : ℕ → TimingWheel → Step
on_tick fuel w = pop_seconds fuel (record w { tick = suc w.tick }) >>= λ r.
    pop_coarse fuel r.0 >>= λ r'. ok (r'.0, r.1 ++ r'.1)

pub on_timer : ℕ → ℕ → TimingWheel → Step
on_timer fuel now w =
    let w₁ : TimingWheel = record w { last_ts = if w.last_ts == 0 then now else w.last_ts } in
    if ltb (now - w₁.last_ts) 1000 then ok (w₁, []) else on_tick fuel (record w₁ { last_ts = now })
