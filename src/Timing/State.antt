-- ===== src/Timing/State.antt =====
-- When a timing wheel is well formed, and what putting an entry into slots changes
-- (network/net/TimingWheel.cpp).
use turbo_multimedia_server.Common.{
  ℕ, zero, suc, ◌≡◌, refl, ◌∙◌, ◌≢◌, ◌<◌, Bool, true, ◌||◌, List, [], ◌∷◌, length, get_or, set,
  arith, length-set,
}
use turbo_multimedia_server.Timing.{Entry, Wheel, TimingWheel, has, slot_insert}
use turbo_multimedia_server.Timing.Marks.{
  marks, any, wheel_has-marks, IsKnown, WheelKnown, put, put-Known, marks-put_ne, marks-put_self,
  length-marks,
}

-- The wheels have their sizes, and every entry is known.
pub record IsValid (w : TimingWheel) : Type 0 where
  pub length_seconds : length w.seconds ≡ 60
  pub length_minutes : length w.minutes ≡ 60
  pub length_hours : length w.hours ≡ 24
  pub length_days : length w.days ≡ 30
  pub known_seconds : WheelKnown w.next_id w.seconds
  pub known_minutes : WheelKnown w.next_id w.minutes
  pub known_hours : WheelKnown w.next_id w.hours
  pub known_days : WheelKnown w.next_id w.days

-- An entry stands in the same slots.
pub record SameMarks (x : ℕ) (w w' : TimingWheel) : Type 0 where
  pub seconds : marks x w'.seconds ≡ marks x w.seconds
  pub minutes : marks x w'.minutes ≡ marks x w.minutes
  pub hours : marks x w'.hours ≡ marks x w.hours
  pub days : marks x w'.days ≡ marks x w.days

pub SameMarks-refl : (x : ℕ) (w : TimingWheel) → SameMarks x w w
SameMarks-refl x w = record { seconds = refl; minutes = refl; hours = refl; days = refl }

pub SameMarks-trans :
    (x : ℕ) (u v w : TimingWheel) → SameMarks x u v → SameMarks x v w → SameMarks x u w
SameMarks-trans x u v w p q = record {
  seconds = q.seconds ∙ p.seconds;
  minutes = q.minutes ∙ p.minutes;
  hours = q.hours ∙ p.hours;
  days = q.days ∙ p.days;
}

pub has-marks :
    (x : ℕ) (w : TimingWheel)
    → has x w ≡ (
        any (marks x w.seconds)
        || (any (marks x w.minutes) || (any (marks x w.hours) || any (marks x w.days))))
unfolding has
has-marks x w = rw (
  wheel_has-marks x w.seconds,
  wheel_has-marks x w.minutes,
  wheel_has-marks x w.hours,
  wheel_has-marks x w.days,
)

pub SameMarks-has : (x : ℕ) (w w' : TimingWheel) → SameMarks x w w' → has x w' ≡ has x w
SameMarks-has x w w' s = rw (has-marks x w', has-marks x w, s.seconds, s.minutes, s.hours, s.days)

-- What putting `e` into slots of `w` leaves.
pub record Placed (e : Entry) (w w' : TimingWheel) : Type 0 where
  pub valid : IsValid w'
  pub others : (x : ℕ) → x ≢ e.id → SameMarks x w w'
  pub keeps : has e.id w ≡ true → has e.id w' ≡ true
  pub next_id : w'.next_id ≡ w.next_id
  pub tick : w'.tick ≡ w.tick
  pub last_ts : w'.last_ts ≡ w.last_ts

pub Placed-refl : {w : TimingWheel} (e : Entry) → IsValid w → Placed e w w
Placed-refl {w} e v = record {
  valid = v;
  others = λ x h. SameMarks-refl x w;
  keeps = λ h. h;
  next_id = refl;
  tick = refl;
  last_ts = refl;
}

pub Placed-trans : (e : Entry) (u v w : TimingWheel) → Placed e u v → Placed e v w → Placed e u w
Placed-trans e u v w p q = record {
  valid = q.valid;
  others = λ x h. SameMarks-trans x u v w (p.others x h) (q.others x h);
  keeps = λ h. q.keeps (p.keeps h);
  next_id = q.next_id ∙ p.next_id;
  tick = q.tick ∙ p.tick;
  last_ts = q.last_ts ∙ p.last_ts;
}

any-set-true : (ms : List Bool) (i : ℕ) → i < length ms → any (set ms i true) ≡ true
any-set-true [] i h = absurd (omega arith)
any-set-true (b ∷ bs) zero h = refl
any-set-true (b ∷ bs) (suc i) h = rw (any-set-true bs i (omega arith)) (ground arith)

-- A wheel that the entry was put into has it.
pub any-put :
    (i : ℕ) (e : Entry) (wheel : Wheel) → i < length wheel → any (marks e.id (put i e wheel)) ≡ true
any-put i e wheel h =
    rw (marks-put_self i e wheel)
      (any-set-true (marks e.id wheel) i (omega (arith, length-marks e.id wheel)))

-- One slot of one wheel.
pub record PlacedIn (e : Entry) (w w' : TimingWheel) : Type 0 where
  pub placed : Placed e w w'
  pub stored : has e.id w' ≡ true

module _ (i : ℕ) (e : Entry) {w : TimingWheel} (v : IsValid w) (k : IsKnown w.next_id e) where
  pub put_seconds-PlacedIn : i < 60 → PlacedIn e w (record w { seconds = put i e w.seconds })
  put_seconds-PlacedIn h = record {
    placed = record {
      valid = record {
        length_seconds =
            length-set w.seconds i (slot_insert e (get_or w.seconds i [])) ∙ v.length_seconds;
        length_minutes = v.length_minutes;
        length_hours = v.length_hours;
        length_days = v.length_days;
        known_seconds = put-Known w.next_id i e w.seconds k v.known_seconds;
        known_minutes = v.known_minutes;
        known_hours = v.known_hours;
        known_days = v.known_days;
      };
      others = λ x ne. record {
        seconds = marks-put_ne x i e w.seconds ne;
        minutes = refl;
        hours = refl;
        days = refl;
      };
      keeps = λ _. stored;
      next_id = refl;
      tick = refl;
      last_ts = refl;
    };
    stored = stored;
  }
    where
      w' : TimingWheel
      w' = record w { seconds = put i e w.seconds }

      stored : has e.id w' ≡ true
      stored =
          has-marks e.id w'
          ∙ ground (arith, any-put i e w.seconds (omega (arith, v.length_seconds)))

  pub put_minutes-PlacedIn : i < 60 → PlacedIn e w (record w { minutes = put i e w.minutes })
  put_minutes-PlacedIn h = record {
    placed = record {
      valid = record {
        length_seconds = v.length_seconds;
        length_minutes =
            length-set w.minutes i (slot_insert e (get_or w.minutes i [])) ∙ v.length_minutes;
        length_hours = v.length_hours;
        length_days = v.length_days;
        known_seconds = v.known_seconds;
        known_minutes = put-Known w.next_id i e w.minutes k v.known_minutes;
        known_hours = v.known_hours;
        known_days = v.known_days;
      };
      others = λ x ne. record {
        seconds = refl;
        minutes = marks-put_ne x i e w.minutes ne;
        hours = refl;
        days = refl;
      };
      keeps = λ _. stored;
      next_id = refl;
      tick = refl;
      last_ts = refl;
    };
    stored = stored;
  }
    where
      w' : TimingWheel
      w' = record w { minutes = put i e w.minutes }

      stored : has e.id w' ≡ true
      stored =
          has-marks e.id w'
          ∙ ground (arith, any-put i e w.minutes (omega (arith, v.length_minutes)))

  pub put_hours-PlacedIn : i < 24 → PlacedIn e w (record w { hours = put i e w.hours })
  put_hours-PlacedIn h = record {
    placed = record {
      valid = record {
        length_seconds = v.length_seconds;
        length_minutes = v.length_minutes;
        length_hours = length-set w.hours i (slot_insert e (get_or w.hours i [])) ∙ v.length_hours;
        length_days = v.length_days;
        known_seconds = v.known_seconds;
        known_minutes = v.known_minutes;
        known_hours = put-Known w.next_id i e w.hours k v.known_hours;
        known_days = v.known_days;
      };
      others = λ x ne. record {
        seconds = refl;
        minutes = refl;
        hours = marks-put_ne x i e w.hours ne;
        days = refl;
      };
      keeps = λ _. stored;
      next_id = refl;
      tick = refl;
      last_ts = refl;
    };
    stored = stored;
  }
    where
      w' : TimingWheel
      w' = record w { hours = put i e w.hours }

      stored : has e.id w' ≡ true
      stored =
          has-marks e.id w' ∙ ground (arith, any-put i e w.hours (omega (arith, v.length_hours)))

  pub put_days-PlacedIn : i < 30 → PlacedIn e w (record w { days = put i e w.days })
  put_days-PlacedIn h = record {
    placed = record {
      valid = record {
        length_seconds = v.length_seconds;
        length_minutes = v.length_minutes;
        length_hours = v.length_hours;
        length_days = length-set w.days i (slot_insert e (get_or w.days i [])) ∙ v.length_days;
        known_seconds = v.known_seconds;
        known_minutes = v.known_minutes;
        known_hours = v.known_hours;
        known_days = put-Known w.next_id i e w.days k v.known_days;
      };
      others = λ x ne. record {
        seconds = refl;
        minutes = refl;
        hours = refl;
        days = marks-put_ne x i e w.days ne;
      };
      keeps = λ _. stored;
      next_id = refl;
      tick = refl;
      last_ts = refl;
    };
    stored = stored;
  }
    where
      w' : TimingWheel
      w' = record w { days = put i e w.days }

      stored : has e.id w' ≡ true
      stored = has-marks e.id w' ∙ ground (arith, any-put i e w.days (omega (arith, v.length_days)))
