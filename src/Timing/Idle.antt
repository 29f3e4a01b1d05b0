-- ===== src/Timing/Idle.antt =====
-- `extendLife` of TcpConnection.cpp and UdpSocket.cpp (network/net and network): the timer of a
-- connection that hears nothing, as a weak pointer to its entry.
use turbo_multimedia_server.Common.{
  ℕ, ◌≡◌, refl, sym, subst, replicate, [], inl, inr, Option, some, none, Bool-cases, Result, ok,
  if◌then◌else◌,
}
use turbo_multimedia_server.Timing.{Entry, TimingWheel, has, insert_entry}
use turbo_multimedia_server.Timing.Marks.{IsKnown}
use turbo_multimedia_server.Timing.State.{IsValid}
use turbo_multimedia_server.Timing.Insert.{insert_entry-Inserts}

-- The entry is locked if it is still in the wheel.
abbrev pub extend : ℕ → Option Entry → TimingWheel → Result TimingWheel
extend delay none w = ok w
extend delay (some e) w = if has e.id w then insert_entry delay e w else ok w

-- The timer, if there is one, was made before.
pub record IsTimer (timer : Option Entry) (w : TimingWheel) : Type 0 where
  pub valid : IsValid w
  pub known : (e : Entry) → timer ≡ some e → IsKnown w.next_id e

-- Extending always succeeds, and the timer can be extended again.
pub extend-IsTimer :
    (delay : ℕ) (timer : Option Entry) (w : TimingWheel)
    → IsTimer timer w
    → (w' : TimingWheel) × (extend delay timer w ≡ ok w') × IsTimer timer w'
extend-IsTimer delay none w t = (w, refl, t)
extend-IsTimer delay (some e) w t = elim (Bool-cases (has e.id w)) [
  | inr gone ↦ (w, rw gone, t)
  | inl there ↦
      let (w', inserted, placed, _) = insert_entry-Inserts delay e t.valid (t.known e refl) in
      (
        w',
        rw (there, inserted),
        record {
          valid = placed.valid;
          known = λ e' same. subst (λ n. IsKnown n e') (sym placed.next_id) (t.known e' same);
        },
      )
]

-- A wheel on which no timer was set.
abbrev pub still_wheel : TimingWheel
still_wheel = record {
  seconds = replicate 60 [];
  minutes = replicate 60 [];
  hours = replicate 24 [];
  days = replicate 30 [];
  last_ts = 0;
  tick = 0;
  next_id = 0;
}

pub still_wheel-IsValid : IsValid still_wheel
still_wheel-IsValid = record {
  length_seconds = refl;
  length_minutes = refl;
  length_hours = refl;
  length_days = refl;
  known_seconds = _;
  known_minutes = _;
  known_hours = _;
  known_days = _;
}
