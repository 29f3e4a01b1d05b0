-- ===== src/Loop/Clock.antt =====
-- The loop as it goes round and round, and the timers that it runs (network/net/EventLoop.cpp, `loop` and
-- `runAfter`).
--
-- The rounds are those that the loop goes until it finds `looping_` reset, which another thread may do at
-- any time (Threads/Stopping.antt).
pub mod Delays
use turbo_multimedia_server.Common.{
  ℕ, suc, ◌+◌, ◌*◌, ◌-◌, ◌≡◌, refl, sym, ap, ◌∙◌, ◌≤◌, ◌<◌, inl, inr, true, false, List, [], ◌∷◌,
  ◌++◌, append-nil, append_assoc, none, some, length, ◌==◌, Result, ok, fail, ◌>>=◌, arith,
  Bool-cases, Option-cases, subst,
}
use turbo_multimedia_server.Timing.{TimingWheel, timing_minute, has, on_timer, run_after}
use turbo_multimedia_server.Timing.State.{IsValid}
use turbo_multimedia_server.Timing.Release.{ran}
use turbo_multimedia_server.Timing.Times.{run_timers, Pending}
use turbo_multimedia_server.Timing.Times.Runs.{
  Before, Steady, last_time, run_timers-keeps, run_timers-runs,
}
use turbo_multimedia_server.Timing.Delays.Kept.{run_after-placed}
use turbo_multimedia_server.Loop.{
  Report, Call, handles, calls, EventLoop, lookup, handler_of, resized, call, dispatch,
  dispatch_all, run_queue_of, run_functions, round, after_in_loop,
}

-- A round: `epoll_wait` fails, or reports something; then the round reads the time.
pub data Turn : Type 0 where
  fails : Turn
  waits : List Report → ℕ → Turn

-- The times at which the timing wheel is called: not in a round in which `epoll_wait` fails.
abbrev pub times : List Turn → List ℕ
times [] = []
times (fails ∷ ts) = times ts
times (waits es now ∷ ts) = now ∷ times ts

-- The same timers, and the same callbacks of timers run.
record Alike (l l' : EventLoop) : Type 0 where
  wheel : l'.timing_wheel ≡ l.timing_wheel
  fired : l'.fired ≡ l.fired

Alike-trans : (l₁ l₂ l₃ : EventLoop) → Alike l₁ l₂ → Alike l₂ l₃ → Alike l₁ l₃
Alike-trans l₁ l₂ l₃ a b = record { wheel = b.wheel ∙ a.wheel; fired = b.fired ∙ a.fired }

resized-Alike : (n : ℕ) (l : EventLoop) → Alike l (resized n l)
resized-Alike n l = elim (Bool-cases (n == l.capacity)) [
  | inl full ↦ rw full (record { wheel = refl; fired = refl })
  | inr room ↦ rw room (record { wheel = refl; fired = refl })
]

bound_ok :
    {A B : Type 0} (m : Result B) (f : B → Result A) {a : A}
    → m >>= f ≡ ok a
    → (b : B) × (m ≡ ok b) × (f b ≡ ok a)
bound_ok (fail s) f h = cc
bound_ok (ok b) f h = (b, refl, h)

ok-injective : {A : Type 0} {a b : A} → ok a ≡ ok b → a ≡ b
ok-injective h = cc

module _ (effect : Call → EventLoop → EventLoop) where
  pub take_turn : ℕ → Turn → EventLoop → Result EventLoop
  unfolding round
  take_turn fuel fails l = round effect fuel none 0 l
  take_turn fuel (waits es now) l = round effect fuel (some es) now l

  -- `loop`.
  pub loop : ℕ → List Turn → EventLoop → Result EventLoop
  unfolding take_turn
  loop fuel [] l = ok l
  loop fuel (t ∷ ts) l = take_turn fuel t l >>= λ l'. loop fuel ts l'

  module _ (wheel_kept : (c : Call) (l : EventLoop) → (effect c l).timing_wheel ≡ l.timing_wheel)
      (fired_kept : (c : Call) (l : EventLoop) → (effect c l).fired ≡ l.fired) where
    call-Alike : (c : Call) (l : EventLoop) → Alike l (call effect c l)
    call-Alike c l = record { wheel = wheel_kept c _; fired = fired_kept c _ }

    dispatch-Alike : (e : Report) (l : EventLoop) → Alike l (dispatch effect e l)
    unfolding dispatch
    dispatch-Alike e l = elim (Option-cases (lookup e.fd l.events)) [
      | inl missing ↦ rw (dispatch, missing) (record { wheel = refl; fired = refl })
      | inr (f, there) ↦ elim (Option-cases (handler_of e)) [
        | inl nothing ↦ rw (dispatch, there, nothing) (record { wheel = refl; fired = refl })
        | inr (h, does) ↦ rw (dispatch, there, does) (call-Alike (handles e.fd h) l)
      ]
    ]

    dispatch_all-Alike : (es : List Report) (l : EventLoop) → Alike l (dispatch_all effect es l)
    unfolding dispatch_all
    dispatch_all-Alike [] l = record { wheel = refl; fired = refl }
    dispatch_all-Alike (e ∷ es) l =
        Alike-trans l _ _ (dispatch-Alike e l) (dispatch_all-Alike es (dispatch effect e l))

    run_queue_of-Alike : (fs : List ℕ) (l : EventLoop) → Alike l (run_queue_of effect fs l)
    unfolding run_queue_of
    run_queue_of-Alike [] l = record { wheel = refl; fired = refl }
    run_queue_of-Alike (f ∷ fs) l =
        let popped : EventLoop = record l { functions = f ∷ fs } in
        let here = call-Alike (calls f) popped in
        let rest = run_queue_of-Alike fs (call effect (calls f) popped) in
        record { wheel = rest.wheel ∙ here.wheel; fired = rest.fired ∙ here.fired }

    -- What a round does before it calls the timing wheel.
    served : List Report → EventLoop → EventLoop
    served es l = run_functions effect (resized (length es) (dispatch_all effect es l))

    served-Alike : (es : List Report) (l : EventLoop) → Alike l (served es l)
    unfolding served run_functions
    served-Alike es l =
        let l₁ = dispatch_all effect es l in
        let l₂ = resized (length es) l₁ in
        Alike-trans l l₂ _
          (Alike-trans l l₁ l₂ (dispatch_all-Alike es l) (resized-Alike (length es) l₁))
          (run_queue_of-Alike l₂.functions l₂)

    turn_timers :
        (fuel now : ℕ) (es : List Report) (l : EventLoop) {r : TimingWheel × List (ℕ × ℕ)}
        → on_timer fuel now l.timing_wheel ≡ ok r
        → (l' : EventLoop) × (take_turn fuel (waits es now) l ≡ ok l')
          × (l'.timing_wheel ≡ r.0)
          × (l'.fired ≡ l.fired ++ r.1)
    unfolding take_turn round served
    turn_timers fuel now es l {r} h =
        let alike = served-Alike es l in
        let ticked = ap (λ w. on_timer fuel now w) alike.wheel ∙ h in
        (
          record (served es l) { timing_wheel = r.0; fired = (served es l).fired ++ r.1 },
          rw ticked refl,
          refl,
          ap (λ f. f ++ r.1) alike.fired,
        )

    -- The timers of a loop whose handlers and functions leave them alone are those of the timing wheel
    -- called at the times of its rounds.
    loop_timers :
        (fuel : ℕ) (ts : List Turn) (l : EventLoop) {r : TimingWheel × List (ℕ × ℕ)}
        → run_timers fuel (times ts) l.timing_wheel ≡ ok r
        → (l' : EventLoop) × (loop fuel ts l ≡ ok l')
          × (l'.timing_wheel ≡ r.0)
          × (l'.fired ≡ l.fired ++ r.1)
    unfolding loop run_timers
    loop_timers fuel [] l {r} h =
        let same = ok-injective h in
        (l, refl, ap (λ q. q.0) same, sym (append-nil l.fired) ∙ ap (λ q. l.fired ++ q.1) same)
    loop_timers fuel (fails ∷ ts) l {r} h = loop_timers fuel ts l h
    loop_timers fuel (waits es now ∷ ts) l {r} h =
        let (r₁, e₁, h₁) = bound_ok (on_timer fuel now l.timing_wheel) _ h in
        let (r₂, e₂, h₂) = bound_ok (run_timers fuel (times ts) r₁.0) _ h₁ in
        let (l₁, e, wheel, fired) = turn_timers fuel now es l e₁ in
        let (l₂, e', wheel', fired') =
          loop_timers fuel ts l₁ (ap (λ w. run_timers fuel (times ts) w) wheel ∙ e₂) in
        let same = ok-injective h₂ in
        (
          l₂,
          rw (e, e') refl,
          wheel' ∙ ap (λ q. q.0) same,
          fired'
              ∙ ap (λ f. f ++ r₂.1) fired
              ∙ append_assoc l.fired r₁.1 r₂.1
              ∙ ap (λ q. l.fired ++ q.1) same,
        )
