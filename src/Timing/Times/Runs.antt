-- ===== src/Timing/Times/Runs.antt =====
-- How long `onTimer` keeps a timer, and when it has run it (network/net/TimingWheel.cpp, `onTimer`).
use turbo_multimedia_server.Common.{
  ℕ, zero, suc, ◌+◌, ◌*◌, ◌≡◌, refl, ◌∙◌, ◌≤◌, ◌<◌, inl, inr, true, false, List, [], ◌∷◌, ◌++◌, ltb,
  ok, arith, Bool-cases, ltb→lt, not-ltb→le,
}
use native.Mathlib.Nat.{suc-mul}
use turbo_multimedia_server.Timing.{TimingWheel, has}
use turbo_multimedia_server.Timing.Marks.{marks, turned}
use turbo_multimedia_server.Timing.Timers.{
  any_of_get_or, get_or-turned, StandsAt-has, EndsBy-has, tick_runs,
}
use turbo_multimedia_server.Timing.Release.{ran, ran-append}
use turbo_multimedia_server.Timing.Times.{
  run_timers, Pending, Gone, at, at-EndsBy, waits, tick_at, tick-Pending, tick-Gone,
}

-- Every call comes before a time.
abbrev pub Before : ℕ → List ℕ → Type 0
Before end [] = Unit
Before end (now ∷ ts) = (now < end) × Before end ts

Before-mono : (e e' : ℕ) (ts : List ℕ) → e ≤ e' → Before e ts → Before e' ts
Before-mono e e' [] h b = tt
Before-mono e e' (now ∷ ts) h (b, bs) = (omega arith, Before-mono e e' ts h bs)

-- An entry in slot `j` is kept, and not run, by the calls that come within `j + 1` seconds of the last tick.
pub run_timers-keeps :
    (n x j : ℕ) (ts : List ℕ) {w : TimingWheel}
    → Pending x j w
    → Before (w.last_ts + 1000 * suc j) ts
    → (r : TimingWheel × List (ℕ × ℕ)) × (run_timers (suc n) ts w ≡ ok r)
      × (has x r.0 ≡ true)
      × (ran x r.1 ≡ false)
unfolding run_timers
run_timers-keeps n x j [] {w} p b = ((w, []), refl, StandsAt-has x j w p.stands, refl)
run_timers-keeps n x zero (now ∷ ts) {w} p (b, bs) =
    let (r, e, h, q) = run_timers-keeps n x zero ts p bs in
    ((r.0, r.1), rw (waits (suc n) now w p.started (omega arith), e) refl, h, q)
run_timers-keeps n x (suc j) (now ∷ ts) {w} p (b, bs) =
    elim (Bool-cases (ltb now (w.last_ts + 1000))) [
      | inl early ↦
          let (r, e, h, q) = run_timers-keeps n x (suc j) ts p bs in
          ((r.0, r.1), rw (waits (suc n) now w p.started (ltb→lt _ _ early), e) refl, h, q)
      | inr late ↦
          let above = not-ltb→le _ _ late in
          let (r, e, t) = tick_at n now p.valid p.started above in
          let (r', e', h, q) =
            run_timers-keeps n x j ts (tick-Pending now x j p above t)
              (Before-mono _ _ ts (omega (arith, above, t.last_ts)) bs) in
          let turned_has =
            any_of_get_or (turned (marks x w.seconds)) j
              (get_or-turned (marks x w.seconds) j ∙ p.stands) in
          (
            (r'.0, r.1 ++ r'.1),
            rw (e, e') refl,
            h,
            ran-append x r.1 r'.1 ∙ rw (t.silent x p.known turned_has, q) refl,
          )
    ]

-- Calls that end well, whatever the time.
pub run_timers-Gone :
    (n x : ℕ) (ts : List ℕ) {w : TimingWheel}
    → Gone x w
    → (r : TimingWheel × List (ℕ × ℕ)) × (run_timers (suc n) ts w ≡ ok r) × Gone x r.0
unfolding run_timers
run_timers-Gone n x [] {w} g = ((w, []), refl, g)
run_timers-Gone n x (now ∷ ts) {w} g = elim (Bool-cases (ltb now (w.last_ts + 1000))) [
  | inl early ↦
      let (r, e, h) = run_timers-Gone n x ts g in
      ((r.0, r.1), rw (waits (suc n) now w g.started (ltb→lt _ _ early), e) refl, h)
  | inr late ↦
      let above = not-ltb→le _ _ late in
      let (r, e, t) = tick_at n now g.valid g.started above in
      let (r', e', h) =
        run_timers-Gone n x ts (tick-Gone now x 0 g.known g.ends (omega arith) above t) in
      ((r'.0, r.1 ++ r'.1), rw (e, e') refl, h)
]

-- No call comes more than `gap` behind the one before it.
abbrev pub Steady : ℕ → ℕ → List ℕ → Type 0
Steady gap t [] = Unit
Steady gap t (now ∷ ts) = (now ≤ t + gap) × Steady gap now ts

abbrev pub last_time : ℕ → List ℕ → ℕ
last_time t [] = t
last_time t (now ∷ ts) = last_time now ts

-- An entry in slot `j` and no other has run, and is gone, once the calls come to `j + 1` times a second
-- and a gap behind the last tick.
pub run_timers-runs :
    (n x gap t j : ℕ) (ts : List ℕ) {w : TimingWheel}
    → Pending x j w
    → t < w.last_ts + 1000
    → Steady gap t ts
    → w.last_ts + suc j * (1000 + gap) ≤ last_time t ts
    → (r : TimingWheel × List (ℕ × ℕ)) × (run_timers (suc n) ts w ≡ ok r)
      × (ran x r.1 ≡ true)
      × (has x r.0 ≡ false)
unfolding run_timers
run_timers-runs n x gap t j [] {w} p recent steady reached = absurd (too_far j reached recent)
  where
    too_far : (i : ℕ) → w.last_ts + suc i * (1000 + gap) ≤ t → t < w.last_ts + 1000 → ⊥
    too_far i reached recent = omega (arith, suc-mul i (1000 + gap))
run_timers-runs n x gap t zero (now ∷ ts) {w} p recent (near, steady) reached =
    elim (Bool-cases (ltb now (w.last_ts + 1000))) [
      | inl early ↦
          let below = ltb→lt _ _ early in
          let (r, e, h, g) = run_timers-runs n x gap now zero ts p below steady reached in
          ((r.0, r.1), rw (waits (suc n) now w p.started below, e) refl, h, g)
      | inr late ↦
          let above = not-ltb→le _ _ late in
          let (r, e, t) = tick_at n now p.valid p.started above in
          let (r', e', g) =
            run_timers-Gone n x ts (tick-Gone now x 1 p.known p.ends (omega arith) above t) in
          let runs = tick_runs x {w = at now w} t p.stands (at-EndsBy now x 1 0 p.ends) in
          (
            (r'.0, r.1 ++ r'.1),
            rw (e, e') refl,
            rw (ran-append x r.1 r'.1, runs) (ground arith),
            EndsBy-has x r'.0 g.ends,
          )
    ]
run_timers-runs n x gap t (suc j) (now ∷ ts) {w} p recent (near, steady) reached =
    elim (Bool-cases (ltb now (w.last_ts + 1000))) [
      | inl early ↦
          let below = ltb→lt _ _ early in
          let (r, e, h, g) = run_timers-runs n x gap now (suc j) ts p below steady reached in
          ((r.0, r.1), rw (waits (suc n) now w p.started below, e) refl, h, g)
      | inr late ↦
          let above = not-ltb→le _ _ late in
          let (r, e, t) = tick_at n now p.valid p.started above in
          let now_last = t.last_ts in
          let (r', e', h, g) =
            run_timers-runs n x gap now j ts (tick-Pending now x j p above t)
              (omega (arith, now_last)) steady
              (omega (arith, suc-mul (suc j) (1000 + gap), reached, near, recent, now_last)) in
          ((r'.0, r.1 ++ r'.1), rw (e, e') refl, rw (ran-append x r.1 r'.1, h) (ground arith), g)
    ]
