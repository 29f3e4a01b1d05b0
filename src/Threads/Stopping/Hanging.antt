-- ===== src/Threads/Stopping/Hanging.antt =====
-- When a thread with a loop is never joined (network/net/EventLoopThread.cpp, the destructor).
use turbo_multimedia_server.Common.{
  ℕ, ◌≡◌, ◌≢◌, refl, sym, ap, ◌∙◌, ◌⊎◌, inl, inr, Bool, true, false, List, [], ◌∷◌, some, arith,
  run_moves, run_keeps,
}
use turbo_multimedia_server.Threads.Stopping.{
  Stage, promises, rounds, Owner, told, joined, Stopping, Move, wakes, publishes, promising, enters,
  turns, destroys, asks, answers, tells, joins, move, run, made,
}

-- The owner waits for a thread that goes round and round, or is about to.
record IsHung (s : Stopping) : Type 0 where
  owner : s.owner ≡ told
  stage : (s.stage ≡ promises) ⊎ ((s.stage ≡ rounds) × (s.looping ≡ true))

abbrev waiting : Bool → Bool → Bool → Bool → ℕ → Stage → Stopping
waiting r l p k c stage = record {
  running = r;
  loop = l;
  promised = p;
  looping = k;
  closes = c;
  stage = stage;
  owner = told;
}

module _ (r l p : Bool) (c : ℕ) (t : Stopping) where
  move-promises : (k : Bool) (m : Move) → move m (waiting r l p k c promises) ≡ some t → IsHung t
  unfolding move
  move-promises k wakes e = ground arith
  move-promises k publishes e = ground arith
  move-promises k promising e = ground arith
  move-promises k enters e = ground arith
  move-promises k turns e = ground arith
  move-promises k destroys e = ground arith
  move-promises k asks e = ground arith
  move-promises k answers e = ground arith
  move-promises k tells e = ground arith
  move-promises k joins e = ground arith

  move-rounds : (m : Move) → move m (waiting r l p true c rounds) ≡ some t → IsHung t
  unfolding move
  move-rounds wakes e = ground arith
  move-rounds publishes e = ground arith
  move-rounds promising e = ground arith
  move-rounds enters e = ground arith
  move-rounds turns e = ground arith
  move-rounds destroys e = ground arith
  move-rounds asks e = ground arith
  move-rounds answers e = ground arith
  move-rounds tells e = ground arith
  move-rounds joins e = ground arith

move-IsHung : (m : Move) (s t : Stopping) → move m s ≡ some t → IsHung s → IsHung t
move-IsHung m s t e h = by_stage h.stage
  where
    at :
        (k : Bool) (g : Stage)
        → s.looping ≡ k
        → s.stage ≡ g
        → s ≡ waiting s.running s.loop s.promised k s.closes g
    at k g is_k is_g = same s.looping s.stage s.owner is_k is_g h.owner
      where
        same :
            (k' : Bool) (g' : Stage) (o : Owner)
            → k' ≡ k
            → g' ≡ g
            → o ≡ told
            → ◌≡◌ {A = Stopping}
                (record {
                  running = s.running;
                  loop = s.loop;
                  promised = s.promised;
                  looping = k';
                  closes = s.closes;
                  stage = g';
                  owner = o;
                })
                (waiting s.running s.loop s.promised k s.closes g)
        same k' g' o a b c = cc

    by_stage : (s.stage ≡ promises) ⊎ ((s.stage ≡ rounds) × (s.looping ≡ true)) → IsHung t
    by_stage (inl g) =
        move-promises s.running s.loop s.promised s.closes t s.looping m
          (ap (move m) (sym (at s.looping promises refl g)) ∙ e)
    by_stage (inr (g, k)) =
        move-rounds s.running s.loop s.promised s.closes t m
          (ap (move m) (sym (at true rounds k g)) ∙ e)

-- The owner is told that the thread runs, and tells the loop to quit, before the loop is entered.
abbrev pub early : List Move
early = asks ∷ wakes ∷ publishes ∷ promising ∷ answers ∷ tells ∷ []

abbrev pub unheard : Stopping
unheard = record {
  running = true;
  loop = true;
  promised = true;
  looping = false;
  closes = 1;
  stage = promises;
  owner = told;
}

-- A thread that is destroyed as soon as its promise is kept may never be joined: where `quit` comes before
-- the first line of `loop`, which sets `looping_` again, the destructor does not return, whatever moves
-- follow.
pub run-unheard :
    (ms : List Move) (t : Stopping)
    → run ms unheard ≡ some t
    → (run early made ≡ some unheard) × (t.owner ≢ joined)
unfolding run_moves move
run-unheard ms t e = (refl, λ q. differs (sym hung.owner ∙ q))
  where
    hung : IsHung t
    hung =
        run_keeps move IsHung move-IsHung ms unheard t e (record { owner = refl; stage = inl refl })

    differs : told ≡ joined → ⊥
    differs d = cc
