-- ===== src/Threads/Stopping/Joining.antt =====
-- That a thread whose loop was entered can be stopped (network/net/EventLoopThread.cpp, the destructor).
use turbo_multimedia_server.Common.{
  run_moves, run_keeps, ℕ, ◌≡◌, refl, Bool, true, false, List, [], ◌∷◌, some, arith, subst,
}
use turbo_multimedia_server.Threads.Stopping.{
  Stage, published, promises, rounds, left, over, Owner, answered, told, joined, Stopping, Move,
  wakes, publishes, promising, enters, turns, destroys, asks, answers, tells, joins, move, run,
  made,
}

abbrev state : Bool → Bool → Bool → Bool → ℕ → Stage → Owner → Stopping
state r l p k c g o = record {
  running = r;
  loop = l;
  promised = p;
  looping = k;
  closes = c;
  stage = g;
  owner = o;
}

-- Where `loop_` is set.
abbrev HasLoop : Stage → Stopping → Type 0
HasLoop published s = s.loop ≡ true
HasLoop promises s = s.loop ≡ true
HasLoop rounds s = s.loop ≡ true
HasLoop _ s = Unit {0}

-- Before `quit` the loop goes on.
abbrev GoesOn : Stage → Stopping → Type 0
GoesOn rounds s = (s.looping ≡ true) × (s.closes ≡ 0)
GoesOn left s = ⊥
GoesOn over s = ⊥
GoesOn _ s = s.closes ≡ 0

abbrev ByOwner : Owner → Stopping → Type 0
ByOwner told s = Unit {0}
ByOwner joined s = Unit {0}
ByOwner _ s = GoesOn s.stage s

record IsKept (s : Stopping) : Type 0 where
  set : HasLoop s.stage s
  by_owner : ByOwner s.owner s

module _ (r l p k : Bool) (c : ℕ) (t : Stopping) where
  move-IsKept :
      (m : Move) (g : Stage) (o : Owner)
      → move m (state r l p k c g o) ≡ some t
      → IsKept (state r l p k c g o)
      → IsKept t
  unfolding move
  move-IsKept wakes g o e i = ground arith
  move-IsKept publishes g o e i = ground arith
  move-IsKept promising g o e i = ground arith
  move-IsKept enters g o e i = ground arith
  move-IsKept turns g o e i = ground arith
  move-IsKept destroys g o e i = ground arith
  move-IsKept asks g o e i = ground arith
  move-IsKept answers g o e i = ground arith
  move-IsKept tells g o e i = ground arith
  move-IsKept joins g o e i = ground arith

made-IsKept : IsKept made
made-IsKept = record { set = tt; by_owner = refl }

-- A thread whose loop was entered before `quit` is called is joined: the loop ends behind its round, and
-- the destructor returns. The destructor of the loop calls `quit` once more, so that its descriptor is
-- closed twice.
pub run_heard :
    (ms : List Move) (s : Stopping)
    → run ms made ≡ some s
    → s.stage ≡ rounds
    → s.owner ≡ answered
    → (t : Stopping) × (run (tells ∷ turns ∷ destroys ∷ joins ∷ []) s ≡ some t)
      × (t.owner ≡ joined)
      × (t.closes ≡ 2)
unfolding run_moves move
run_heard ms s e is_g is_o =
    let i : IsKept s =
      run_keeps move IsKept
        (λ m u v. move-IsKept u.running u.loop u.promised u.looping u.closes v m u.stage u.owner) ms
        made s e made-IsKept in
    ends s.loop s.looping s.closes (subst (λ g. HasLoop g s) is_g i.set)
      (subst (λ g. GoesOn g s) is_g (subst (λ o. ByOwner o s) is_o i.by_owner)) is_g is_o
  where
    ends :
        (l k : Bool) (c : ℕ)
        → l ≡ true
        → ((k ≡ true) × (c ≡ 0))
        → s.stage ≡ rounds
        → s.owner ≡ answered
        → (t : Stopping) × (run
              (tells ∷ turns ∷ destroys ∷ joins ∷ [])
              (state s.running l s.promised k c s.stage s.owner)
            ≡ some t)
          × (t.owner ≡ joined)
          × (t.closes ≡ 2)
    ends l k c is_l (is_k, is_c) g o = (
      state false false s.promised false 2 over joined,
      rw (is_l, is_k, is_c, g, o) refl,
      refl,
      refl,
    )
