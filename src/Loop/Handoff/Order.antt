-- ===== src/Loop/Handoff/Order.antt =====
-- What holds of a loop and the threads that hand functions to it (network/net/EventLoop.cpp), however
-- they take turns.
use turbo_multimedia_server.Common.{
  ℕ, ◌≡◌, ◌≢◌, refl, ◌<◌, ◌⊎◌, inl, inr, List, [], ◌∷◌, ◌++◌, append_assoc, some, arith, run_keeps,
  subst,
}
use turbo_multimedia_server.Loop.Handoff.{
  Holder, nobody, pushed, looping, Place, waits, reads, wants, runs, Shared, Move, enters, pushes,
  writes, polls, reads_pipe, locks, calls_front, unlocks, step, run, idle,
}

-- What holds at each place of the loop. Where it waits and a function is queued, the pipe is not empty, or
-- the thread that pushed is about to write to it.
abbrev pub AtPlace : Place → Shared → Type 0
AtPlace waits s = (s.holder ≢ looping) × ((s.functions ≡ []) ⊎ ((0 < s.pipe) ⊎ (s.holder ≡ pushed)))
AtPlace reads s = (s.holder ≢ looping) × (0 < s.pipe)
AtPlace wants s = s.holder ≢ looping
AtPlace runs s = s.holder ≡ looping

pub record IsHanding (s : Shared) : Type 0 where
  pub at : AtPlace s.place s
  pub order : s.called ++ s.functions ≡ s.posted

abbrev pub state : Holder → Place → ℕ → List ℕ → List ℕ → List ℕ → Shared
state h p n fs gs cs = record {
  holder = h;
  place = p;
  pipe = n;
  functions = fs;
  posted = gs;
  called = cs;
}

module _ (n : ℕ) (gs cs : List ℕ) (t : Shared) where
  move-IsHanding :
      (capacity : ℕ) (m : Move) (h : Holder) (p : Place) (fs : List ℕ)
      → step capacity m (state h p n fs gs cs) ≡ some t
      → IsHanding (state h p n fs gs cs)
      → IsHanding t
  unfolding step
  move-IsHanding capacity enters h p fs e i = ground arith
  move-IsHanding capacity (pushes f) h p fs e i = ground (arith, append_assoc cs fs (f ∷ []))
  move-IsHanding capacity writes h p fs e i = ground arith
  move-IsHanding capacity polls h p fs e i = ground arith
  move-IsHanding capacity reads_pipe h p fs e i = ground arith
  move-IsHanding capacity locks h p fs e i = ground arith
  move-IsHanding capacity calls_front h p [] e i = ground arith
  move-IsHanding capacity calls_front h p (f ∷ fs) e i = ground (arith, append_assoc cs (f ∷ []) fs)
  move-IsHanding capacity unlocks h p fs e i = ground arith

pub idle-IsHanding : IsHanding idle
idle-IsHanding = record { at = (λ q. cc, inl refl); order = refl }

pub run-IsHanding :
    (capacity : ℕ) (ms : List Move) (s t : Shared)
    → run capacity ms s ≡ some t
    → IsHanding s
    → IsHanding t
run-IsHanding capacity =
    run_keeps (step capacity) IsHanding
      (λ m s t. move-IsHanding s.pipe s.posted s.called t capacity m s.holder s.place s.functions)

-- However the loop and the threads that hand functions to it take turns: what was called and then what is
-- queued are the functions that were pushed, each once and in the order of the pushes.
pub run-order :
    (capacity : ℕ) (ms : List Move) (s : Shared)
    → run capacity ms idle ≡ some s
    → s.called ++ s.functions ≡ s.posted
run-order capacity ms s e = (run-IsHanding capacity ms idle s e idle-IsHanding).order

-- No wake-up is lost, however the loop and the others take turns: where the loop waits for epoll and no
-- thread is in `runInLoop`, nothing is queued or the pipe has something to read, so that the wait ends at
-- once.
pub run-heard :
    (capacity : ℕ) (ms : List Move) (s : Shared)
    → run capacity ms idle ≡ some s
    → s.place ≡ waits
    → s.holder ≡ nobody
    → (s.functions ≡ []) ⊎ (0 < s.pipe)
run-heard capacity ms s e waiting free =
    heard (subst (λ p. AtPlace p s) waiting (run-IsHanding capacity ms idle s e idle-IsHanding).at)
  where
    heard : AtPlace waits s → (s.functions ≡ []) ⊎ (0 < s.pipe)
    heard (a, inl b) = inl b
    heard (a, inr (inl b)) = inr b
    heard (a, inr (inr b)) = cc
