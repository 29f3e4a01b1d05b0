-- ===== src/Loop/Handoff/Stuck.antt =====
-- When the functions that are handed to a loop are never called (network/net/EventLoop.cpp, `weakup`, and
-- network/net/PipeEvent.cpp, `write`).
use turbo_multimedia_server.Common.{
  run_moves, rest_of, run-join, ℕ, suc, ◌+◌, ◌-◌, ◌≡◌, refl, sym, ap, ◌∙◌, ◌<◌, ◌≤◌, List, [], ◌∷◌,
  ◌++◌, append_assoc, append-nil, none, some, length, if◌then◌else◌, arith, lt→ltb,
}
use turbo_multimedia_server.Loop.Handoff.{
  nobody, pushed, Place, waits, reads, wants, Shared, enter, push_function, write_pipe, poll,
  read_pipe, lock_functions, call_front, unlock_functions, Move, enters, pushes, writes, polls,
  reads_pipe, locks, calls_front, unlocks, step, run, idle,
}
use turbo_multimedia_server.Loop.Handoff.Order.{state}

module _ (capacity : ℕ) where
  -- A whole call of `runInLoop`, and then the rest of a run.
  run-post :
      (p : Place) (n f : ℕ) (qs gs cs : List ℕ) (ms : List Move)
      → n < capacity
      → run capacity (enters ∷ pushes f ∷ writes ∷ ms) (state nobody p n qs gs cs)
        ≡ run capacity ms (state nobody p (suc n) (qs ++ (f ∷ [])) (gs ++ (f ∷ [])) cs)
  unfolding run_moves step enter push_function write_pipe
  run-post p n f qs gs cs ms room =
      ap
        (λ b.
          rest_of (step capacity) ms (
            if b then some (state nobody p (suc n) (qs ++ (f ∷ [])) (gs ++ (f ∷ [])) cs) else none))
        (lt→ltb n capacity room)

-- Whole calls of `runInLoop`, one after another.
abbrev pub posts : List ℕ → List Move
posts [] = []
posts (f ∷ fs) = enters ∷ pushes f ∷ writes ∷ posts fs

run-posts :
    (capacity : ℕ) (p : Place) (n : ℕ) (fs qs gs cs : List ℕ)
    → n + length fs ≤ capacity
    → run capacity (posts fs) (state nobody p n qs gs cs)
      ≡ some (state nobody p (n + length fs) (qs ++ fs) (gs ++ fs) cs)
unfolding run_moves
run-posts capacity p n [] qs gs cs fits =
    ap₃_state (omega arith) (sym (append-nil qs)) (sym (append-nil gs))
  where
    ap₃_state :
        {k : ℕ} {xs ys : List ℕ}
        → n ≡ k
        → qs ≡ xs
        → gs ≡ ys
        → some (state nobody p n qs gs cs) ≡ some (state nobody p k xs ys cs)
    ap₃_state a b c = cc
run-posts capacity p n (f ∷ fs) qs gs cs fits =
    run-post capacity p n f qs gs cs (posts fs) (omega arith)
    ∙ run-posts capacity p (suc n) fs (qs ++ (f ∷ [])) (gs ++ (f ∷ [])) cs (omega arith)
    ∙ same (omega arith) (append_assoc qs (f ∷ []) fs) (append_assoc gs (f ∷ []) fs)
  where
    same :
        {k l : ℕ} {xs xs' ys ys' : List ℕ}
        → k ≡ l
        → xs ≡ xs'
        → ys ≡ ys'
        → some (state nobody p k xs ys cs) ≡ some (state nobody p l xs' ys' cs)
    same a b c = cc

-- What other threads do to stop a loop: they hand over as many functions as the pipe holds, the loop gets
-- one number out of it, and two more functions are handed over.
abbrev pub overfills : List ℕ → ℕ → ℕ → List Move
overfills fs f g =
    posts fs ++ (polls ∷ reads_pipe ∷ enters ∷ pushes f ∷ writes ∷ enters ∷ pushes g ∷ [])

-- The thread that has pushed the last one holds the lock and waits for room in the pipe.
abbrev pub stuck : List ℕ → ℕ → ℕ → Shared
stuck fs f g =
    let all = (fs ++ (f ∷ [])) ++ (g ∷ []) in
    record {
      holder = pushed;
      place = wants;
      pipe = length fs;
      functions = all;
      posted = all;
      called = [];
    }

stuck_blocked : (fs : List ℕ) (f g : ℕ) (m : Move) → step (length fs) m (stuck fs f g) ≡ none
unfolding step enter push_function write_pipe poll read_pipe lock_functions call_front
    unlock_functions
stuck_blocked fs f g enters = refl
stuck_blocked fs f g (pushes h) = refl
stuck_blocked fs f g writes = ground arith
stuck_blocked fs f g polls = refl
stuck_blocked fs f g reads_pipe = refl
stuck_blocked fs f g locks = refl
stuck_blocked fs f g calls_front = refl
stuck_blocked fs f g unlocks = refl

overfilled :
    (capacity n g h : ℕ) (qs : List ℕ)
    → n ≡ capacity
    → 0 < capacity
    → run capacity
        (polls ∷ reads_pipe ∷ enters ∷ pushes g ∷ writes ∷ enters ∷ pushes h ∷ [])
        (state nobody waits n qs qs [])
      ≡ some (
          state pushed wants capacity
            ((qs ++ (g ∷ [])) ++ (h ∷ []))
            ((qs ++ (g ∷ [])) ++ (h ∷ []))
            [])
unfolding run_moves step enter push_function poll read_pipe
overfilled capacity n g h qs is_full room =
    ap
      (λ b.
        rest_of (step capacity) (reads_pipe ∷ enters ∷ pushes g ∷ writes ∷ enters ∷ pushes h ∷ [])
          (some (state nobody (if b then reads else wants) n qs qs [])))
      (lt→ltb 0 n (omega arith))
    ∙ run-post capacity wants (n - 1) g qs qs [] (enters ∷ pushes h ∷ []) (omega arith)
    ∙ ap
        (λ k.
          some
            (state pushed wants k ((qs ++ (g ∷ [])) ++ (h ∷ [])) ((qs ++ (g ∷ [])) ++ (h ∷ [])) []))
        (omega arith)

-- A pipe that gets full can stop the loop for good, whatever its size. One way is this: other threads hand
-- over as many functions as the pipe holds, the loop reads one number out of it, and two more functions
-- are handed over. The thread of the last one then waits for room in the pipe with the lock in its hand,
-- and the loop, which alone makes room, waits for that lock. No move is possible any more.
pub run-stuck :
    (f : ℕ) (fs : List ℕ) (g h : ℕ) (m : Move)
    → let full = f ∷ fs in
      (run (length full) (overfills full g h) idle ≡ some (stuck full g h))
      × (step (length full) m (stuck full g h) ≡ none)
run-stuck f fs g h m = (
  run-join (step capacity) (posts (f ∷ fs)) _ idle
      (run-posts capacity waits 0 (f ∷ fs) [] [] [] (omega arith))
      (overfilled capacity (0 + capacity) g h (f ∷ fs) (omega arith) (omega arith)),
  stuck_blocked (f ∷ fs) g h m,
)
  where
    capacity : ℕ
    capacity = suc (length fs)
