-- ===== src/Loop/Handoff/Waking.antt =====
-- When the functions that are handed to a loop are called (network/net/EventLoop.cpp, `runInLoop` and
-- `runFunctions`).
use turbo_multimedia_server.Common.{
  run_moves, rest_of, ℕ, suc, ◌-◌, ◌≡◌, ◌≢◌, refl, sym, ap, ◌∙◌, ◌<◌, inl, inr, Bool, true, false,
  List, [], ◌∷◌, ◌++◌, append_assoc, append-nil, none, some, ltb, if◌then◌else◌, Bool-cases, lt→ltb,
}
use turbo_multimedia_server.Loop.Handoff.{
  Holder, nobody, entered, pushed, looping, Place, waits, reads, wants, runs, Shared, push_function,
  write_pipe, poll, read_pipe, lock_functions, call_front, unlock_functions, Move, pushes, writes,
  polls, reads_pipe, locks, calls_front, unlocks, step, run, idle,
}
use turbo_multimedia_server.Loop.Handoff.Order.{AtPlace, state, run-IsHanding, idle-IsHanding}

-- The queue is run to its end.
abbrev drains : List ℕ → List Move
drains [] = unlocks ∷ []
drains (f ∷ fs) = calls_front ∷ drains fs

run-drains :
    (capacity n : ℕ) (fs gs cs : List ℕ)
    → run capacity (drains fs) (state looping runs n fs gs cs)
      ≡ some (state nobody waits n [] gs (cs ++ fs))
unfolding run_moves step call_front unlock_functions
run-drains capacity n [] gs cs = ap (λ l. some (state nobody waits n [] gs l)) (sym (append-nil cs))
run-drains capacity n (f ∷ fs) gs cs =
    run-drains capacity n fs gs (cs ++ (f ∷ []))
    ∙ ap (λ l. some (state nobody waits n [] gs l)) (append_assoc cs (f ∷ []) fs)

-- The moves of the loop from each place to the end of its queue, with its pipe not empty or empty.
abbrev loops : Place → Bool → List ℕ → List Move
loops waits true fs = polls ∷ reads_pipe ∷ locks ∷ drains fs
loops waits false fs = polls ∷ locks ∷ drains fs
loops reads b fs = reads_pipe ∷ locks ∷ drains fs
loops wants b fs = locks ∷ drains fs
loops runs b fs = drains fs

run-loops :
    (capacity : ℕ) (p : Place) (n : ℕ) (fs gs cs : List ℕ)
    → p ≢ runs
    → (k : ℕ) × (run capacity (loops p (ltb 0 n) fs) (state nobody p n fs gs cs)
        ≡ some (state nobody waits k [] gs (cs ++ fs)))
unfolding run_moves step poll read_pipe lock_functions
run-loops capacity waits n fs gs cs free = elim (Bool-cases (ltb 0 n)) [
  | inl b ↦ (
    n - 1,
    ap (λ b. run capacity (loops waits b fs) (state nobody waits n fs gs cs)) b
        ∙ ap
            (λ b.
              rest_of (step capacity) (reads_pipe ∷ locks ∷ drains fs)
                (some (state nobody (if b then reads else wants) n fs gs cs)))
            b
        ∙ run-drains capacity (n - 1) fs gs cs,
  )
  | inr b ↦ (
    n,
    ap (λ b. run capacity (loops waits b fs) (state nobody waits n fs gs cs)) b
        ∙ ap
            (λ b.
              rest_of (step capacity) (locks ∷ drains fs)
                (some (state nobody (if b then reads else wants) n fs gs cs)))
            b
        ∙ run-drains capacity n fs gs cs,
  )
]
run-loops capacity reads n fs gs cs free = (n - 1, run-drains capacity (n - 1) fs gs cs)
run-loops capacity wants n fs gs cs free = (n, run-drains capacity n fs gs cs)
run-loops capacity runs n fs gs cs free = absurd (free refl)

-- Moves after which all that was pushed has been called, and maybe more.
abbrev pub CanCall : ℕ → Shared → Type 0
CanCall capacity s =
    (ms : List Move) × (t : Shared) × (more : List ℕ) × (run capacity ms s ≡ some t)
    × (t.functions ≡ [])
    × (t.called ≡ s.posted ++ more)

module _ (capacity n : ℕ) (fs gs cs : List ℕ) (room : n < capacity) (order : cs ++ fs ≡ gs) where
  free-CanCall : (p : Place) → p ≢ runs → CanCall capacity (state nobody p n fs gs cs)
  free-CanCall p free =
      let (k, e) = run-loops capacity p n fs gs cs free in
      (loops p (ltb 0 n) fs, _, [], e, refl, order ∙ sym (append-nil gs))

  pushed-CanCall : (p : Place) → p ≢ runs → CanCall capacity (state pushed p n fs gs cs)
  unfolding run_moves step write_pipe
  pushed-CanCall p free =
      let (k, e) = run-loops capacity p (suc n) fs gs cs free in
      (
        writes ∷ loops p (ltb 0 (suc n)) fs,
        _,
        [],
        ap
              (λ b.
                rest_of (step capacity) (loops p (ltb 0 (suc n)) fs)
                  (if b then some (state nobody p (suc n) fs gs cs) else none))
              (lt→ltb n capacity room)
            ∙ e,
        refl,
        order ∙ sym (append-nil gs),
      )

module _ (capacity n : ℕ) (fs gs cs : List ℕ) (room : n < capacity) (order : cs ++ fs ≡ gs) where
  -- The thread that has the lock pushes something.
  entered-CanCall : (p : Place) → p ≢ runs → CanCall capacity (state entered p n fs gs cs)
  unfolding run_moves step push_function
  entered-CanCall p free =
      let (ms, t, more, e, empty, all) =
        pushed-CanCall capacity n (fs ++ (0 ∷ [])) (gs ++ (0 ∷ [])) cs room
          (sym (append_assoc cs fs (0 ∷ [])) ∙ ap (λ l. l ++ (0 ∷ [])) order) p free in
      (pushes 0 ∷ ms, t, 0 ∷ more, e, empty, all ∙ append_assoc gs (0 ∷ []) more)

  by_holder :
      (h : Holder) (p : Place)
      → AtPlace p (state h p n fs gs cs)
      → CanCall capacity (state h p n fs gs cs)
  by_holder nobody waits a = free-CanCall capacity n fs gs cs room order waits (λ q. cc)
  by_holder nobody reads a = free-CanCall capacity n fs gs cs room order reads (λ q. cc)
  by_holder nobody wants a = free-CanCall capacity n fs gs cs room order wants (λ q. cc)
  by_holder nobody runs a = cc
  by_holder pushed waits a = pushed-CanCall capacity n fs gs cs room order waits (λ q. cc)
  by_holder pushed reads a = pushed-CanCall capacity n fs gs cs room order reads (λ q. cc)
  by_holder pushed wants a = pushed-CanCall capacity n fs gs cs room order wants (λ q. cc)
  by_holder pushed runs a = cc
  by_holder looping waits a = absurd (a.0 refl)
  by_holder looping reads a = absurd (a.0 refl)
  by_holder looping wants a = absurd (a refl)
  by_holder looping runs a =
      (drains fs, _, [], run-drains capacity n fs gs cs, refl, order ∙ sym (append-nil gs))
  by_holder entered runs a = cc
  by_holder entered waits a = entered-CanCall waits (λ q. cc)
  by_holder entered reads a = entered-CanCall reads (λ q. cc)
  by_holder entered wants a = entered-CanCall wants (λ q. cc)

-- As long as the pipe is not full, no turn that the loop and the others have taken keeps a function from
-- being called: from there they can go on so that all that was pushed has been called and the queue is
-- empty.
pub run-CanCall :
    (capacity : ℕ) (ms : List Move) (s : Shared)
    → run capacity ms idle ≡ some s
    → s.pipe < capacity
    → CanCall capacity s
run-CanCall capacity ms s e room =
    let i = run-IsHanding capacity ms idle s e idle-IsHanding in
    by_holder capacity s.pipe s.functions s.posted s.called room i.order s.holder s.place i.at
