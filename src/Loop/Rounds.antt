-- ===== src/Loop/Rounds.antt =====
-- What a round of the loop calls (network/net/EventLoop.cpp, `loop`, `runInLoop` and `runFunctions`).
use turbo_multimedia_server.Common.{
  ℕ, suc, ◌≡◌, refl, sym, ap, ◌∙◌, inl, inr, false, List, [], ◌∷◌, ◌++◌, map, append-nil,
  append_assoc, Option, none, some, ◌==◌, ==_iff, if◌then◌else◌, subst, Bool-cases, Option-cases,
}
use turbo_multimedia_server.Loop.{
  Flags, Report, Handler, Call, handles, calls, EventLoop, lookup, add_event, weakup, handler_of,
  dispatch, dispatch_all, run_in_loop, run_queue_of, run_functions,
}

-- The handlers that were called for a descriptor.
abbrev pub handled : ℕ → List Call → List Handler
handled x [] = []
handled x (handles fd h ∷ cs) = let rest = handled x cs in if x == fd then h ∷ rest else rest
handled x (calls f ∷ cs) = handled x cs

handled_other :
    (x fd : ℕ) (h : Handler) (cs : List Call)
    → (x == fd) ≡ false
    → handled x (cs ++ (handles fd h ∷ [])) ≡ handled x cs
handled_other x fd h [] other = rw other
handled_other x fd h (handles y g ∷ cs) other =
    ap (λ t. if x == y then g ∷ t else t) (handled_other x fd h cs other)
handled_other x fd h (calls f ∷ cs) other = handled_other x fd h cs other

clash : {f : Flags} → some f ≡ none → ⊥
clash h = cc

Keeps : EventLoop → EventLoop → Type 0
Keeps l l' = (l'.functions ≡ l.functions) × (l'.called ≡ l.called)

add_event-Keeps : (fd : ℕ) (l : EventLoop) → Keeps l (add_event fd l)
unfolding add_event Keeps
add_event-Keeps fd l = elim (Option-cases (lookup fd l.events)) [
  | inl new ↦ rw (add_event, new) (refl, refl)
  | inr (f, old) ↦ rw (add_event, old) (refl, refl)
]

weakup-Keeps : (fresh : ℕ) (l : EventLoop) → Keeps l (weakup fresh l)
unfolding weakup Keeps
weakup-Keeps fresh l = elim (Option-cases l.pipe) [
  | inr (fd, there) ↦ rw (weakup, there) (refl, refl)
  | inl no_pipe ↦
      subst (λ p. Keeps l (by_pipe p)) (sym no_pipe)
        (add_event-Keeps fresh (record l { pipe = some fresh }))
]
  where
    by_pipe : Option ℕ → EventLoop
    by_pipe pipe = elim pipe [
      | some fd ↦ record l { woken = suc l.woken }
      | none ↦
          let l₁ = add_event fresh (record l { pipe = some fresh }) in
          record l₁ { woken = suc l₁.woken }
    ]

module _ (effect : Call → EventLoop → EventLoop)
    (keeps : (c : Call) (l : EventLoop) → (effect c l).called ≡ l.called) where
  run_queue_of_lem :
      (fs : List ℕ) (l : EventLoop)
      → ((run_queue_of effect fs l).functions ≡ [])
        × ((run_queue_of effect fs l).called ≡ l.called ++ map calls fs)
  unfolding run_queue_of
  run_queue_of_lem [] l = (refl, sym (append-nil l.called))
  run_queue_of_lem (f ∷ fs) l =
      let (empty, called) =
        run_queue_of_lem fs (
          effect (calls f)
            (record l { functions = f ∷ fs; called = l.called ++ (calls f ∷ []) })) in
      (
        empty,
        called
            ∙ ap (λ t. t ++ map calls fs) (keeps (calls f) _)
            ∙ append_assoc l.called (calls f ∷ []) (map calls fs),
      )

  -- Functions that other threads hand to `runInLoop`.
  pub run_all_in_loop : ℕ → List ℕ → EventLoop → EventLoop
  run_all_in_loop fresh [] l = l
  run_all_in_loop fresh (f ∷ fs) l = run_all_in_loop fresh fs (run_in_loop effect false fresh f l)

  queued_lem :
      (fresh : ℕ) (fs : List ℕ) (l : EventLoop)
      → ((run_all_in_loop fresh fs l).functions ≡ l.functions ++ fs)
        × ((run_all_in_loop fresh fs l).called ≡ l.called)
  unfolding run_all_in_loop run_in_loop Keeps
  queued_lem fresh [] l = (sym (append-nil l.functions), refl)
  queued_lem fresh (f ∷ fs) l =
      let pushed : EventLoop = record l { functions = l.functions ++ (f ∷ []) } in
      let (functions, called) = queued_lem fresh fs (weakup fresh pushed) in
      let (same, kept) = weakup-Keeps fresh pushed in
      (functions ∙ ap (λ t. t ++ fs) same ∙ append_assoc l.functions (f ∷ []) fs, called ∙ kept)

  -- The functions that other threads hand to `runInLoop` are called by the next `runFunctions`, behind
  -- those that were queued before, each once and in the order in which they were handed over.
  pub run_functions_lem :
      (fresh : ℕ) (fs : List ℕ) (l : EventLoop)
      → let l' = run_functions effect (run_all_in_loop fresh fs l) in
        (l'.functions ≡ []) × (l'.called ≡ l.called ++ map calls (l.functions ++ fs))
  unfolding run_functions
  run_functions_lem fresh fs l =
      let queued = run_all_in_loop fresh fs l in
      let (functions, kept) = queued_lem fresh fs l in
      let (empty, called) = run_queue_of_lem queued.functions queued in
      (
        empty,
        called
            ∙ ap (λ t. t ++ map calls queued.functions) kept
            ∙ ap (λ t. l.called ++ map calls t) functions,
      )

  module _ (x : ℕ)
      (never_adds : (c : Call) (l : EventLoop)
        → lookup x l.events ≡ none
        → lookup x (effect c l).events ≡ none) where
    dispatch_lem :
        (e : Report) (l : EventLoop)
        → lookup x l.events ≡ none
        → (lookup x (dispatch effect e l).events ≡ none)
          × (handled x (dispatch effect e l).called ≡ handled x l.called)
    unfolding dispatch
    dispatch_lem e l absent = elim (Option-cases (lookup e.fd l.events)) [
      | inl missing ↦ rw (dispatch, missing) (absent, refl)
      | inr (f, there) ↦ elim (Option-cases (handler_of e)) [
        | inl nothing ↦ rw (dispatch, there, nothing) (absent, refl)
        | inr (h, does) ↦ elim (Bool-cases (x == e.fd)) [
          | inl same ↦ absurd (
              clash
                (sym there ∙ ap (λ y. lookup y l.events) (sym ((==_iff x e.fd).0 same)) ∙ absent))
          | inr other ↦
              rw (dispatch, there, does)
                (
                  never_adds _ _ absent,
                  ap (handled x) (keeps (handles e.fd h) _) ∙ handled_other x e.fd h l.called other,
                )
        ]
      ]
    ]

    -- An event that is not in the table, because a handler of the same round has removed it, say, gets
    -- no handler called by what is left of the round, whatever epoll reports of it, unless it is added.
    pub dispatch_all_absent :
        (es : List Report) (l : EventLoop)
        → lookup x l.events ≡ none
        → (lookup x (dispatch_all effect es l).events ≡ none)
          × (handled x (dispatch_all effect es l).called ≡ handled x l.called)
    unfolding dispatch_all
    dispatch_all_absent [] l absent = (absent, refl)
    dispatch_all_absent (e ∷ es) l absent =
        let (still, same) = dispatch_lem e l absent in
        let (then_too, rest) = dispatch_all_absent es _ still in (then_too, rest ∙ same)
