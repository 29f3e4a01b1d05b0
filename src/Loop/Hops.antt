-- ===== src/Loop/Hops.antt =====
-- What is handed to `EventLoop::runInLoop` for an object of the loop (network/net/EventLoop.cpp): it is
-- done at once in the loop's thread, and queued in another one.
use turbo_multimedia_server.Common.{
  ◌≡◌, refl, sym, ap, ◌∙◌, Bool, true, false, List, [], ◌∷◌, ◌++◌, append_assoc, append-nil,
  if◌then◌else◌,
}

-- An object, and what is queued for it.
pub record Hops (S T : Type 0) : Type 0 where
  pub object : S
  pub waiting : List T

-- The calls of the loop's thread, and those of the others.
module _ {T : Type 0} where
  abbrev pub of_loop : List (Bool × T) → List T
  of_loop [] = []
  of_loop ((b, t) ∷ ts) = let rest = of_loop ts in if b then t ∷ rest else rest

  abbrev pub of_others : List (Bool × T) → List T
  of_others [] = []
  of_others ((b, t) ∷ ts) = let rest = of_others ts in if b then rest else t ∷ rest

module _ {S T : Type 0} (do_task : T → S → S) where
  unfoldable pub do_tasks : List T → S → S
  do_tasks [] s = s
  do_tasks (t ∷ ts) s = do_tasks ts (do_task t s)

  unfoldable pub hand_over : Bool → T → Hops S T → Hops S T
  hand_over in_thread t h =
      if in_thread
      then record h { object = do_task t h.object }
      else record h { waiting = h.waiting ++ (t ∷ []) }

  -- The loop's thread runs the queue.
  unfoldable pub flush : Hops S T → Hops S T
  unfolding do_tasks
  flush h = record { object = do_tasks h.waiting h.object; waiting = [] }

  -- Calls one after another, each with whether it is in the loop's thread.
  pub hand_over_all : List (Bool × T) → Hops S T → Hops S T
  unfolding hand_over
  hand_over_all [] h = h
  hand_over_all ((b, t) ∷ ts) h = hand_over_all ts (hand_over b t h)

  do_tasks-append : (ts us : List T) (s : S) → do_tasks (ts ++ us) s ≡ do_tasks us (do_tasks ts s)
  unfolding do_tasks
  do_tasks-append [] us s = refl
  do_tasks-append (t ∷ ts) us s = do_tasks-append ts us (do_task t s)

  hand_over_all_lem :
      (ts : List (Bool × T)) (h : Hops S T)
      → hand_over_all ts h
        ≡ record { object = do_tasks (of_loop ts) h.object; waiting = h.waiting ++ of_others ts }
  unfolding hand_over_all do_tasks
  hand_over_all_lem [] h =
      ap (λ l. record { object = h.object; waiting = l }) (sym (append-nil h.waiting))
  hand_over_all_lem ((true, t) ∷ ts) h =
      hand_over_all_lem ts (record h { object = do_task t h.object })
  hand_over_all_lem ((false, t) ∷ ts) h =
      hand_over_all_lem ts (record h { waiting = h.waiting ++ (t ∷ []) })
      ∙ ap (λ l. record { object = do_tasks (of_loop ts) h.object; waiting = l })
          (append_assoc h.waiting (t ∷ []) (of_others ts))

  -- When the queue has been run, an object has done what the loop's thread handed over, then what was
  -- queued before, and then what the other threads handed over: the calls of the loop's thread overtake.
  pub flush-hand_over_all :
      (ts : List (Bool × T)) (h : Hops S T)
      → flush (hand_over_all ts h) ≡ record {
        object = do_tasks (of_others ts) (do_tasks h.waiting (do_tasks (of_loop ts) h.object));
        waiting = [];
      }
  unfolding flush
  flush-hand_over_all ts h =
      ap flush (hand_over_all_lem ts h)
      ∙ ap (λ s. record { object = s; waiting = [] })
          (do_tasks-append h.waiting (of_others ts) (do_tasks (of_loop ts) h.object))
