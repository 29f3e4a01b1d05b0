-- ===== src/Threads/Starting.antt =====
-- What a thread is when `run` returns (network/net/EventLoopThread.cpp).
use turbo_multimedia_server.Common.{
  ℕ, ◌≡◌, ◌≢◌, refl, sym, subst, ◌∙◌, inl, inr, ◌⊎◌, Bool, true, false, some,
}
use turbo_multimedia_server.Threads.{
  Worker, waits, wakes, publishes, loops, ends, before, asks, returns, EventLoopThread, Step,
  asking, waking, publishing, promising, returning, quitting, Reach, start, later,
}

-- What holds at each place of `startLoop`.
abbrev AtWorker : ℕ → Worker → EventLoopThread → Type 0
AtWorker own waits t = (t.promised ≡ false) × ((t.caller ≡ before) ⊎ (t.running ≡ true))
AtWorker own wakes t = t.promised ≡ false
AtWorker own publishes t = (t.promised ≡ false) × (t.loop ≡ some own)
AtWorker own loops t = (t.promised ≡ true) × (t.loop ≡ some own)
AtWorker own ends t = t.promised ≡ true

record IsStarting (own : ℕ) (t : EventLoopThread) : Type 0 where
  at : AtWorker own t.worker t
  returned : t.caller ≡ returns → t.promised ≡ true

clash : {b : Bool} → b ≡ true → b ≢ false
clash t f = cc

differs : before ≢ asks
differs e = cc

step-IsStarting :
    (own : ℕ) (t u : EventLoopThread) → Step own t u → IsStarting own t → IsStarting own u
step-IsStarting own t u (asking caller) i = record { at = asked t.worker i.at; returned = λ h. cc }
  where
    asked :
        (w : Worker)
        → AtWorker own w t
        → AtWorker own w (record t { running = true; caller = asks })
    asked waits h = (h.0, inr refl)
    asked wakes h = h
    asked publishes h = h
    asked loops h = h
    asked ends h = h
step-IsStarting own t u (waking worker running) i = record {
  at = (subst (λ w. AtWorker own w t) worker i.at).0;
  returned = i.returned;
}
step-IsStarting own t u (publishing worker) i = record {
  at = (subst (λ w. AtWorker own w t) worker i.at, refl);
  returned = i.returned;
}
step-IsStarting own t u (promising worker) i = record {
  at = (refl, (subst (λ w. AtWorker own w t) worker i.at).1);
  returned = λ h. refl;
}
step-IsStarting own t u (returning caller promised) i = record {
  at = told t.worker i.at;
  returned = λ h. promised;
}
  where
    told : (w : Worker) → AtWorker own w t → AtWorker own w (record t { caller = returns })
    told waits h = absurd (clash promised h.0)
    told wakes h = absurd (clash promised h)
    told publishes h = absurd (clash promised h.0)
    told loops h = h
    told ends h = h
step-IsStarting own t u (quitting worker) i = record {
  at = (subst (λ w. AtWorker own w t) worker i.at).0;
  returned = i.returned;
}

reach-IsStarting : (own : ℕ) (t : EventLoopThread) → Reach own t → IsStarting own t
reach-IsStarting own t start = record { at = (refl, inl refl); returned = λ h. cc }
reach-IsStarting own t (later {t = u} r step) =
    step-IsStarting own u t step (reach-IsStarting own u r)

-- When `run` returns, `getLoop` gives the thread's own loop, however the two threads took turns, unless
-- the loop was ended already.
pub run_returns :
    (own : ℕ) (t : EventLoopThread)
    → Reach own t
    → t.caller ≡ returns
    → (t.loop ≡ some own) ⊎ (t.worker ≡ ends)
run_returns own t r back = by_worker t.worker refl i.at
  where
    i : IsStarting own t
    i = reach-IsStarting own t r

    by_worker :
        (w : Worker) → t.worker ≡ w → AtWorker own w t → (t.loop ≡ some own) ⊎ (t.worker ≡ ends)
    by_worker waits e h = absurd (clash (i.returned back) h.0)
    by_worker wakes e h = absurd (clash (i.returned back) h)
    by_worker publishes e h = absurd (clash (i.returned back) h.0)
    by_worker loops e h = inl h.1
    by_worker ends e h = inr e

pub data Steps (own : ℕ) : EventLoopThread → EventLoopThread → Type 0 where
  done : {t : EventLoopThread} → Steps own t t
  next : {t u v : EventLoopThread} → Step own t u → Steps own u v → Steps own t v

-- `run` never waits for ever: wherever the thread is when the caller waits, steps of the two lead to the
-- return.
pub run_can_return :
    (own : ℕ) (t : EventLoopThread)
    → Reach own t
    → t.caller ≡ asks
    → (u : EventLoopThread) × Steps own t u × (u.caller ≡ returns)
run_can_return own t r asked = by_worker t.worker refl i.at
  where
    i : IsStarting own t
    i = reach-IsStarting own t r

    by_worker :
        (w : Worker)
        → t.worker ≡ w
        → AtWorker own w t
        → (u : EventLoopThread) × Steps own t u × (u.caller ≡ returns)
    by_worker waits e h = (
      _,
      next (waking e (running h.1))
          (next (publishing refl) (next (promising refl) (next (returning asked refl) done))),
      refl,
    )
      where
        running : (t.caller ≡ before) ⊎ (t.running ≡ true) → t.running ≡ true
        running (inl b) = absurd (differs (sym b ∙ asked))
        running (inr b) = b
    by_worker wakes e h =
        (_, next (publishing e) (next (promising refl) (next (returning asked refl) done)), refl)
    by_worker publishes e h = (_, next (promising e) (next (returning asked refl) done), refl)
    by_worker loops e h = (_, next (returning asked h.0) done, refl)
    by_worker ends e h = (_, next (returning asked h) done, refl)
