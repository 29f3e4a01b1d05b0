-- ===== src/Threads.antt =====
-- network/net/EventLoopThreadPool.cpp and EventLoopThread.cpp: which loop is next, and how a thread is
-- started.
--
-- A loop is a number. A thread is the steps of `startLoop` and of the thread that calls `run`; that the
-- lock and the condition variable work as documented is in the guards of `Step`.
pub mod Turns
pub mod Starting
pub mod Stopping
mod Tests
use turbo_multimedia_server.Common.{
  ℕ, zero, suc, ◌+◌, ◌%◌, ◌^◌, ◌≡◌, Bool, true, false, not, ◌&&◌, List, [], ◌∷◌, ◌++◌, Option, none,
  some, get_elem?, length, ltb, ◌==◌, if◌then◌else◌, Result, ok, fail, out_of_range, size_of_int,
  replicate,
}

-- `loops` has what `getLoop` of each thread gives, none for a null pointer.
pub record EventLoopThreadPool : Type 0 where
  pub loops : List (Option ℕ)
  pub loop_index : ℕ

-- How many threads the constructor makes; an `int` is its bit pattern.
pub thread_count : ℕ → ℕ
thread_count num = if ltb 0 num && ltb num (2 ^ 31) then num else 1

-- The processor that each of the threads from `i` on is bound to, if there are any.
pub bindings : ℕ → ℕ → ℕ → ℕ → List (Option ℕ)
bindings start cpus i zero = []
bindings start cpus i (suc n) =
    let first = (if ltb start (2 ^ 31) then start else 0) in
    (if ltb 0 cpus && ltb cpus (2 ^ 31) then some ((first + i) % cpus) else none)
    ∷ bindings start cpus (suc i) n

-- The constructor: no thread has a loop before it is started.
pub init : ℕ → EventLoopThreadPool
unfolding thread_count
init num = record { loops = replicate (thread_count num) none; loop_index = 0 }

pub get_event_loops : EventLoopThreadPool → List (Option ℕ)
get_event_loops p = p.loops

-- The index is an `int`, which wraps around.
pub get_next_loop : EventLoopThreadPool → Result (Option ℕ × EventLoopThreadPool)
get_next_loop p = elim (get_elem? p.loops (size_of_int p.loop_index % length p.loops)) [
  | none ↦ fail out_of_range
  | some loop ↦ ok (loop, record p { loop_index = (p.loop_index + 1) % 2 ^ 32 })
]

-- Where the thread is in `startLoop`: before the wait, behind it, behind the assignment of `loop_`, in
-- the loop, and behind the loop.
pub data Worker : Type 0 where
  waits wakes publishes loops ends : Worker

-- Where the caller is in `run`: before it, behind the assignment of `running_`, and behind the wait for
-- the promise.
pub data Caller : Type 0 where
  before asks returns : Caller

pub record EventLoopThread : Type 0 where
  pub running : Bool
  pub loop : Option ℕ
  pub promised : Bool
  pub worker : Worker
  pub caller : Caller

abbrev pub fresh : EventLoopThread
fresh = record { running = false; loop = none; promised = false; worker = waits; caller = before }

-- What the two threads may do next. The loop of the thread is `own`; `quit` ends it.
pub data Step (own : ℕ) (t : EventLoopThread) : EventLoopThread → Type 0 where
  asking : t.caller ≡ before → Step own t (record t { running = true; caller = asks })
  waking : t.worker ≡ waits → t.running ≡ true → Step own t (record t { worker = wakes })
  publishing : t.worker ≡ wakes → Step own t (record t { loop = some own; worker = publishes })
  promising : t.worker ≡ publishes → Step own t (record t { promised = true; worker = loops })
  returning : t.caller ≡ asks → t.promised ≡ true → Step own t (record t { caller = returns })
  quitting :
      t.worker ≡ loops → Step own t (record t { running = false; loop = none; worker = ends })

pub data Reach (own : ℕ) : EventLoopThread → Type 0 where
  start : Reach own fresh
  later : {t u : EventLoopThread} → Reach own t → Step own t u → Reach own u
