-- ===== src/Loop.antt =====
-- network/net/EventLoop.h and EventLoop.cpp: the table of events, and one round of the loop.
--
-- What `epoll_wait` reports is an argument of a round; what is asked of epoll is listed in `requests`.
-- An event is known by its file descriptor: the object that an operation is given is the one that the
-- table holds under it. What a handler or a queued function does to the loop is a parameter; the
-- callbacks of timers are logged, as in Timing.antt.
pub mod Clock
pub mod Handoff
pub mod Hops
pub mod Interest
pub mod Rounds
pub mod Watched
mod Tests
use turbo_multimedia_server.Common.{
  ℕ, zero, suc, ◌+◌, ◌*◌, Bool, true, false, not, ◌&&◌, ◌||◌, List, [], ◌∷◌, ◌++◌, Option, none,
  some, length, ◌==◌, if◌then◌else◌, Result, ok, ◌>>=◌,
}
use turbo_multimedia_server.Timing.{
  TimingWheel, Entry, init, insert_entry, run_after, run_every, on_timer,
}

-- The flags that an event waits for: `kEventRead`, which is two bits of epoll, and `kEventWrite`.
pub record Flags : Type 0 where
  pub read : Bool
  pub write : Bool

-- What is asked of epoll: `EPOLL_CTL_ADD`, `EPOLL_CTL_MOD` and `EPOLL_CTL_DEL`.
pub data Request : Type 0 where
  ctl_add ctl_mod : ℕ → Flags → Request
  ctl_del : ℕ → Request

-- The bits that epoll reports.
pub record Report : Type 0 where
  pub fd : ℕ
  pub error : Bool
  pub hang_up : Bool
  pub readable : Bool
  pub priority : Bool
  pub writable : Bool

pub data Handler : Type 0 where
  on_error on_close on_read on_write : Handler

-- What the loop calls: a handler of an event, and a function that was queued.
pub data Call : Type 0 where
  handles : ℕ → Handler → Call
  calls : ℕ → Call

abbrev pub Events : Type 0
Events = List (ℕ × Flags)

-- `capacity` is the size of `epoll_events_`, `pipe` the descriptor of the pipe if there is one, `woken`
-- how often it was written. `called` has what the loop called so far, and `fired` the timers.
pub record EventLoop : Type 0 where
  pub events : Events
  pub requests : List Request
  pub capacity : ℕ
  pub functions : List ℕ
  pub pipe : Option ℕ
  pub woken : ℕ
  pub timing_wheel : TimingWheel
  pub called : List Call
  pub fired : List (ℕ × ℕ)

-- `EventLoop()`, in a thread that has a loop already or not, where `epoll_create` succeeds or not: none
-- where the process exits.
pub construct : Bool → Bool → Option EventLoop
construct created another =
    if not created
    then none
    else if another
    then none
    else some (record {
      events = [];
      requests = [];
      capacity = 1024;
      functions = [];
      pipe = none;
      woken = 0;
      timing_wheel = init;
      called = [];
      fired = [];
    })

-- `find`, `erase` and `[]` of a map from descriptors.
abbrev pub lookup {ℓ} : {A : Type ℓ} → ℕ → List (ℕ × A) → Option A
lookup x [] = none
lookup x ((fd, f) ∷ es) = let rest = lookup x es in if x == fd then some f else rest

abbrev pub erase {ℓ} : {A : Type ℓ} → ℕ → List (ℕ × A) → List (ℕ × A)
erase x [] = []
erase x ((fd, f) ∷ es) = let rest = erase x es in if x == fd then rest else (fd, f) ∷ rest

abbrev pub put {ℓ} : {A : Type ℓ} → ℕ → A → List (ℕ × A) → List (ℕ × A)
put x f es = (x, f) ∷ erase x es

abbrev pub event_read : Flags
event_read = record { read = true; write = false }

abbrev pub ask : Events → Request → EventLoop → EventLoop
ask es r l = record l { events = es; requests = r ∷ l.requests }

pub add_event : ℕ → EventLoop → EventLoop
add_event fd l = elim (lookup fd l.events) [
  | some f ↦ l
  | none ↦ ask (put fd event_read l.events) (ctl_add fd event_read) l
]

pub remove_event : ℕ → EventLoop → EventLoop
remove_event fd l = elim (lookup fd l.events) [
  | none ↦ l
  | some f ↦ ask (erase fd l.events) (ctl_del fd) l
]

pub enable_event_reading : ℕ → Bool → EventLoop → EventLoop
enable_event_reading fd enable l = elim (lookup fd l.events) [
  | none ↦ l
  | some f ↦
      let f' : Flags = record f { read = enable } in ask (put fd f' l.events) (ctl_mod fd f') l
]

pub enable_event_writing : ℕ → Bool → EventLoop → EventLoop
enable_event_writing fd enable l = elim (lookup fd l.events) [
  | none ↦ l
  | some f ↦
      let f' : Flags = record f { write = enable } in ask (put fd f' l.events) (ctl_mod fd f') l
]

-- Which handler the bits lead to, if any.
pub handler_of : Report → Option Handler
handler_of e =
    if e.error
    then some on_error
    else if e.hang_up && not e.readable
    then some on_close
    else if e.readable || e.priority
    then some on_read
    else if e.writable
    then some on_write
    else none

-- `weakup`; `fresh` is the descriptor of a pipe that is made.
pub weakup : ℕ → EventLoop → EventLoop
unfolding add_event
weakup fresh l = elim l.pipe [
  | some fd ↦ record l { woken = suc l.woken }
  | none ↦
      let l₁ = add_event fresh (record l { pipe = some fresh }) in
      record l₁ { woken = suc l₁.woken }
]

-- `epoll_events_.resize` when all of it was filled.
abbrev pub resized : ℕ → EventLoop → EventLoop
resized n l = if n == l.capacity then record l { capacity = l.capacity * 2 } else l

module _ (effect : Call → EventLoop → EventLoop) where
  abbrev pub call : Call → EventLoop → EventLoop
  call c l = effect c (record l { called = l.called ++ (c ∷ []) })

  pub dispatch : Report → EventLoop → EventLoop
  unfolding handler_of
  dispatch e l = elim (lookup e.fd l.events) [
    | none ↦ l
    | some f ↦ elim (handler_of e) [ none ↦ l | some h ↦ call (handles e.fd h) l ]
  ]

  pub dispatch_all : List Report → EventLoop → EventLoop
  unfolding dispatch
  dispatch_all [] l = l
  dispatch_all (e ∷ es) l = dispatch_all es (dispatch e l)

  -- `runInLoop`, in the loop's thread or in another one.
  pub run_in_loop : Bool → ℕ → ℕ → EventLoop → EventLoop
  unfolding weakup
  run_in_loop in_thread fresh f l =
      if in_thread
      then call (calls f) l
      else weakup fresh (record l { functions = l.functions ++ (f ∷ []) })

  -- `runFunctions` over the queue as it is when the lock is taken: the lock keeps others from pushing,
  -- and in the loop's thread `runInLoop` does not push. Each is removed behind its call.
  pub run_queue_of : List ℕ → EventLoop → EventLoop
  run_queue_of [] l = record l { functions = [] }
  run_queue_of (f ∷ fs) l = run_queue_of fs (call (calls f) (record l { functions = f ∷ fs }))

  pub run_functions : EventLoop → EventLoop
  unfolding run_queue_of
  run_functions l = run_queue_of l.functions l

  -- One round behind `epoll_wait`: its reports, or none if it failed; and the time.
  pub round : ℕ → Option (List Report) → ℕ → EventLoop → Result EventLoop
  unfolding dispatch_all run_functions
  round fuel none now l = ok l
  round fuel (some es) now l =
      let l₁ = run_functions (resized (length es) (dispatch_all es l)) in
      on_timer fuel now l₁.timing_wheel >>= λ r.
      ok (record l₁ { timing_wheel = r.0; fired = l₁.fired ++ r.1 })

-- `runAfter`, `runEvery` and `insertEntry` in the loop's thread. `runEvery` calls `runAfter` of the wheel.
pub after_in_loop : ℕ → ℕ → ℕ → EventLoop → Result EventLoop
after_in_loop fuel delay f l = run_after fuel delay f l.timing_wheel >>= λ r.
    ok (record l { timing_wheel = r.0; fired = l.fired ++ r.1 })

pub every_in_loop : ℕ → ℕ → ℕ → EventLoop → Result EventLoop
every_in_loop fuel interval f l = run_after fuel interval f l.timing_wheel >>= λ r.
    ok (record l { timing_wheel = r.0; fired = l.fired ++ r.1 })

-- What a thread other than the loop's queues for `runEvery`.
pub every_queued : ℕ → ℕ → ℕ → EventLoop → Result EventLoop
every_queued fuel interval f l = run_every fuel interval f l.timing_wheel >>= λ r.
    ok (record l { timing_wheel = r.0; fired = l.fired ++ r.1 })

pub insert_in_loop : ℕ → Entry → EventLoop → Result EventLoop
insert_in_loop delay e l =
    insert_entry delay e l.timing_wheel >>= λ w. ok (record l { timing_wheel = w })
