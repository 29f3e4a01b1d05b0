-- ===== src/Loop/Handoff.antt =====
-- How other threads hand functions to a loop (network/net/EventLoop.cpp, `runInLoop`, `weakup` and
-- `runFunctions`, and network/net/PipeEvent.cpp), as steps that take turns.
--
-- The pipe is there, as it is behind the first `weakup`. It holds `capacity` numbers; `write` to a full
-- one waits, and epoll reports one that is not empty. The lock is held by one thread at a time.
pub mod Order
pub mod Stuck
pub mod Waking
mod Tests
use turbo_multimedia_server.Common.{
  ℕ, zero, suc, ◌+◌, ◌-◌, List, [], ◌∷◌, ◌++◌, Option, none, some, ltb, if◌then◌else◌, run_moves,
}

-- Who holds `func_mtx_`: nobody, a thread that has just got it in `runInLoop`, one that has pushed its
-- function, or the loop in `runFunctions`.
pub data Holder : Type 0 where
  nobody entered pushed looping : Holder

-- Where the loop is: in `epoll_wait`, before `onRead` of the pipe, before `runFunctions`, and in it.
pub data Place : Type 0 where
  waits reads wants runs : Place

-- `pipe` counts the numbers in the pipe, `posted` has all functions that were pushed, and `called` those
-- that were called.
pub record Shared : Type 0 where
  pub holder : Holder
  pub place : Place
  pub pipe : ℕ
  pub functions : List ℕ
  pub posted : List ℕ
  pub called : List ℕ

-- `runInLoop` of another thread: the lock, the push, and `weakup` with the unlock behind it.
pub enter : Shared → Option Shared
enter s = elim s.holder [ nobody ↦ some (record s { holder = entered }) | _ ↦ none ]

pub push_function : ℕ → Shared → Option Shared
push_function f s = elim s.holder [
  | entered ↦ some (record s {
    holder = pushed;
    functions = s.functions ++ (f ∷ []);
    posted = s.posted ++ (f ∷ []);
  })
  | _ ↦ none
]

pub write_pipe : ℕ → Shared → Option Shared
write_pipe capacity s = elim s.holder [
  | pushed ↦
      if ltb s.pipe capacity then some (record s { holder = nobody; pipe = suc s.pipe }) else none
  | _ ↦ none
]

-- `epoll_wait` returns: because of the pipe, or of something else or the time.
pub poll : Shared → Option Shared
poll s = elim s.place [
  | waits ↦ some (record s { place = if ltb 0 s.pipe then reads else wants })
  | _ ↦ none
]

-- `PipeEvent::onRead` takes one number.
pub read_pipe : Shared → Option Shared
read_pipe s = elim s.place [
  | reads ↦ some (record s { place = wants; pipe = s.pipe - 1 })
  | _ ↦ none
]

pub lock_functions : Shared → Option Shared
lock_functions s = elim s.place [
  | wants ↦ elim s.holder [ nobody ↦ some (record s { holder = looping; place = runs }) | _ ↦ none ]
  | _ ↦ none
]

pub call_front : Shared → Option Shared
call_front s = elim s.place [
  | runs ↦ elim s.functions [
    | [] ↦ none
    | f ∷ fs ↦ some (record s { functions = fs; called = s.called ++ (f ∷ []) })
  ]
  | _ ↦ none
]

-- The queue is empty: the loop goes round.
pub unlock_functions : Shared → Option Shared
unlock_functions s = elim s.place [
  | runs ↦ elim s.functions [
    | [] ↦ some (record s { holder = nobody; place = waits })
    | f ∷ fs ↦ none
  ]
  | _ ↦ none
]

pub data Move : Type 0 where
  enters : Move
  pushes : ℕ → Move
  writes polls reads_pipe locks calls_front unlocks : Move

-- What a move does, none where it is not possible.
pub step : ℕ → Move → Shared → Option Shared
unfolding enter push_function write_pipe poll read_pipe lock_functions call_front unlock_functions
step capacity enters s = enter s
step capacity (pushes f) s = push_function f s
step capacity writes s = write_pipe capacity s
step capacity polls s = poll s
step capacity reads_pipe s = read_pipe s
step capacity locks s = lock_functions s
step capacity calls_front s = call_front s
step capacity unlocks s = unlock_functions s

abbrev pub run : ℕ → List Move → Shared → Option Shared
run capacity ms s = run_moves (step capacity) ms s

-- Nothing was handed over yet.
abbrev pub idle : Shared
idle = record { holder = nobody; place = waits; pipe = 0; functions = []; posted = []; called = [] }
