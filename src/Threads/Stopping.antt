-- ===== src/Threads/Stopping.antt =====
-- How a thread with a loop is stopped (network/net/EventLoopThread.cpp, the destructor, `run` and
-- `startLoop`, and network/net/EventLoop.cpp, `loop` and `quit`), as moves of two threads.
--
-- A move is none where its thread cannot make it. What a round of the loop calls is not part of it.
pub mod Hanging
pub mod Joining
mod Tests
use turbo_multimedia_server.Common.{
  ℕ, suc, ◌+◌, ◌≡◌, ◌≢◌, refl, sym, ap, ◌∙◌, ◌⊎◌, inl, inr, Bool, true, false, List, [], ◌∷◌, ◌++◌,
  Option, none, some, if◌then◌else◌, run_moves, arith, Option-cases, Bool-cases, subst,
}

-- The thread of the loop: in the wait of `startLoop`, behind it, behind the assignment of `loop_`, behind
-- the promise, in the `while` of `loop`, behind `startLoop`'s last line, and behind the destructor of the
-- loop.
pub data Stage : Type 0 where
  sleeps awake published promises rounds left over : Stage

-- The thread that destroys: before `run`, in its wait, behind it, behind `quit`, and behind `join`.
pub data Owner : Type 0 where
  starts asked answered told joined : Owner

-- `loop` is whether `loop_` is set, `looping` is the loop's `looping_`, and `closes` counts the calls of
-- `close` on its `epoll_`.
pub record Stopping : Type 0 where
  pub running : Bool
  pub loop : Bool
  pub promised : Bool
  pub looping : Bool
  pub closes : ℕ
  pub stage : Stage
  pub owner : Owner

pub wake : Stopping → Option Stopping
wake s = elim s.stage [
  | sleeps ↦ if s.running then some (record s { stage = awake }) else none
  | _ ↦ none
]

pub publish : Stopping → Option Stopping
publish s = elim s.stage [ awake ↦ some (record s { loop = true; stage = published }) | _ ↦ none ]

pub promise : Stopping → Option Stopping
promise s = elim s.stage [
  | published ↦ some (record s { promised = true; stage = promises })
  | _ ↦ none
]

-- The first line of `loop`.
pub enter_loop : Stopping → Option Stopping
enter_loop s = elim s.stage [
  | promises ↦ some (record s { looping = true; stage = rounds })
  | _ ↦ none
]

-- The test of the `while`, and a round, or the end of `startLoop`.
pub round : Stopping → Option Stopping
round s = elim s.stage [
  | rounds ↦
      if s.looping then some s else some (record s { running = false; loop = false; stage = left })
  | _ ↦ none
]

pub quit : Stopping → Stopping
quit s = record s { looping = false; closes = suc s.closes }

-- The loop is destroyed, which calls `quit`.
pub destroy : Stopping → Option Stopping
unfolding quit
destroy s = elim s.stage [ left ↦ some (record (quit s) { stage = over }) | _ ↦ none ]

pub ask : Stopping → Option Stopping
ask s = elim s.owner [ starts ↦ some (record s { running = true; owner = asked }) | _ ↦ none ]

pub answer : Stopping → Option Stopping
answer s = elim s.owner [
  | asked ↦ if s.promised then some (record s { owner = answered }) else none
  | _ ↦ none
]

pub tell : Stopping → Option Stopping
unfolding quit
tell s = elim s.owner [
  | answered ↦
      if s.loop then some (record (quit s) { owner = told }) else some (record s { owner = told })
  | _ ↦ none
]

pub join : Stopping → Option Stopping
join s = elim s.owner [
  | told ↦ elim s.stage [ over ↦ some (record s { owner = joined }) | _ ↦ none ]
  | _ ↦ none
]

pub data Move : Type 0 where
  wakes publishes promising enters turns destroys asks answers tells joins : Move

pub move : Move → Stopping → Option Stopping
unfolding wake publish promise enter_loop round destroy ask answer tell join
move wakes s = wake s
move publishes s = publish s
move promising s = promise s
move enters s = enter_loop s
move turns s = round s
move destroys s = destroy s
move asks s = ask s
move answers s = answer s
move tells s = tell s
move joins s = join s

abbrev pub run : List Move → Stopping → Option Stopping
run ms s = run_moves move ms s

-- A thread that was made.
abbrev pub made : Stopping
made = record {
  running = false;
  loop = false;
  promised = false;
  looping = false;
  closes = 0;
  stage = sleeps;
  owner = starts;
}
