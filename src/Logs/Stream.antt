-- ===== src/Logs/Stream.antt =====
-- base/LogStream.h, LogStream.cpp, Logger.h, Logger.cpp and TTime.cpp: a line of the log.
--
-- How `operator<<` prints a number, the identity of the thread, and what `gettimeofday` and `strftime`
-- give, are arguments.
pub mod Lines
mod Tests
use turbo_multimedia_server.Common.{
  ℕ, ◌+◌, ◌*◌, ◌/◌, ◌%◌, ◌^◌, ◌≡◌, ◌≤◌, ◌<◌, refl, sym, ap, ◌∙◌, inl, inr, ◌⊎◌, Bool, true, false,
  List, [], ◌∷◌, ◌++◌, Option, none, some, drop, leb, ◌==◌, if◌then◌else◌, arith, Bool-cases,
  Option-cases, length,
}
use turbo_multimedia_server.Text.{get_file_name, find_last_of}
use turbo_multimedia_server.Logs.{FileLog, Call, Time, write_log}

pub data LogLevel : Type 0 where
  trace debug info warning error level_max : LogLevel

-- The number of a level, and its name in `LogLevelStr`, which has none for `kLevelMax`: no line has that
-- level.
abbrev pub rank : LogLevel → ℕ
rank trace = 0
rank debug = 1
rank info = 2
rank warning = 3
rank error = 4
rank level_max = 5

abbrev pub level_name : LogLevel → List ℕ
level_name trace = b'T' ∷ b'R' ∷ b'A' ∷ b'C' ∷ b'E' ∷ []
level_name debug = b'D' ∷ b'E' ∷ b'B' ∷ b'U' ∷ b'G' ∷ []
level_name info = b'I' ∷ b'N' ∷ b'F' ∷ b'O' ∷ []
level_name warning = b'W' ∷ b'A' ∷ b'R' ∷ b'N' ∷ b'I' ∷ b'N' ∷ b'G' ∷ []
level_name error = b'E' ∷ b'R' ∷ b'R' ∷ b'O' ∷ b'R' ∷ []
level_name level_max = []

pub record Logger : Type 0 where
  pub file_log : Option FileLog
  pub level : LogLevel

pub new_logger : Option FileLog → Logger
new_logger file_log = record { file_log = file_log; level = debug }

pub set_level : LogLevel → Logger → Logger
set_level level l = record l { level = level }

pub get_level : Logger → LogLevel
get_level l = l.level

-- What a line is written to: the file, or `std::cout`.
pub data Output : Type 0 where
  asks : List Call → Output
  prints : List ℕ → Output

pub write : List ℕ → Logger → Output
unfolding write_log
write message l = elim l.file_log [
  | some log ↦ asks (write_log message log)
  | none ↦ prints message
]

-- `strrchr`: the text from the last `x` on.
pub strrchr : ℕ → List ℕ → Option (List ℕ)
strrchr x [] = none
strrchr x (c ∷ cs) = elim (strrchr x cs) [
  | some rest ↦ some rest
  | none ↦ if c == x then some (c ∷ cs) else none
]

-- The name of the file in a line of the log.
pub file_name : List ℕ → List ℕ
unfolding strrchr
file_name file = elim (strrchr b'/' file) [ none ↦ file | some rest ↦ drop 1 rest ]

-- Where a line comes from.
pub record Source : Type 0 where
  pub file : List ℕ
  pub line : ℕ
  pub func : List ℕ

abbrev pub LogStream : Type 0
LogStream = List ℕ

-- `t_thread_id` behind the constructor: 0 is no identity.
pub thread_id : ℕ → ℕ → ℕ
thread_id own known = if known == 0 then own else known

-- `operator<<` of texts, one after another.
pub put_all : List (List ℕ) → LogStream → LogStream
put_all [] s = s
put_all (v ∷ vs) s = put_all vs (s ++ v)

abbrev space : List ℕ
space = b' ' ∷ []

module _ (print : ℕ → List ℕ) where
  -- The constructor.
  pub new_stream : List ℕ → ℕ → LogLevel → Source → LogStream
  unfolding file_name put_all
  new_stream now id level at =
      put_all
        (now
          ∷ space
          ∷ print id
          ∷ space
          ∷ level_name level
          ∷ space
          ∷ (b'[' ∷ [])
          ∷ file_name at.file
          ∷ (b':' ∷ [])
          ∷ print at.line
          ∷ (b']' ∷ [])
          ∷ space
          ∷ (b'[' ∷ [])
          ∷ at.func
          ∷ (b']' ∷ b' ' ∷ [])
          ∷ [])
        []

  -- The macros `LOG_TRACE` to `LOG_ERROR`, with the destructor of the stream.
  pub log : Option Logger → List ℕ → ℕ → LogLevel → Source → List (List ℕ) → List Output
  unfolding new_stream put_all write get_level
  log none now id level at values = []
  log (some l) now id level at values =
      if leb (rank (get_level l)) (rank level)
      then write (put_all values (new_stream now id level at) ++ (10 ∷ [])) l ∷ []
      else []

-- `gettimeofday`.
pub record TimeVal : Type 0 where
  pub sec : ℕ
  pub usec : ℕ

pub now_sec : TimeVal → ℕ
now_sec tv = tv.sec

pub now_ms : TimeVal → ℕ
now_ms tv = (tv.sec * 1000 + tv.usec / 1000) % 2 ^ 64

-- `%03d` of a number below 1000.
pub three_digits : ℕ → List ℕ
three_digits n = (n / 100 + b'0') ∷ (n / 10 % 10 + b'0') ∷ (n % 10 + b'0') ∷ []

-- `formatted` is what `strftime` gives of the second.
pub iso_now_ms : List ℕ → TimeVal → List ℕ
unfolding three_digits
iso_now_ms formatted tv = formatted ++ (b'.' ∷ three_digits (tv.usec / 1000))

-- What `localtime_r` gives.
pub record Tm : Type 0 where
  pub tm_year : ℕ
  pub tm_mon : ℕ
  pub tm_mday : ℕ
  pub tm_hour : ℕ
  pub tm_min : ℕ

-- `TTime::now` of a date.
pub now_date : Tm → Time
now_date tm = record {
  year = tm.tm_year + 1900;
  month = tm.tm_mon + 1;
  day = tm.tm_mday;
  hour = tm.tm_hour;
  minute = tm.tm_min;
}
