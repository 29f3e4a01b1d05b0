-- ===== src/Logs.antt =====
-- base/FileLog.h, FileLog.cpp, FileLogMgr.h and FileLogMgr.cpp: log files and when they are rotated.
--
-- What `open`, `rename` and `lseek` give, and `snprintf`, are parameters; what is asked of the kernel is
-- listed. The map of logs is a list in the order of its iteration. An `int` is its bit pattern.
pub mod Checks
pub mod Found
pub mod Stream
mod Tests
use turbo_multimedia_server.Common.{
  ℕ, ◌-◌, ◌^◌, Bool, true, false, not, ◌&&◌, ◌||◌, List, [], ◌∷◌, ◌++◌, Option, none, some, ltb,
  ◌==◌, if◌then◌else◌, find_text, same_text,
}
use turbo_multimedia_server.Text.{get_file_path, get_file_name_without_ext, get_file_ext}

abbrev pub LogPath : Type 0
LogPath = List ℕ

pub data RotateType : Type 0 where
  no_rotate rotate_hour rotate_day rotate_minute : RotateType

-- `fd` is none where `fd_` is negative.
pub record FileLog : Type 0 where
  pub fd : Option ℕ
  pub file_path : LogPath
  pub rotate_type : RotateType

-- What is asked of the kernel.
pub data Call : Type 0 where
  opens : LogPath → Call
  renames : LogPath → LogPath → Call
  duplicates : ℕ → Option ℕ → Call
  closes : ℕ → Call
  writes : ℕ → List ℕ → Call

-- `FileLog()`.
abbrev pub new_log : FileLog
new_log = record { fd = none; file_path = []; rotate_type = no_rotate }

pub set_rotate_type : RotateType → FileLog → FileLog
set_rotate_type t log = record log { rotate_type = t }

-- Without a file, the text goes to the standard output.
pub write_log : List ℕ → FileLog → List Call
write_log message log = writes (elim log.fd [ none ↦ 1 | some fd ↦ fd ]) message ∷ []

-- `TTime::now`.
pub record Time : Type 0 where
  pub year : ℕ
  pub month : ℕ
  pub day : ℕ
  pub hour : ℕ
  pub minute : ℕ

-- The second is not read. `last_year` to `last_minute` are -1 at first.
pub record FileLogMgr : Type 0 where
  pub logs : List (LogPath × FileLog)
  pub last : Time

abbrev pub minus_one : ℕ
minus_one = 2 ^ 32 - 1

abbrev pub init : FileLogMgr
init = record {
  logs = [];
  last = record {
    year = minus_one;
    month = minus_one;
    day = minus_one;
    hour = minus_one;
    minute = minus_one;
  };
}

abbrev pub is_day : RotateType → Bool
is_day rotate_day = true
is_day _ = false

abbrev pub is_hour : RotateType → Bool
is_hour rotate_hour = true
is_hour _ = false

abbrev pub is_minute : RotateType → Bool
is_minute rotate_minute = true
is_minute _ = false

-- A number that was never set is that of now.
abbrev pub set_first : ℕ → ℕ → ℕ
set_first now last = if last == minus_one then now else last

-- `erase` of the map.
abbrev pub erase_text : LogPath → List (LogPath × FileLog) → List (LogPath × FileLog)
erase_text path [] = []
erase_text path ((p, log) ∷ logs) =
    let rest = erase_text path logs in if same_text path p then rest else (p, log) ∷ rest

pub remove_file_log : FileLog → FileLogMgr → FileLogMgr
remove_file_log log s = record s { logs = erase_text log.file_path s.logs }

module _ (open_file : LogPath → Option ℕ) (renamed : LogPath → LogPath → Bool)
    (file_size : FileLog → ℕ) (print : List ℕ → List ℕ) where
  -- `FileLog::open`.
  pub open_log : LogPath → FileLog → Bool × FileLog × List Call
  open_log path log =
      let log₁ : FileLog = record log { file_path = path; fd = open_file path } in
      (elim log₁.fd [ none ↦ false | some fd ↦ true ], log₁, opens path ∷ [])

  pub rotate : LogPath → FileLog → List Call
  rotate [] log = []
  rotate (c ∷ cs) log =
      renames log.file_path (c ∷ cs)
      ∷ (if renamed log.file_path (c ∷ cs)
          then opens log.file_path ∷ elim (open_file log.file_path) [
            | none ↦ []
            | some fd ↦ duplicates fd log.fd ∷ closes fd ∷ []
          ]
          else [])

  -- The name of a file that is put away, with the numbers of its time.
  abbrev pub stamped : List ℕ → FileLog → LogPath
  stamped time log =
      get_file_path log.file_path
      ++ (b'/'
          ∷ (get_file_name_without_ext log.file_path
              ++ (print time ++ (b'.' ∷ get_file_ext log.file_path))))

  -- The test `<= 0` of an unsigned size.
  abbrev pub put_away : List ℕ → FileLog → List Call
  put_away time log = if file_size log == 0 then [] else rotate (stamped time log) log

  pub rotate_days : FileLogMgr → FileLog → List Call
  unfolding rotate
  rotate_days s log = put_away (s.last.year ∷ s.last.month ∷ s.last.day ∷ []) log

  pub rotate_hours : FileLogMgr → FileLog → List Call
  unfolding rotate
  rotate_hours s log = put_away (s.last.year ∷ s.last.month ∷ s.last.day ∷ s.last.hour ∷ []) log

  pub rotate_minutes : FileLogMgr → FileLog → List Call
  unfolding rotate
  rotate_minutes s log =
      put_away (s.last.year ∷ s.last.month ∷ s.last.day ∷ s.last.hour ∷ s.last.minute ∷ []) log

  -- The loop of `onCheck` over the logs.
  pub rotate_all : Bool → Bool → Bool → FileLogMgr → List (LogPath × FileLog) → List Call
  unfolding rotate_days rotate_hours rotate_minutes
  rotate_all day hour minute s [] = []
  rotate_all day hour minute s ((path, log) ∷ logs) =
      let days = rotate_days s log in
      let hours = rotate_hours s log in
      let minutes = rotate_minutes s log in
      (if day && is_day log.rotate_type then days else [])
      ++ ((if hour && is_hour log.rotate_type then hours else [])
          ++ ((if minute && is_minute log.rotate_type then minutes else [])
              ++ rotate_all day hour minute s logs))

  pub on_check : Time → FileLogMgr → FileLogMgr × List Call
  unfolding rotate_all
  on_check now s =
      let day = set_first now.day s.last.day in
      let hour = set_first now.hour s.last.hour in
      let minute = set_first now.minute s.last.minute in
      let day_changed = not (day == now.day) in
      let hour_changed = not (hour == now.hour) in
      let minute_changed = not (minute == now.minute) in
      let s₁ : FileLogMgr = record s {
        last = record s.last { day = day; hour = hour; minute = minute };
      } in
      let s₂ : FileLogMgr = record s {
        last = record {
          year = now.year;
          month = now.month;
          day = day;
          hour = hour;
          minute = minute;
        };
      } in
      if day_changed || (hour_changed || minute_changed)
      then (record s { last = now }, rotate_all day_changed hour_changed minute_changed s₂ s.logs)
      else (s₁, [])

  pub get_file_log : LogPath → FileLogMgr → Option FileLog × FileLogMgr × List Call
  unfolding open_log
  get_file_log path s = elim (find_text path s.logs) [
    | some log ↦ (some log, s, [])
    | none ↦
        let (opened, log, calls) = open_log path new_log in
        if opened
        then (some log, record s { logs = s.logs ++ ((path, log) ∷ []) }, calls)
        else (none, s, calls)
  ]
