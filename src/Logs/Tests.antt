-- ===== src/Logs/Tests.antt =====
-- Tests of the model of the log files: its theorems at one log.
use turbo_multimedia_server.Common.{ℕ, ◌≡◌, Bool, true, List, [], ◌∷◌, Option, some}
use turbo_multimedia_server.Logs.{LogPath, FileLog, rotate_day, Time, FileLogMgr, on_check}
use turbo_multimedia_server.Logs.Checks.{rotations, on_check_lem}

-- "a.log"
abbrev path : LogPath
path = b'a' ∷ b'.' ∷ b'l' ∷ b'o' ∷ b'g' ∷ []

abbrev daily : FileLog
daily = record { fd = some 4; file_path = path; rotate_type = rotate_day }

abbrev manager : FileLogMgr
manager = record {
  logs = (path, daily) ∷ [];
  last = record { year = 2024; month = 1; day = 31; hour = 23; minute = 59 };
}

abbrev midnight : Time
midnight = record { year = 2024; month = 2; day = 1; hour = 0; minute = 0 }

abbrev opening : LogPath → Option ℕ
opening p = some 5

abbrev renaming : LogPath → LogPath → Bool
renaming p q = true

abbrev size : FileLog → ℕ
size log = 100

abbrev print : List ℕ → List ℕ
print numbers = numbers

on_check_lem_example :
    (on_check opening renaming size print midnight manager).1
    ≡ rotations opening renaming size print manager.logs midnight manager.last
on_check_lem_example = on_check_lem opening renaming size print midnight manager

abbrev later : FileLogMgr
later = (on_check opening renaming size print midnight manager).0
