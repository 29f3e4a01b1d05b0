-- ===== src/Logs/Checks.antt =====
-- When log files are rotated (base/FileLogMgr.cpp, `onCheck`).
use turbo_multimedia_server.Common.{
  ℕ, ◌≡◌, refl, sym, ap, subst, ◌∙◌, inl, inr, Bool, true, false, not, ◌&&◌, ◌||◌, List, [], ◌∷◌,
  ◌++◌, Option, ◌==◌, if◌then◌else◌, Bool-cases, ==_iff,
}
use turbo_multimedia_server.Logs.{
  LogPath, RotateType, no_rotate, rotate_hour, rotate_day, rotate_minute, FileLog, Call, Time,
  FileLogMgr, minus_one, put_away, rotate_days, rotate_hours, rotate_minutes, rotate_all, set_first,
  on_check,
}

-- A number that was set before and is another one now.
abbrev pub changed : ℕ → ℕ → Bool
changed now last = not (set_first now last == now)

and_false : (b : Bool) → (b && false) ≡ false
and_false true = refl
and_false false = refl

and_true : (b : Bool) → (b && true) ≡ b
and_true true = refl
and_true false = refl

or_false : (a b : Bool) → (a || b) ≡ false → (a ≡ false) × (b ≡ false)
or_false true b h = (h, absurd (clash h))
  where
    clash : true ≡ false → ⊥
    clash e = cc
or_false false b h = (refl, h)

not-false : (b : Bool) → not b ≡ false → b ≡ true
not-false true h = refl
not-false false h = cc

same_number : (n : ℕ) → (n == n) ≡ true
same_number n = (==_iff n n).1 refl

set_first_same : (n : ℕ) → set_first n n ≡ n
set_first_same n = elim (Bool-cases (n == minus_one)) [ inl b ↦ rw b refl | inr b ↦ rw b refl ]

unchanged_number : (now last : ℕ) → changed now last ≡ false → set_first now last ≡ now
unchanged_number now last h =
    (==_iff (set_first now last) now).0 (not-false (set_first now last == now) h)

abbrev any_changed : Time → Time → Bool
any_changed now last =
    changed now.day last.day || (changed now.hour last.hour || changed now.minute last.minute)

-- The manager behind a check.
abbrev checked : Time → ℕ → ℕ → List (LogPath × FileLog) → FileLogMgr
checked now year month logs = record {
  logs = logs;
  last = record { year = year; month = month; day = now.day; hour = now.hour; minute = now.minute };
}

module _ (open_file : LogPath → Option ℕ) (renamed : LogPath → LogPath → Bool)
    (file_size : FileLog → ℕ) (print : List ℕ → List ℕ) where
  -- How a log is put away: by its own kind of rotation alone, when that is due, under the year and the
  -- month of now and the other numbers as they were.
  abbrev pub rotation : RotateType → Time → Time → FileLog → List Call
  rotation no_rotate now last log = []
  rotation rotate_day now last log =
      if changed now.day last.day
      then put_away open_file renamed file_size print
          (now.year ∷ now.month ∷ set_first now.day last.day ∷ []) log
      else []
  rotation rotate_hour now last log =
      if changed now.hour last.hour
      then put_away open_file renamed file_size print
          (now.year ∷ now.month ∷ set_first now.day last.day ∷ set_first now.hour last.hour ∷ [])
          log
      else []
  rotation rotate_minute now last log =
      if changed now.minute last.minute
      then put_away open_file renamed file_size print
          (now.year
            ∷ now.month
            ∷ set_first now.day last.day
            ∷ set_first now.hour last.hour
            ∷ set_first now.minute last.minute
            ∷ [])
          log
      else []

  abbrev pub rotations : List (LogPath × FileLog) → Time → Time → List Call
  rotations [] now last = []
  rotations ((path, log) ∷ logs) now last =
      rotation log.rotate_type now last log ++ rotations logs now last

  abbrev stamps : Time → FileLogMgr → FileLogMgr
  stamps now s = record s {
    last = record {
      year = now.year;
      month = now.month;
      day = set_first now.day s.last.day;
      hour = set_first now.hour s.last.hour;
      minute = set_first now.minute s.last.minute;
    };
  }

  -- Of the three tests for a log, only that of its type may succeed.
  rotate_one :
      (now : Time) (s : FileLogMgr) (path : LogPath) (t : RotateType) (log : FileLog)
      (logs : List (LogPath × FileLog)) (rest : List Call)
      → rotate_all open_file renamed file_size print
          (changed now.day s.last.day)
          (changed now.hour s.last.hour)
          (changed now.minute s.last.minute)
          (stamps now s)
          logs
        ≡ rest
      → rotate_all open_file renamed file_size print
          (changed now.day s.last.day)
          (changed now.hour s.last.hour)
          (changed now.minute s.last.minute)
          (stamps now s)
          ((path, record log { rotate_type = t }) ∷ logs)
        ≡ rotation t now s.last (record log { rotate_type = t }) ++ rest
  unfolding rotate_all rotate_days rotate_hours rotate_minutes
  rotate_one now s path no_rotate log logs rest e =
      rw
        (
          and_false (changed now.day s.last.day),
          and_false (changed now.hour s.last.hour),
          and_false (changed now.minute s.last.minute),
        )
        e
  rotate_one now s path rotate_day log logs rest e =
      rw
        (
          and_true (changed now.day s.last.day),
          and_false (changed now.hour s.last.hour),
          and_false (changed now.minute s.last.minute),
          e,
        )
        refl
  rotate_one now s path rotate_hour log logs rest e =
      rw
        (
          and_false (changed now.day s.last.day),
          and_true (changed now.hour s.last.hour),
          and_false (changed now.minute s.last.minute),
          e,
        )
        refl
  rotate_one now s path rotate_minute log logs rest e =
      rw
        (
          and_false (changed now.day s.last.day),
          and_false (changed now.hour s.last.hour),
          and_true (changed now.minute s.last.minute),
          e,
        )
        refl

  rotate_all_lem :
      (now : Time) (s : FileLogMgr) (logs : List (LogPath × FileLog))
      → rotate_all open_file renamed file_size print
          (changed now.day s.last.day)
          (changed now.hour s.last.hour)
          (changed now.minute s.last.minute)
          (stamps now s)
          logs
        ≡ rotations logs now s.last
  unfolding rotate_all
  rotate_all_lem now s [] = refl
  rotate_all_lem now s ((path, log) ∷ logs) =
      rotate_one now s path log.rotate_type log logs (rotations logs now s.last)
        (rotate_all_lem now s logs)

  unchanged :
      (now last : Time) (logs : List (LogPath × FileLog))
      → any_changed now last ≡ false
      → rotations logs now last ≡ []
  unchanged now last [] h = refl
  unchanged now last ((path, log) ∷ logs) h =
      ap (λ l. l ++ rotations logs now last) (by_type log.rotate_type) ∙ unchanged now last logs h
    where
      no_day : changed now.day last.day ≡ false
      no_day =
          (or_false (changed now.day last.day)
            (changed now.hour last.hour || changed now.minute last.minute) h).0

      no_others : (changed now.hour last.hour || changed now.minute last.minute) ≡ false
      no_others =
          (or_false (changed now.day last.day)
            (changed now.hour last.hour || changed now.minute last.minute) h).1

      by_type : (t : RotateType) → rotation t now last log ≡ []
      by_type no_rotate = refl
      by_type rotate_day = rw no_day refl
      by_type rotate_hour =
          rw ((or_false (changed now.hour last.hour) (changed now.minute last.minute) no_others).0)
            refl
      by_type rotate_minute =
          rw ((or_false (changed now.hour last.hour) (changed now.minute last.minute) no_others).1)
            refl

  -- What `onCheck` comes to, by whether a number changed.
  abbrev outcome : Time → FileLogMgr → Bool → FileLogMgr × List Call
  outcome now s b =
      if b
      then (
        record s { last = now },
        rotate_all open_file renamed file_size print (changed now.day s.last.day)
            (changed now.hour s.last.hour) (changed now.minute s.last.minute) (stamps now s) s.logs,
      )
      else (
        record s {
          last = record s.last {
            day = set_first now.day s.last.day;
            hour = set_first now.hour s.last.hour;
            minute = set_first now.minute s.last.minute;
          };
        },
        [],
      )

  -- A check puts logs away as their own kinds of rotation are due, in the order of the map: none at the
  -- first check, or where the day, the hour and the minute are as they were; and each at most once. A log
  -- that is put away gets a name with the year and the month of now and the day, the hour and the minute
  -- as they were.
  pub on_check_lem :
      (now : Time) (s : FileLogMgr)
      → (on_check open_file renamed file_size print now s).1 ≡ rotations s.logs now s.last
  unfolding on_check
  on_check_lem now s = elim (Bool-cases (any_changed now s.last)) [
    | inl some_new ↦ ap (λ b. (outcome now s b).1) some_new ∙ rotate_all_lem now s s.logs
    | inr none_new ↦
        ap (λ b. (outcome now s b).1) none_new ∙ sym (unchanged now s.last s.logs none_new)
  ]

  settled :
      (now : Time) (year month : ℕ) (logs : List (LogPath × FileLog))
      → on_check open_file renamed file_size print now (checked now year month logs)
        ≡ (checked now year month logs, [])
  unfolding on_check
  settled now year month logs =
      rw
        (
          set_first_same now.day,
          set_first_same now.hour,
          set_first_same now.minute,
          same_number now.day,
          same_number now.hour,
          same_number now.minute,
        )
        refl

  -- A second check at the same time does nothing.
  pub on_check_again :
      (now : Time) (s : FileLogMgr)
      → let s₁ = (on_check open_file renamed file_size print now s).0 in
        on_check open_file renamed file_size print now s₁ ≡ (s₁, [])
  unfolding on_check
  on_check_again now s =
      let (year, month, same) = behind in
      subst (λ s₁. on_check open_file renamed file_size print now s₁ ≡ (s₁, [])) (sym same)
        (settled now year month s.logs)
    where
      behind :
          (year : ℕ) × (month : ℕ) × ((on_check open_file renamed file_size print now s).0
            ≡ checked now year month s.logs)
      behind = elim (Bool-cases (any_changed now s.last)) [
        | inl some_new ↦ (now.year, now.month, ap (λ b. (outcome now s b).0) some_new)
        | inr none_new ↦
            let (no_day, no_others) =
              or_false (changed now.day s.last.day)
                (changed now.hour s.last.hour || changed now.minute s.last.minute) none_new in
            let (no_hour, no_minute) = or_false _ _ no_others in
            (
              s.last.year,
              s.last.month,
              ap (λ b. (outcome now s b).0) none_new
                  ∙ rw
                      (
                        unchanged_number now.day s.last.day no_day,
                        unchanged_number now.hour s.last.hour no_hour,
                        unchanged_number now.minute s.last.minute no_minute,
                      )
                      refl,
            )
      ]
