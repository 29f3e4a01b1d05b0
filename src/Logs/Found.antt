-- ===== src/Logs/Found.antt =====
-- The log of a path (base/FileLogMgr.cpp, `getFileLog`).
use turbo_multimedia_server.Common.{
  ℕ, ◌≡◌, refl, sym, ◌∙◌, inl, inr, ◌⊎◌, Bool, List, [], ◌∷◌, ◌++◌, Option, none, some, find_text,
  same_text, same_text_refl, Bool-cases, Option-cases,
}
use turbo_multimedia_server.Logs.{
  opens, LogPath, FileLog, Call, FileLogMgr, open_log, get_file_log, new_log,
}

module _ (open_file : LogPath → Option ℕ) (renamed : LogPath → LogPath → Bool)
    (file_size : FileLog → ℕ) (print : List ℕ → List ℕ) where
  find_text-new :
      (path : LogPath) (log : FileLog) (logs : List (LogPath × FileLog))
      → find_text path logs ≡ none
      → find_text path (logs ++ ((path, log) ∷ [])) ≡ some log
  find_text-new path log [] h = rw (same_text_refl path) refl
  find_text-new path log ((p, l) ∷ logs) h = elim (Bool-cases (same_text path p)) [
    | inl b ↦ absurd (found (sym (rw b refl) ∙ h))
    | inr b ↦ rw b (find_text-new path log logs (sym (rw b refl) ∙ h))
  ]
    where
      found : some l ≡ none → ⊥
      found e = cc

  -- A log that was given for a path is given again, and the file is opened once: asking again calls
  -- nothing and changes nothing. There is none where the file cannot be opened, and it is not kept then.
  pub get_file_log_again :
      (path : LogPath) (s : FileLogMgr)
      → ((open_file path ≡ none)
          × (get_file_log open_file renamed file_size print path s ≡ (none, s, opens path ∷ [])))
        ⊎ ((log : FileLog) × (s' : FileLogMgr) × (calls : List Call) × (get_file_log open_file
                renamed file_size print path s
              ≡ (some log, s', calls))
            × (get_file_log open_file renamed file_size print path s' ≡ (some log, s', [])))
  unfolding get_file_log open_log
  get_file_log_again path s = elim (Option-cases (find_text path s.logs)) [
    | inr (log, known) ↦
        inr (log, s, [], rw (get_file_log, known) refl, rw (get_file_log, known) refl)
    | inl unknown ↦ elim (Option-cases (open_file path)) [
      | inl fails ↦ inl (fails, rw (get_file_log, unknown, fails) refl)
      | inr (fd, works) ↦
          let log : FileLog = record new_log { file_path = path; fd = some fd } in
          inr (
            log,
            record s { logs = s.logs ++ ((path, log) ∷ []) },
            opens path ∷ [],
            rw (get_file_log, unknown, works) refl,
            rw (get_file_log, find_text-new path log s.logs unknown) refl,
          )
    ]
  ]
