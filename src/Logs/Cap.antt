-- ===== src/Logs/Cap.antt =====
-- The log list never outgrows its cap, and keeps the newest lines.
use ingestion_engine.Prelude.{
  ◌≤◌, ◌≡◌, ◌∙◌, arith, length, take, length-drop_last, drop_last-take, take_all, String, ◌∷◌,
}
use ingestion_engine.Event.{Level, Fields, StructuredLog}
use ingestion_engine.State.{Logs}
use ingestion_engine.Logs.{add_log}

abbrev pub IsCapped : Logs → Type 0
IsCapped l = length l.recent_logs ≤ l.max_logs

-- What each operation does to the log: the cap stays, and holds if it held.
abbrev pub Keeps : Logs → Logs → Type 0
Keeps l m = (IsCapped l → IsCapped m) × (m.max_logs ≡ l.max_logs)

abbrev pub log_line : String → Level → String → String → Fields → StructuredLog
log_line time level msg caller fields = record {
  time = time;
  level = level;
  msg = msg;
  caller = caller;
  fields = fields;
}

module _ (time : String) (level : Level) (msg caller : String) (fields : Fields) (l : Logs) where
  pub add_log-IsCapped : IsCapped l → IsCapped (add_log time level msg caller fields l)
  unfolding add_log
  add_log-IsCapped h =
      ground (arith, length-drop_last (log_line time level msg caller fields ∷ l.recent_logs))

  -- Where the log is within its cap, a new line goes to the front, and of the lines that were there
  -- the newest are kept, as many as fit under the cap.
  pub add_log-take :
      IsCapped l
      → (add_log time level msg caller fields l).recent_logs
        ≡ take l.max_logs (log_line time level msg caller fields ∷ l.recent_logs)
  unfolding add_log
  add_log-take h =
      let longer = log_line time level msg caller fields ∷ l.recent_logs in
      ground (arith, drop_last-take l.max_logs longer, take_all l.max_logs longer)

  add_log-max : (add_log time level msg caller fields l).max_logs ≡ l.max_logs
  unfolding add_log
  add_log-max = ground arith

  pub add_log-Keeps : Keeps l (add_log time level msg caller fields l)
  add_log-Keeps = (add_log-IsCapped, add_log-max)

pub Keeps-trans : (l m n : Logs) → Keeps l m → Keeps m n → Keeps l n
Keeps-trans l m n p q = (λ h. q.0 (p.0 h), q.1 ∙ p.1)
