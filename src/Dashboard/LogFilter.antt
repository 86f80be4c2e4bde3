-- ===== src/Dashboard/LogFilter.antt =====
-- src/components/StructuredLogViewer.tsx: which log lines it shows.
-- The methods of JavaScript's strings and `JSON.stringify` are parameters; nothing is assumed of them.
use text.Mathlib.Text.{◌==◌ as str_eq}
use ingestion_engine.Prelude.{
  ◌≡◌, String, Bool, true, false, not, ◌&&◌, ◌||◌, List, [], ◌∷◌, if◌then◌else◌, All, Bool-cases,
  inl, inr,
}
use ingestion_engine.Event.{Level, debug, info, warn, error, fatal, Fields, StructuredLog}

-- The levels as a JSON log line spells them.
unfoldable pub level_text : Level → String
level_text debug = "DEBUG"
level_text info = "INFO"
level_text warn = "WARN"
level_text error = "ERROR"
level_text fatal = "FATAL"

module _ (trim to_lower_case : String → String) (includes : String → String → Bool)
    (stringify : Fields → String) (level_filter search_query : String) where
  -- Whether a line passes both filters.
  unfoldable pub shows : StructuredLog → Bool
  unfolding level_text
  shows log =
      if not (str_eq level_filter "ALL") && not (str_eq (level_text log.level) level_filter)
      then false
      else if str_eq (trim search_query) ""
      then true
      else (let q = to_lower_case search_query in
          includes (to_lower_case log.msg) q
          || (includes (to_lower_case log.caller) q
              || includes (to_lower_case (stringify log.fields)) q))

  unfoldable pub filtered_logs : List StructuredLog → List StructuredLog
  unfolding shows
  filtered_logs [] = []
  filtered_logs (log ∷ rest) =
      let kept = filtered_logs rest in if shows log then log ∷ kept else kept

  -- With a level chosen, each line shown is of that level, whatever is searched for.
  pub filtered_logs-level :
      (logs : List StructuredLog)
      → str_eq level_filter "ALL" ≡ false
      → All (λ log. str_eq (level_text log.level) level_filter ≡ true) (filtered_logs logs)
  unfolding filtered_logs shows
  filtered_logs-level [] h = tt
  filtered_logs-level (log ∷ rest) h =
      let ih = filtered_logs-level rest h in
      elim (Bool-cases (str_eq (level_text log.level) level_filter)) [
        | inl same ↦ (elim (Bool-cases (shows log)) [
          | inl found ↦ rw found (same, ih)
          | inr hidden ↦ rw hidden ih
        ])
        | inr other ↦ rw (h, other) ih
      ]
