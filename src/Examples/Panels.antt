-- ===== src/Examples/Panels.antt =====
-- The dashboard's theorems at concrete answers.
use ingestion_engine.Prelude.{
  ◌≡◌, ◌++◌, refl, arith, String, Option, none, some, List, [], ◌∷◌, pos,
}
use ingestion_engine.Event.{Fields, StructuredLog, info, warn}
use ingestion_engine.State.{Engine, default_config}
use ingestion_engine.Logs.Cap.{log_line}
use ingestion_engine.Tuning.{ConfigUpdate}
use ingestion_engine.Report.{EngineMetrics, report}
use ingestion_engine.Server.{handle, post_config}
use ingestion_engine.Dashboard.Home.{new_app, polls, points, last_25, polls_history}
use ingestion_engine.Dashboard.ConfigForm.{new_form, adopt, sync, submission, stale_form_reverts}
use ingestion_engine.Examples.Data.{env, small}

abbrev shown : EngineMetrics
shown = report env small

abbrev answers : List (String × Option EngineMetrics)
answers = ("00:01", some shown) ∷ ("00:02", none) ∷ ("00:03", some shown) ∷ []

polls_history_example : (polls answers new_app).history ≡ last_25 ([] ++ points answers)
unfolding new_app
polls_history_example = polls_history answers new_app (omega arith)

-- The default settings, and an update of a rate limit only.
abbrev tuned : Engine
tuned = record small { config = default_config }

abbrev slower : ConfigUpdate
slower = record {
  worker_count = none;
  channel_capacity = none;
  batch_threshold = none;
  batch_flush_window_ms = none;
  rate_limit_rps = some (pos 100);
  rate_limit_burst = none;
}

stale_form_reverts_example :
    let form = adopt (some (report env tuned)) new_form in
    let t = (handle env (post_config slower) tuned).1 in
    let next = sync (some (report env tuned)) (some (report env t)) form in
    (next ≡ form) × ((handle env (post_config (submission next)) t).1.config ≡ default_config)
unfolding default_config
stale_form_reverts_example =
    stale_form_reverts env slower tuned new_form
      (record {
        workers = omega arith;
        capacity = omega arith;
        threshold = omega arith;
        window = omega arith;
      })
      (ground arith) (ground arith) refl refl refl

abbrev lines : List StructuredLog
lines = log_line "1" info "a" "x" [] ∷ log_line "2" warn "b" "x" [] ∷ []

abbrev same : String → String
same s = s

abbrev fields_text : Fields → String
fields_text f = "{}"
