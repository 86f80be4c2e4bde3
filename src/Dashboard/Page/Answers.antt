-- ===== src/Dashboard/Page/Answers.antt =====
-- src/App.tsx: what the page does when answers arrive and timeouts fire, and its life as a series of
-- such steps.
use ingestion_engine.Prelude.{String, Bool, Option, List, [], ◌∷◌}
use ingestion_engine.Event.{StructuredLog, PersistedRecord}
use ingestion_engine.Shutdown.{ShutdownReport}
use ingestion_engine.Report.{EngineMetrics}
use ingestion_engine.GoFiles.{GoSourceFile}
use ingestion_engine.Server.{
  Request, read_metrics, post_single, post_batch, post_start, post_stop, post_config, post_shutdown,
  Response,
}
use ingestion_engine.Dashboard.Home.{poll, metrics_arrive, logs_arrive, shutdown_arrive}
use ingestion_engine.Dashboard.ConfigForm.{sync}
use ingestion_engine.Dashboard.Sliders.{config_saved, hide_saved}
use ingestion_engine.Dashboard.Explorer.{files_arrive}
use ingestion_engine.Dashboard.ExplorerView.{hide_copied}
use ingestion_engine.Dashboard.Sender.{Texts, answer_arrives, send_fails}
use ingestion_engine.Dashboard.Page.{Content, tuning, source_code, Page, PageEvent, press}

-- What the page asks for when a request has been answered.
unfoldable pub follow_up : Request → List Request
follow_up (post_start rps scenario) = read_metrics ∷ []
follow_up post_stop = read_metrics ∷ []
follow_up (post_config u) = read_metrics ∷ []
follow_up post_shutdown = poll
follow_up (post_single ev) = poll
follow_up (post_batch evs) = poll
follow_up _ = []

-- An answer (`none` or `false` where the request failed), or a timeout. One for a component that
-- is gone does nothing while its tab is closed; if the tab is open again, the new component takes it.
pub data Arrival : Type 0 where
  metrics_in : String → Option EngineMetrics → Arrival
  logs_in : Option (Option (List StructuredLog) × Option (List PersistedRecord)) → Arrival
  shutdown_in : Option ShutdownReport → Arrival
  saved_in : Bool → Arrival
  files_in : Option (List GoSourceFile) → Arrival
  sent_in : Response → Arrival
  send_failed : String → Arrival
  saved_over copied_over : Arrival

-- The effect of the form, where the form is shown.
unfoldable pub sync_content : Option EngineMetrics → Option EngineMetrics → Content → Content
unfolding sync
sync_content old new (tuning p) = tuning (record p { form = sync old new p.form })
sync_content old new c = c

unfoldable pub arrive_content : (String → String → Bool) → Arrival → Content → Content
unfolding config_saved hide_saved files_arrive hide_copied
arrive_content includes (saved_in ok) (tuning p) = tuning (config_saved ok p)
arrive_content includes saved_over (tuning p) = tuning (hide_saved p)
arrive_content includes (files_in fs) (source_code x) = source_code (files_arrive includes fs x)
arrive_content includes copied_over (source_code x) = source_code (hide_copied x)
arrive_content includes a c = c

unfoldable pub arrive : (String → String → Bool) → Arrival → Page → Page
unfolding metrics_arrive logs_arrive shutdown_arrive sync_content arrive_content answer_arrives
    send_fails
arrive includes (metrics_in now m) p =
    let app = metrics_arrive now m p.app in
    record p { app = app; content = sync_content p.app.metrics app.metrics p.content }
arrive includes (logs_in a) p = record p { app = logs_arrive a p.app }
arrive includes (shutdown_in r) p = record p { app = shutdown_arrive r p.app }
arrive includes (sent_in r) p = record p { modal = answer_arrives r p.modal }
arrive includes (send_failed message) p = record p { modal = send_fails message p.modal }
arrive includes a p = record p { content = arrive_content includes a p.content }

pub data PageStep : Type 0 where
  pressed : Texts → PageEvent → PageStep
  arrived : Arrival → PageStep

module _ (includes : String → String → Bool) where
  unfoldable pub page_step : PageStep → Page → Page
  unfolding press arrive
  page_step (pressed texts e) p = (press texts e p).1
  page_step (arrived a) p = arrive includes a p

  unfoldable pub page_run : List PageStep → Page → Page
  unfolding page_step
  page_run [] p = p
  page_run (a ∷ rest) p = page_run rest (page_step a p)
