-- ===== src/Dashboard/Page/Render.antt =====
-- src/App.tsx: what the page shows, from the header to the footer.
use text.Mathlib.Text.{◌==◌ as str_eq}
use ingestion_engine.Prelude.{ℕ, String, [], ◌∷◌, ◌++◌, if◌then◌else◌}
use ingestion_engine.Server.{Body}
use ingestion_engine.Dashboard.Home.{App}
use ingestion_engine.Dashboard.View.{View, embed, lines}
use ingestion_engine.Dashboard.Header.{header_view, banner_view}
use ingestion_engine.Dashboard.Cards.{cards_view}
use ingestion_engine.Dashboard.Architecture.{architecture_view}
use ingestion_engine.Dashboard.Studio.{studio_view}
use ingestion_engine.Dashboard.Sliders.{panel_view}
use ingestion_engine.Dashboard.LogViewer.{Strings, viewer_view}
use ingestion_engine.Dashboard.ExplorerView.{explorer_view}
use ingestion_engine.Dashboard.SenderView.{sender_view}
use ingestion_engine.Dashboard.Page.{
  Content, pipeline, load_testing, tuning, log_page, source_code, Page, PageEvent, home, stage,
  studio, form, viewer, explorer, sender,
}

abbrev pub footer_view : View PageEvent
footer_view = lines (
    "Distributed High-Throughput Event Ingestion Engine · Go 1.22 Concurrency Architecture"
    ∷ "chan TelemetryEvent" ∷ "•" ∷ "sync.WaitGroup" ∷ "•" ∷ "MongoDB BulkWrite" ∷ [])

module _ (js : Strings) (count_lines : String → ℕ) (stringify : Body → String)
    (quote : String → String) where
  -- What each tab shows, given the state of its components.
  unfoldable pub pipeline_view : App → Content → View PageEvent
  unfolding architecture_view studio_view viewer_view
  pipeline_view app (pipeline i s v) =
      embed stage (architecture_view app.metrics i)
      ++ embed studio (studio_view app.metrics app.history s)
      ++ embed viewer (viewer_view js v app.logs app.persisted_records)
  pipeline_view app _ = []

  unfoldable pub load_testing_view : App → Content → View PageEvent
  unfolding studio_view
  load_testing_view app (load_testing s) = embed studio (studio_view app.metrics app.history s)
  load_testing_view app _ = []

  unfoldable pub tuning_view : Content → View PageEvent
  unfolding panel_view
  tuning_view (tuning p) = embed form (panel_view p)
  tuning_view _ = []

  unfoldable pub log_page_view : App → Content → View PageEvent
  unfolding viewer_view
  log_page_view app (log_page v) = embed viewer (viewer_view js v app.logs app.persisted_records)
  log_page_view app _ = []

  unfoldable pub source_code_view : Content → View PageEvent
  unfolding explorer_view
  source_code_view (source_code x) = embed explorer (explorer_view count_lines x)
  source_code_view _ = []

  -- The active tab decides, by at most one of five tests.
  unfoldable pub content_view : App → Content → View PageEvent
  unfolding pipeline_view load_testing_view tuning_view log_page_view source_code_view
  content_view app c =
      if str_eq app.active_tab "dashboard"
      then pipeline_view app c
      else if str_eq app.active_tab "loadtest"
      then load_testing_view app c
      else if str_eq app.active_tab "config"
      then tuning_view c
      else if str_eq app.active_tab "logs"
      then log_page_view app c
      else if str_eq app.active_tab "code"
      then source_code_view c
      else []

  unfoldable pub page_view : Page → View PageEvent
  unfolding header_view banner_view cards_view content_view sender_view
  page_view p =
      embed home (header_view p.app)
      ++ embed home (banner_view p.app.shutdown_report)
      ++ cards_view p.app.metrics
      ++ content_view p.app p.content
      ++ embed sender (sender_view stringify quote p.app.is_send_modal_open p.modal)
      ++ footer_view
