-- ===== src/Dashboard/Page/Panels.antt =====
-- The buttons of the components in the active tab.
use text.Mathlib.Text.{◌==◌ as str_eq}
use ingestion_engine.Prelude.{
  if◌then◌else◌, ℕ, ◌≡◌, refl, arith, String, Bool, true, false, not, [], ◌++◌,
}
use ingestion_engine.Server.{Body}
use ingestion_engine.Dashboard.View.{embed}
use ingestion_engine.Dashboard.View.Clicks.{
  Clicks, Clicks-if, Clicks-append, Clicks-button, Clicks-embed, Clicks-embed_all,
}
use ingestion_engine.Dashboard.Architecture.{architecture_view}
use ingestion_engine.Dashboard.Studio.{studio_view}
use ingestion_engine.Dashboard.ConfigForm.{Form}
use ingestion_engine.Dashboard.Boxes.{slider_box}
use ingestion_engine.Dashboard.Sliders.{
  Panel, FormEvent, submit, box_view, settings_view, save_button, panel_view,
}
use ingestion_engine.Dashboard.LogViewer.{Strings, viewer_view}
use ingestion_engine.Dashboard.ExplorerView.{explorer_view}
use ingestion_engine.Dashboard.Sender.{Texts}
use ingestion_engine.Dashboard.Page.{
  Content, pipeline, load_testing, tuning, log_page, source_code, empty, Page, stage, studio, form,
  viewer, explorer,
}
use ingestion_engine.Dashboard.Page.Render.{
  pipeline_view, load_testing_view, tuning_view, log_page_view, source_code_view, content_view,
}
use ingestion_engine.Dashboard.Page.Free.{
  IsFree, studio-IsFree, stage-IsFree, viewer-IsFree, explorer-IsFree, submit-IsFree,
}

module _ (texts : Texts) (p : Page) where
  settings-Clicks :
      (saved : Bool) (f : Form) → Clicks (λ e. IsFree texts p (form e)) (settings_view saved f)
  unfolding settings_view box_view slider_box
  settings-Clicks true f = tt
  settings-Clicks false f = tt

  panel-Clicks :
      (q : Panel) → p.content ≡ tuning q → Clicks (λ e. IsFree texts p (form e)) (panel_view q)
  unfolding panel_view save_button
  panel-Clicks q h =
      let P = λ (e : FormEvent). IsFree texts p (form e) in
      Clicks-append P (settings_view q.saved_success q.form) _
        (settings-Clicks q.saved_success q.form)
        (Clicks-button P (not q.is_saving) false _ submit []
          (λ on. submit-IsFree texts p (rw h (ground (arith, on)))) tt)

  module _ (js : Strings) (count_lines : String → ℕ) (stringify : Body → String)
      (quote : String → String) where
    pipeline-Clicks :
        (c : Content)
        → Clicks (IsFree texts p) (pipeline_view js count_lines stringify quote p.app c)
    unfolding pipeline_view
    pipeline-Clicks (pipeline i s v) =
        let diagram = architecture_view p.app.metrics i in
        let load = studio_view p.app.metrics p.app.history s in
        let lines = viewer_view js v p.app.logs p.app.persisted_records in
        Clicks-append (IsFree texts p) (embed stage diagram ++ embed studio load)
          (embed viewer lines)
          (Clicks-append (IsFree texts p) (embed stage diagram) (embed studio load)
            (Clicks-embed_all stage (IsFree texts p) diagram (stage-IsFree texts p))
            (Clicks-embed_all studio (IsFree texts p) load (studio-IsFree texts p)))
          (Clicks-embed_all viewer (IsFree texts p) lines (viewer-IsFree texts p))
    pipeline-Clicks (load_testing s) = tt
    pipeline-Clicks (tuning q) = tt
    pipeline-Clicks (log_page v) = tt
    pipeline-Clicks (source_code x) = tt
    pipeline-Clicks empty = tt

    tuning-Clicks :
        (c : Content)
        → p.content ≡ c
        → Clicks (IsFree texts p) (tuning_view js count_lines stringify quote c)
    unfolding tuning_view
    tuning-Clicks (tuning q) h =
        Clicks-embed form (IsFree texts p) (panel_view q) (panel-Clicks q h)
    tuning-Clicks (pipeline i s v) h = tt
    tuning-Clicks (load_testing s) h = tt
    tuning-Clicks (log_page v) h = tt
    tuning-Clicks (source_code x) h = tt
    tuning-Clicks empty h = tt

    load_testing-Clicks :
        (c : Content)
        → Clicks (IsFree texts p) (load_testing_view js count_lines stringify quote p.app c)
    unfolding load_testing_view
    load_testing-Clicks (load_testing s) =
        Clicks-embed_all studio (IsFree texts p) (studio_view p.app.metrics p.app.history s)
          (studio-IsFree texts p)
    load_testing-Clicks (pipeline i s v) = tt
    load_testing-Clicks (tuning q) = tt
    load_testing-Clicks (log_page v) = tt
    load_testing-Clicks (source_code x) = tt
    load_testing-Clicks empty = tt

    log_page-Clicks :
        (c : Content)
        → Clicks (IsFree texts p) (log_page_view js count_lines stringify quote p.app c)
    unfolding log_page_view
    log_page-Clicks (log_page v) =
        Clicks-embed_all viewer (IsFree texts p)
          (viewer_view js v p.app.logs p.app.persisted_records) (viewer-IsFree texts p)
    log_page-Clicks (pipeline i s v) = tt
    log_page-Clicks (load_testing s) = tt
    log_page-Clicks (tuning q) = tt
    log_page-Clicks (source_code x) = tt
    log_page-Clicks empty = tt

    source_code-Clicks :
        (c : Content) → Clicks (IsFree texts p) (source_code_view js count_lines stringify quote c)
    unfolding source_code_view
    source_code-Clicks (source_code x) =
        Clicks-embed_all explorer (IsFree texts p) (explorer_view count_lines x)
          (explorer-IsFree texts p)
    source_code-Clicks (pipeline i s v) = tt
    source_code-Clicks (load_testing s) = tt
    source_code-Clicks (tuning q) = tt
    source_code-Clicks (log_page v) = tt
    source_code-Clicks empty = tt

    pub content-Clicks :
        Clicks (IsFree texts p) (content_view js count_lines stringify quote p.app p.content)
    unfolding content_view
    content-Clicks =
        let P = IsFree texts p in
        let c = p.content in
        let at = λ (id : String). str_eq p.app.active_tab id in
        let pipe = pipeline_view js count_lines stringify quote p.app c in
        let load = load_testing_view js count_lines stringify quote p.app c in
        let tune = tuning_view js count_lines stringify quote c in
        let page = log_page_view js count_lines stringify quote p.app c in
        let code = source_code_view js count_lines stringify quote c in
        let from_code = if at "code" then code else [] in
        let from_logs = if at "logs" then page else from_code in
        let from_config = if at "config" then tune else from_logs in
        let from_load = if at "loadtest" then load else from_config in
        Clicks-if P (at "dashboard") pipe from_load (pipeline-Clicks c) (
          Clicks-if P (at "loadtest") load from_config (load_testing-Clicks c) (
            Clicks-if P (at "config") tune from_logs (tuning-Clicks c refl) (
              Clicks-if P (at "logs") page from_code (log_page-Clicks c)
                (Clicks-if P (at "code") code [] (source_code-Clicks c) tt))))
