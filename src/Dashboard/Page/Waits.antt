-- ===== src/Dashboard/Page/Waits.antt =====
-- While a request is waited for, its control is disabled.
use ingestion_engine.Prelude.{ℕ, arith, String, Bool, true, false, not, Option, none, some, ◌++◌}
use ingestion_engine.Server.{Body}
use ingestion_engine.Report.{EngineMetrics}
use ingestion_engine.Shutdown.{ShutdownReport}
use ingestion_engine.Dashboard.View.{embed, word}
use ingestion_engine.Dashboard.View.Clicks.{Clicks, Clicks-append, Clicks-button, Clicks-embed}
use ingestion_engine.Dashboard.Header.{
  sigterm, tabs, tab_buttons, on_home, header_view, banner_view,
}
use ingestion_engine.Dashboard.LogViewer.{Strings}
use ingestion_engine.Dashboard.Sender.{Outcome, answered, failed, Modal, Texts}
use ingestion_engine.Dashboard.SenderView.{
  SenderEvent, ingest, on_sender, batch_slider, feedback, sender_view,
}
use ingestion_engine.Dashboard.Cards.{cards_view}
use ingestion_engine.Dashboard.Page.{Page, home, sender, press}
use ingestion_engine.Dashboard.Page.Render.{footer_view, content_view, page_view}
use ingestion_engine.Dashboard.Page.Panels.{content-Clicks}
use ingestion_engine.Dashboard.Page.Free.{
  IsFree, tab-IsFree, toggle-IsFree, sender-IsFree, sigterm-IsFree,
}

module _ (texts : Texts) (p : Page) where
  tabs-Clicks : Clicks (λ e. IsFree texts p (home e)) (tab_buttons p.app.active_tab tabs)
  unfolding tab_buttons
  tabs-Clicks = (
    tab-IsFree texts p "dashboard",
    (
      tab-IsFree texts p "loadtest",
      (tab-IsFree texts p "config", (tab-IsFree texts p "logs", (tab-IsFree texts p "code", tt))),
    ),
  )

  header-Clicks : Clicks (λ e. IsFree texts p (home e)) (header_view p.app)
  unfolding header_view press on_home
  header-Clicks = (
    toggle-IsFree texts p,
    (
      tt,
      Clicks-button (λ e. IsFree texts p (home e)) (not p.app.shutdown_simulating) false
          (word "Simulate SIGTERM") sigterm (tab_buttons p.app.active_tab tabs)
          (sigterm-IsFree texts p) tabs-Clicks,
    ),
  )

  banner-Clicks :
      (r : Option ShutdownReport) → Clicks (λ e. IsFree texts p (home e)) (banner_view r)
  unfolding banner_view press on_home
  banner-Clicks none = tt
  banner-Clicks (some r) = (tt, tt)

  cards-Clicks : (m : Option EngineMetrics) → Clicks (IsFree texts p) (cards_view m)
  unfolding cards_view
  cards-Clicks none = tt
  cards-Clicks (some m) = tt

  slider-Clicks : (m : Modal) → Clicks (λ e. IsFree texts p (sender e)) (batch_slider m)
  unfolding batch_slider
  slider-Clicks m = ground arith

  feedback-Clicks :
      (stringify : Body → String) (quote : String → String) (r : Option Outcome)
      → Clicks (λ e. IsFree texts p (sender e)) (feedback stringify quote r)
  unfolding feedback
  feedback-Clicks stringify quote none = tt
  feedback-Clicks stringify quote (some (answered code body)) = tt
  feedback-Clicks stringify quote (some (failed message)) = tt

  modal-Clicks :
      (stringify : Body → String) (quote : String → String) (is_open : Bool)
      → Clicks (λ e. IsFree texts p (sender e)) (sender_view stringify quote is_open p.modal)
  unfolding sender_view press on_sender
  modal-Clicks stringify quote false = tt
  modal-Clicks stringify quote true =
      let P = λ (e : SenderEvent). IsFree texts p (sender e) in
      (
        tt,
        (
          tt,
          (
            tt,
            Clicks-append P (batch_slider p.modal) _ (slider-Clicks p.modal) (
                Clicks-button P (not p.modal.loading) false _ ingest _
                  (λ on. sender-IsFree texts p ingest (ground (arith, on)))
                  (feedback-Clicks stringify quote p.modal.response_result)),
          ),
        ),
      )

  module _ (js : Strings) (count_lines : String → ℕ) (stringify : Body → String)
      (quote : String → String) where
    -- While the page shows that it waits for a shutdown, for its form to be saved or for events to be
    -- sent, none of the buttons that it enables sends another request of that kind.
    pub page_waits : Clicks (IsFree texts p) (page_view js count_lines stringify quote p)
    unfolding page_view
    page_waits =
        let P = IsFree texts p in
        let header = embed home (header_view p.app) in
        let banner = embed home (banner_view p.app.shutdown_report) in
        let cards = cards_view p.app.metrics in
        let content = content_view js count_lines stringify quote p.app p.content in
        let modal = embed sender (sender_view stringify quote p.app.is_send_modal_open p.modal) in
        Clicks-append P (header ++ banner ++ cards ++ content ++ modal) footer_view
          (Clicks-append P (header ++ banner ++ cards ++ content) modal
            (Clicks-append P (header ++ banner ++ cards) content
              (Clicks-append P (header ++ banner) cards
                (Clicks-append P header banner
                  (Clicks-embed home P (header_view p.app) header-Clicks)
                  (Clicks-embed home P (banner_view p.app.shutdown_report)
                    (banner-Clicks p.app.shutdown_report)))
                (cards-Clicks p.app.metrics))
              (content-Clicks texts p js count_lines stringify quote))
            (Clicks-embed sender P (sender_view stringify quote p.app.is_send_modal_open p.modal)
              (modal-Clicks stringify quote p.app.is_send_modal_open)))
          tt
