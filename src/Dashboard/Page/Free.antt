-- ===== src/Dashboard/Page/Free.antt =====
-- The presses that send no request of a kind that the page waits for.
use ingestion_engine.Prelude.{◌≡◌, arith, String, Bool, true, false, not, All}
use ingestion_engine.Server.{post_single, post_batch, post_config, post_shutdown}
use ingestion_engine.Dashboard.Home.{toggle_benchmark, simulate_shutdown}
use ingestion_engine.Dashboard.Header.{toggle, sigterm, tab, on_home}
use ingestion_engine.Dashboard.Stages.{Stage}
use ingestion_engine.Dashboard.Studio.{StudioEvent, on_studio, launch_preset}
use ingestion_engine.Dashboard.Sliders.{submit, on_form}
use ingestion_engine.Dashboard.LogViewer.{ViewerEvent}
use ingestion_engine.Dashboard.ExplorerView.{ExplorerEvent, on_explorer}
use ingestion_engine.Dashboard.Sender.{Texts, send}
use ingestion_engine.Dashboard.SenderView.{SenderEvent, on_sender}
use ingestion_engine.Dashboard.Page.{
  Content, tuning, Page, Output, ask, PageEvent, home, stage, studio, form, viewer, explorer,
  sender, press_content, switch_tab, press,
}

abbrev pub is_saving : Content → Bool
is_saving (tuning q) = q.is_saving
is_saving _ = false

-- Whether the page waits for the answer to a request of the same kind: a shutdown, a new
-- configuration, or sent events.
abbrev pub waits_for : Page → Output → Bool
waits_for p (ask post_shutdown) = p.app.shutdown_simulating
waits_for p (ask (post_config u)) = is_saving p.content
waits_for p (ask (post_single ev)) = p.modal.loading
waits_for p (ask (post_batch evs)) = p.modal.loading
waits_for p _ = false

module _ (texts : Texts) (p : Page) where
  -- An event that sends no request of a kind that is waited for.
  abbrev pub IsFree : PageEvent → Type 0
  IsFree e = All (λ o. waits_for p o ≡ false) (press texts e p).0

  pub studio-IsFree : (e : StudioEvent) → IsFree (studio e)
  unfolding press press_content on_studio launch_preset
  studio-IsFree e = ground arith

  pub stage-IsFree : (i : Stage) → IsFree (stage i)
  unfolding press press_content
  stage-IsFree i = ground arith

  pub viewer-IsFree : (e : ViewerEvent) → IsFree (viewer e)
  unfolding press press_content
  viewer-IsFree e = ground arith

  pub explorer-IsFree : (e : ExplorerEvent) → IsFree (explorer e)
  unfolding press press_content on_explorer
  explorer-IsFree e = ground arith

  pub tab-IsFree : (id : String) → IsFree (home (tab id))
  unfolding press switch_tab
  tab-IsFree id = ground arith

  pub toggle-IsFree : IsFree (home toggle)
  unfolding press on_home toggle_benchmark
  toggle-IsFree = ground arith

  pub submit-IsFree : is_saving p.content ≡ false → IsFree (form submit)
  unfolding press press_content on_form
  submit-IsFree h = ground (arith, h)

  pub sender-IsFree : (e : SenderEvent) → p.modal.loading ≡ false → IsFree (sender e)
  unfolding press on_sender send
  sender-IsFree e h = ground (arith, h)

  pub sigterm-IsFree : not p.app.shutdown_simulating ≡ true → IsFree (home sigterm)
  unfolding press on_home simulate_shutdown
  sigterm-IsFree h = (ground (arith, h), tt)
