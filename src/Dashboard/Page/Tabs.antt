-- ===== src/Dashboard/Page/Tabs.antt =====
-- The open tab of the page, over any series of presses, answers and timeouts.
use text.Mathlib.Text.{◌==◌ as str_eq}
use ingestion_engine.Prelude.{
  if◌then◌else◌, ℕ, ◌≡◌, ◌≢◌, refl, ◌∙◌, arith, String, Bool, false, Option, none, some, List, [],
  ◌∷◌, Bool-cases, inl, inr, pos,
}
use ingestion_engine.State.{Config, Engine, Env}
use ingestion_engine.Tuning.{new_config}
use ingestion_engine.Tuning.Ranges.{IsTuned}
use ingestion_engine.Report.{EngineMetrics, report}
use ingestion_engine.Server.{post_config}
use ingestion_engine.Dashboard.Home.{
  simulate_shutdown, metrics_arrive, logs_arrive, shutdown_arrive,
}
use ingestion_engine.Dashboard.Header.{tab, on_home}
use ingestion_engine.Dashboard.ConfigForm.{new_form, adopt, submission, saving_restores}
use ingestion_engine.Dashboard.Sliders.{submit, on_form}
use ingestion_engine.Dashboard.Sender.{Texts}
use ingestion_engine.Dashboard.Page.{
  Content, pipeline, load_testing, tuning, log_page, source_code, empty, open_tab, open_panel, Page,
  new_page, PageEvent, home, form, sender, ask, press_content, switch_tab, press,
}
use ingestion_engine.Dashboard.Page.Answers.{
  Arrival, metrics_in, sync_content, arrive_content, arrive, PageStep, pressed, arrived, page_step,
  page_run,
}

-- Which components are shown.
abbrev pub shape : Content → ℕ
shape empty = 0
shape (pipeline i s v) = 1
shape (load_testing s) = 2
shape (tuning p) = 3
shape (log_page v) = 4
shape (source_code x) = 5

-- Which components App.tsx shows in the tab of an id.
abbrev pub shape_of : String → ℕ
shape_of id =
    if str_eq id "dashboard"
    then 1
    else if str_eq id "loadtest"
    then 2
    else if str_eq id "config"
    then 3
    else if str_eq id "logs"
    then 4
    else if str_eq id "code"
    then 5
    else 0

abbrev pub IsCoherent : Page → Type 0
IsCoherent p = shape p.content ≡ shape_of p.app.active_tab

open_tab-shape : (id : String) (m : Option EngineMetrics) → shape (open_tab id m) ≡ shape_of id
unfolding open_tab
open_tab-shape id m = ground arith

press_content-shape : (e : PageEvent) (c : Content) → shape (press_content e c).1 ≡ shape c
unfolding press_content
press_content-shape e c = ground arith

sync_content-shape :
    (old new : Option EngineMetrics) (c : Content) → shape (sync_content old new c) ≡ shape c
unfolding sync_content
sync_content-shape old new c = ground arith

arrive_content-shape :
    (includes : String → String → Bool) (a : Arrival) (c : Content)
    → shape (arrive_content includes a c) ≡ shape c
unfolding arrive_content
arrive_content-shape includes a c = ground arith

switch_tab-IsCoherent : (id : String) (p : Page) → IsCoherent p → IsCoherent (switch_tab id p).1
unfolding switch_tab on_home
switch_tab-IsCoherent id p h = elim (Bool-cases (str_eq id p.app.active_tab)) [
  | inl same ↦ rw same h
  | inr other ↦ rw other (open_tab-shape id p.app.metrics)
]

press-IsCoherent :
    (texts : Texts) (e : PageEvent) (p : Page) → IsCoherent p → IsCoherent (press texts e p).1
unfolding press on_home simulate_shutdown
press-IsCoherent texts (home (tab id)) p h = switch_tab-IsCoherent id p h
press-IsCoherent texts (home e) p h = ground (arith, h)
press-IsCoherent texts (sender e) p h = ground (arith, h)
press-IsCoherent texts e p h = ground (arith, h, press_content-shape e p.content)

arrive-IsCoherent :
    (includes : String → String → Bool) (a : Arrival) (p : Page)
    → IsCoherent p
    → IsCoherent (arrive includes a p)
unfolding arrive metrics_arrive logs_arrive shutdown_arrive
arrive-IsCoherent includes (metrics_in now none) p h =
    sync_content-shape p.app.metrics p.app.metrics p.content ∙ h
arrive-IsCoherent includes (metrics_in now (some m)) p h =
    sync_content-shape p.app.metrics (some m) p.content ∙ h
arrive-IsCoherent includes a p h = ground (arith, h, arrive_content-shape includes a p.content)

-- The components that the page keeps are those of the active tab.
pub page_run-IsCoherent :
    (includes : String → String → Bool) (steps : List PageStep)
    → IsCoherent (page_run includes steps new_page)
unfolding page_run page_step new_page
page_run-IsCoherent includes steps = go steps new_page refl
  where
    go : (steps : List PageStep) (p : Page) → IsCoherent p → IsCoherent (page_run includes steps p)
    go [] p h = h
    go (pressed texts e ∷ rest) p h = go rest (press texts e p).1 (press-IsCoherent texts e p h)
    go (arrived a ∷ rest) p h = go rest (arrive includes a p) (arrive-IsCoherent includes a p h)

-- The configuration tab, opened from another one, has a fresh form: it shows the numbers of the last
-- report, and applying it untouched asks for exactly the settings of the engine in that report, if their
-- sizes are in range and the rate limits are not 0.
pub reopen_refreshes :
    (env : Env) (texts : Texts) (s : Engine) (c : Config) (p : Page)
    → str_eq "config" p.app.active_tab ≡ false
    → p.app.metrics ≡ some (report env s)
    → IsTuned s.config
    → s.config.rate_limit_rps ≢ pos 0
    → s.config.rate_limit_burst ≢ pos 0
    → let opened = (press texts (home (tab "config")) p).1 in
      let u = submission (adopt (some (report env s)) new_form) in
      ((press texts (form submit) opened).0 ≡ ask (post_config u) ∷ [])
      × (new_config u c ≡ s.config)
unfolding press switch_tab open_tab open_panel press_content on_form
reopen_refreshes env texts s c p other shown h hr hb =
    (rw (other, shown) refl, saving_restores env c s new_form h hr hb)
