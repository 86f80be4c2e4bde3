-- ===== src/Dashboard/Page.antt =====
-- src/App.tsx as a whole: the page has the state of App, of the component of its open tab and of the
-- modal. A tab's components are made when it is opened and gone when it is left.
use ingestion_engine.Prelude.{
  ℕ, String, Bool, true, false, Option, none, some, List, [], ◌∷◌, ◌++◌, if◌then◌else◌,
}
use text.Mathlib.Text.{◌==◌ as str_eq}
use ingestion_engine.Event.{StructuredLog, PersistedRecord}
use ingestion_engine.Shutdown.{ShutdownReport}
use ingestion_engine.Report.{EngineMetrics}
use ingestion_engine.GoFiles.{GoSourceFile}
use ingestion_engine.Server.{Request}
use ingestion_engine.Dashboard.Home.{
  App, new_app, poll, metrics_arrive, logs_arrive, shutdown_arrive,
}
use ingestion_engine.Dashboard.Header.{HomeEvent, tab, close_modal, on_home}
use ingestion_engine.Dashboard.Stages.{Stage, channel}
use ingestion_engine.Dashboard.Studio.{Studio, new_studio, StudioEvent, on_studio}
use ingestion_engine.Dashboard.ConfigForm.{new_form, adopt, sync}
use ingestion_engine.Dashboard.Sliders.{
  Panel, new_panel, FormEvent, on_form, config_saved, hide_saved,
}
use ingestion_engine.Dashboard.LogViewer.{Viewer, new_viewer, ViewerEvent, on_viewer}
use ingestion_engine.Dashboard.Explorer.{Explorer, new_explorer, files_arrive}
use ingestion_engine.Dashboard.ExplorerView.{ExplorerEvent, on_explorer, hide_copied}
use ingestion_engine.Dashboard.Sender.{Modal, new_modal, Texts, answer_arrives, send_fails}
use ingestion_engine.Dashboard.SenderView.{SenderEvent, close, on_sender}
pub mod Answers
pub mod Render
pub mod Tabs
pub mod Titles
pub mod Free
pub mod Panels
pub mod Waits

-- The state that React keeps for the components in the open tab while they are mounted. Which of them
-- are shown is decided by the active tab of the App, at each render.
pub data Content : Type 0 where
  pipeline : Stage → Studio → Viewer → Content
  load_testing : Studio → Content
  tuning : Panel → Content
  log_page : Viewer → Content
  source_code : Explorer → Content
  empty : Content

pub record Page : Type 0 where
  pub app : App
  pub content : Content
  pub modal : Modal

-- A panel is made with the form's defaults, and its effect then runs for the first time.
unfoldable pub open_panel : Option EngineMetrics → Panel
unfolding new_panel adopt new_form
open_panel metrics = record new_panel { form = adopt metrics new_form }

-- What is made when a tab is opened.
unfoldable pub open_tab : String → Option EngineMetrics → Content
unfolding open_panel new_studio new_viewer new_explorer
open_tab id metrics =
    if str_eq id "dashboard"
    then pipeline channel new_studio new_viewer
    else if str_eq id "loadtest"
    then load_testing new_studio
    else if str_eq id "config"
    then tuning (open_panel metrics)
    else if str_eq id "logs"
    then log_page new_viewer
    else if str_eq id "code"
    then source_code new_explorer
    else empty

unfoldable pub new_page : Page
unfolding new_app open_tab new_modal
new_page = record { app = new_app; content = open_tab "dashboard" none; modal = new_modal }

-- What reaches the outside: a request to the server, or a text for the clipboard. The explorer asks for
-- the source files when it is made.
pub data Output : Type 0 where
  ask : Request → Output
  ask_files : Output
  clipboard : String → Output

pub data PageEvent : Type 0 where
  home : HomeEvent → PageEvent
  stage : Stage → PageEvent
  studio : StudioEvent → PageEvent
  form : FormEvent → PageEvent
  viewer : ViewerEvent → PageEvent
  explorer : ExplorerEvent → PageEvent
  sender : SenderEvent → PageEvent

abbrev asks : Option Request → List Output
asks none = []
asks (some r) = ask r ∷ []

abbrev copies : Option String → List Output
copies none = []
copies (some s) = clipboard s ∷ []

abbrev opening : Content → List Output
opening (source_code e) = ask_files ∷ []
opening _ = []

-- The handlers within the open tab. An event of a component that is not there does nothing.
unfoldable pub press_content : PageEvent → Content → List Output × Content
unfolding on_studio on_form on_viewer on_explorer
press_content (stage i) (pipeline j s v) = ([], pipeline i s v)
press_content (studio e) (pipeline i s v) = let (r, t) = on_studio e s in (asks r, pipeline i t v)
press_content (viewer e) (pipeline i s v) = ([], pipeline i s (on_viewer e v))
press_content (studio e) (load_testing s) = let (r, t) = on_studio e s in (asks r, load_testing t)
press_content (form e) (tuning p) = let (r, q) = on_form e p in (asks r, tuning q)
press_content (viewer e) (log_page v) = ([], log_page (on_viewer e v))
press_content (explorer e) (source_code x) =
    let (s, y) = on_explorer e x in (copies s, source_code y)
press_content _ c = ([], c)

-- Opening the tab that is open changes nothing.
unfoldable pub switch_tab : String → Page → List Output × Page
unfolding open_tab on_home
switch_tab id p =
    if str_eq id p.app.active_tab
    then ([], p)
    else (let c = open_tab id p.app.metrics in
        (opening c, record p { app = (on_home (tab id) p.app).1; content = c }))

-- The handlers of the page's controls.
unfoldable pub press : Texts → PageEvent → Page → List Output × Page
unfolding press_content switch_tab on_home on_sender
press texts (home (tab id)) p = switch_tab id p
press texts (home e) p = let (r, a) = on_home e p.app in (asks r, record p { app = a })
press texts (sender close) p = ([], record p { app = (on_home close_modal p.app).1 })
press texts (sender e) p =
    let (r, m) = on_sender texts e p.modal in (asks r, record p { modal = m })
press texts e p = let (o, c) = press_content e p.content in (o, record p { content = c })
