-- ===== src/Site.antt =====
-- One dashboard and the engine with the network between them: requests reach the server in any order,
-- answers come back in any order, and either may be lost.
use ingestion_engine.Prelude.{
  ℕ, zero, suc, ◌+◌, String, Bool, true, false, Option, none, some, List, [], ◌∷◌, ◌++◌,
}
use ingestion_engine.State.{Engine, Env}
use ingestion_engine.GoFiles.{Entries}
use ingestion_engine.Server.{
  Request, post_single, post_batch, read_metrics, read_health, read_logs, post_start, post_stop,
  post_config, post_shutdown, read_go_code, Response, Body, metrics_report, log_page, shut_down,
  sources, handle,
}
use ingestion_engine.System.{Action, step}
use ingestion_engine.Dashboard.Home.{poll}
use ingestion_engine.Dashboard.Sender.{Texts}
use ingestion_engine.Dashboard.Page.{
  Page, new_page, PageEvent, Output, ask, ask_files, clipboard, press,
}
use ingestion_engine.Dashboard.Page.Free.{IsFree}
use ingestion_engine.Dashboard.Page.Answers.{
  Arrival, metrics_in, logs_in, shutdown_in, saved_in, files_in, sent_in, send_failed, saved_over,
  copied_over, arrive, follow_up,
}
pub mod Counts
pub mod Once
pub mod Guards
pub mod Polling

-- A request on its way, or its answer on the way back.
pub data Pending : Type 0 where
  asked : Request → Pending
  replied : Request → Response → Pending

pub record Site : Type 0 where
  pub engine : Engine
  pub page : Page
  pub pending : List Pending

-- The requests of a list of outputs, over the directory that the server lists.
unfoldable pub requests_of : Option Entries → List Output → List Pending
requests_of tree [] = []
requests_of tree (ask r ∷ rest) = asked r ∷ requests_of tree rest
requests_of tree (ask_files ∷ rest) = asked (read_go_code tree) ∷ requests_of tree rest
requests_of tree (clipboard s ∷ rest) = requests_of tree rest

unfoldable pub ask_all : List Request → List Pending
ask_all [] = []
ask_all (r ∷ rest) = asked r ∷ ask_all rest

-- A dashboard that has just been opened on an engine: it polls.
abbrev pub opened : Engine → Site
opened g = record { engine = g; page = new_page; pending = ask_all poll }

module _ (includes : String → String → Bool) where
  -- What the page does with the answer to a request, at a local time.
  unfoldable pub answered : String → Request → Response → Page → Page
  answered now read_metrics a p = elim a.body [
    | metrics_report m ↦ arrive includes (metrics_in now (some m)) p
    | _ ↦ p
  ]
  answered now read_logs a p = elim a.body [
    | log_page l r ↦ arrive includes (logs_in (some (some l, some r))) p
    | _ ↦ p
  ]
  answered now post_shutdown a p = elim a.body [
    | shut_down s r ↦ arrive includes (shutdown_in (some r)) p
    | _ ↦ arrive includes (shutdown_in none) p
  ]
  answered now (post_config u) a p = arrive includes (saved_in true) p
  answered now (post_single ev) a p = arrive includes (sent_in a) p
  answered now (post_batch evs) a p = arrive includes (sent_in a) p
  answered now (read_go_code tree) a p = elim a.body [
    | sources fs ↦ arrive includes (files_in (some fs)) p
    | _ ↦ arrive includes (files_in none) p
  ]
  answered now _ a p = p

  -- What it does when the request or its answer is lost.
  unfoldable pub lost : String → Request → Page → Page
  lost message post_shutdown p = arrive includes (shutdown_in none) p
  lost message (post_config u) p = arrive includes (saved_in false) p
  lost message (post_single ev) p = arrive includes (send_failed message) p
  lost message (post_batch evs) p = arrive includes (send_failed message) p
  lost message (read_go_code tree) p = arrive includes (files_in none) p
  lost message _ p = p

  -- One step. A timer is one of the engine's, or stands for a request of another client. A user's event
  -- is one that sends no request of a kind the page waits for, as the enabled buttons are.
  pub data SiteStep (tree : Option Entries) : Site → Site → Type 0 where
    user :
        (texts : Texts) (e : PageEvent) (g : Engine) (p : Page) (l : List Pending)
        → IsFree texts p e
        → SiteStep tree
            (record { engine = g; page = p; pending = l })
            (record {
              engine = g;
              page = (press texts e p).1;
              pending = l ++ requests_of tree (press texts e p).0;
            })
    interval :
        (g : Engine) (p : Page) (l : List Pending)
        → SiteStep tree
            (record { engine = g; page = p; pending = l })
            (record { engine = g; page = p; pending = l ++ ask_all poll })
    timer :
        (env : Env) (a : Action) (g : Engine) (p : Page) (l : List Pending)
        → SiteStep tree
            (record { engine = g; page = p; pending = l })
            (record { engine = step env a g; page = p; pending = l })
    serve :
        (env : Env) (r : Request) (g : Engine) (p : Page) (l m : List Pending)
        → SiteStep tree
            (record { engine = g; page = p; pending = l ++ asked r ∷ m })
            (record {
              engine = (handle env r g).1;
              page = p;
              pending = l ++ replied r (handle env r g).0 ∷ m;
            })
    answer :
        (now : String) (r : Request) (a : Response) (g : Engine) (p : Page) (l m : List Pending)
        → SiteStep tree
            (record { engine = g; page = p; pending = l ++ replied r a ∷ m })
            (record {
              engine = g;
              page = answered now r a p;
              pending = l ++ m ++ ask_all (follow_up r);
            })
    lose_request :
        (message : String) (r : Request) (g : Engine) (p : Page) (l m : List Pending)
        → SiteStep tree
            (record { engine = g; page = p; pending = l ++ asked r ∷ m })
            (record { engine = g; page = lost message r p; pending = l ++ m })
    lose_answer :
        (message : String) (r : Request) (a : Response) (g : Engine) (p : Page) (l m : List Pending)
        → SiteStep tree
            (record { engine = g; page = p; pending = l ++ replied r a ∷ m })
            (record { engine = g; page = lost message r p; pending = l ++ m })

  -- The sites that a site comes to.
  pub data Reaches (tree : Option Entries) (w : Site) : Site → Type 0 where
    here : Reaches tree w w
    next : {u v : Site} → Reaches tree w u → SiteStep tree u v → Reaches tree w v
