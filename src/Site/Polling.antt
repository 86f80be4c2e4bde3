-- ===== src/Site/Polling.antt =====
-- One round of the page's polling, from its interval to the two answers, with any other traffic on its
-- way.
use ingestion_engine.Prelude.{String, Bool, Option, List}
use ingestion_engine.State.{Engine, Env}
use ingestion_engine.GoFiles.{Entries}
use ingestion_engine.Server.{Request, handle}
use ingestion_engine.Dashboard.Page.{Page}
use ingestion_engine.Site.{Pending, Site, answered}

module _ (includes : String → String → Bool) (tree : Option Entries) (env : Env)
    (now : String) where
  -- The site once a request has been served and its answer has arrived.
  abbrev after : Request → Engine → Page → List Pending → Site
  after r g p l = record {
    engine = (handle env r g).1;
    page = answered includes now r (handle env r g).0 p;
    pending = l;
  }
