-- ===== src/Examples/Sites.antt =====
-- The theorems on the dashboard and the engine together, at one history.
use ingestion_engine.Prelude.{◌≡◌, refl, String, Bool, true, none, List, [], ◌∷◌}
use ingestion_engine.State.{Engine}
use ingestion_engine.Server.{read_metrics, read_logs, post_shutdown, handle}
use ingestion_engine.System.{step, tick_workers, new_engine}
use ingestion_engine.Dashboard.Header.{sigterm, on_home}
use ingestion_engine.Dashboard.Home.{new_app, simulate_shutdown}
use ingestion_engine.Dashboard.Page.{Page, new_page, home, press}
use ingestion_engine.Site.{
  Pending, asked, replied, Site, opened, user, timer, serve, Reaches, here, next, requests_of,
  ask_all,
}
use ingestion_engine.Site.Counts.{under_way}
use ingestion_engine.Site.Guards.{is_shutdown, is_sending, one_at_a_time}
use ingestion_engine.Examples.Data.{env, at_time}
use ingestion_engine.Examples.Pages.{texts}

abbrev found : String → String → Bool
found s t = true

abbrev engine : Engine
engine = new_engine env

abbrev polling : List Pending
polling = asked read_metrics ∷ asked read_logs ∷ []

abbrev waiting_page : Page
waiting_page = (press texts (home sigterm) new_page).1

-- The user asks for a shutdown, the workers tick, and the request reaches the server.
abbrev ticked : Engine
ticked = step (at_time 1010) tick_workers engine

abbrev session_end : Site
session_end = record {
  engine = (handle (at_time 1015) post_shutdown ticked).1;
  page = waiting_page;
  pending =
      asked read_metrics
      ∷ asked read_logs
      ∷ replied post_shutdown (handle (at_time 1015) post_shutdown ticked).0
      ∷ [];
}

session : Reaches found none (opened engine) session_end
unfolding press requests_of on_home simulate_shutdown new_page new_app ask_all
session =
    next
      (next (next here (user texts (home sigterm) engine new_page polling (refl, tt))) (
        timer (at_time 1010) tick_workers engine waiting_page
          (asked read_metrics ∷ asked read_logs ∷ asked post_shutdown ∷ [])))
      (serve (at_time 1015) post_shutdown ticked waiting_page polling [])

one_at_a_time_example :
    (under_way is_shutdown session_end.pending ≡ 1) × (under_way is_sending session_end.pending ≡ 0)
unfolding press on_home simulate_shutdown new_page new_app
one_at_a_time_example = one_at_a_time found none engine session_end session
