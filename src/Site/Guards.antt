-- ===== src/Site/Guards.antt =====
-- Two kinds of request that are under way at most once: a shutdown, and sent events.
use ingestion_engine.Prelude.{
  ◌+◌, ◌≡◌, refl, arith, String, Bool, true, false, Option, if◌then◌else◌,
}
use ingestion_engine.State.{Engine}
use ingestion_engine.GoFiles.{Entries}
use ingestion_engine.Server.{Request, Response, post_single, post_batch, post_shutdown}
use ingestion_engine.Dashboard.Home.{
  toggle_benchmark, simulate_shutdown, metrics_arrive, logs_arrive, shutdown_arrive,
}
use ingestion_engine.Dashboard.Header.{tab, on_home}
use ingestion_engine.Dashboard.Studio.{on_studio, launch_preset}
use ingestion_engine.Dashboard.Sliders.{on_form}
use ingestion_engine.Dashboard.ExplorerView.{on_explorer}
use ingestion_engine.Dashboard.Sender.{Texts, send, answer_arrives, send_fails}
use ingestion_engine.Dashboard.SenderView.{on_sender}
use ingestion_engine.Dashboard.Page.{
  Page, new_page, PageEvent, home, sender, press_content, switch_tab, press,
}
use ingestion_engine.Dashboard.Page.Free.{IsFree}
use ingestion_engine.Dashboard.Page.Answers.{follow_up, arrive}
use ingestion_engine.Site.{Site, opened, requests_of, ask_all, answered, lost, Reaches}
use ingestion_engine.Site.Counts.{tally, under_way}
use ingestion_engine.Site.Once.{IsGuarded, Reaches-IsMarked}

abbrev pub is_shutdown : Request → Bool
is_shutdown post_shutdown = true
is_shutdown _ = false

abbrev pub is_sending : Request → Bool
is_sending (post_single ev) = true
is_sending (post_batch evs) = true
is_sending _ = false

abbrev simulating : Page → Bool
simulating p = p.app.shutdown_simulating

abbrev loading : Page → Bool
loading p = p.modal.loading

module _ (includes : String → String → Bool) (tree : Option Entries) where
  shutdown-pressing :
      (texts : Texts) (e : PageEvent) (p : Page)
      → IsFree texts p e
      → under_way is_shutdown (requests_of tree (press texts e p).0) + tally (simulating p)
        ≡ tally (simulating (press texts e p).1)
  unfolding press press_content requests_of on_studio launch_preset on_form on_explorer on_sender
      send on_home toggle_benchmark simulate_shutdown switch_tab
  shutdown-pressing texts (home (tab id)) p free = ground arith
  shutdown-pressing texts (home e) p free = ground arith
  shutdown-pressing texts (sender e) p free = ground arith
  shutdown-pressing texts e p free = ground arith

  shutdown-answering :
      (now : String) (r : Request) (a : Response) (p : Page)
      → tally (simulating (answered includes now r a p))
        ≡ (if is_shutdown r then 0 else tally (simulating p))
  unfolding answered arrive metrics_arrive logs_arrive shutdown_arrive
  shutdown-answering now r a p = ground arith

  shutdown-losing :
      (message : String) (r : Request) (p : Page)
      → tally (simulating (lost includes message r p))
        ≡ (if is_shutdown r then 0 else tally (simulating p))
  unfolding lost arrive shutdown_arrive
  shutdown-losing message r p = ground arith

  shutdown-IsGuarded : IsGuarded includes tree is_shutdown simulating
  unfolding ask_all follow_up
  shutdown-IsGuarded = record {
    pressing = shutdown-pressing;
    polling = refl;
    following = λ r. ground arith;
    answering = shutdown-answering;
    losing = shutdown-losing;
  }

  sending-pressing :
      (texts : Texts) (e : PageEvent) (p : Page)
      → IsFree texts p e
      → under_way is_sending (requests_of tree (press texts e p).0) + tally (loading p)
        ≡ tally (loading (press texts e p).1)
  unfolding press press_content requests_of on_studio launch_preset on_form on_explorer on_sender
      send on_home toggle_benchmark simulate_shutdown switch_tab
  sending-pressing texts (home (tab id)) p free = ground arith
  sending-pressing texts (home e) p free = ground arith
  sending-pressing texts (sender e) p free = ground arith
  sending-pressing texts e p free = ground arith

  sending-answering :
      (now : String) (r : Request) (a : Response) (p : Page)
      → tally (loading (answered includes now r a p))
        ≡ (if is_sending r then 0 else tally (loading p))
  unfolding answered arrive answer_arrives
  sending-answering now r a p = ground arith

  sending-losing :
      (message : String) (r : Request) (p : Page)
      → tally (loading (lost includes message r p))
        ≡ (if is_sending r then 0 else tally (loading p))
  unfolding lost arrive send_fails
  sending-losing message r p = ground arith

  sending-IsGuarded : IsGuarded includes tree is_sending loading
  unfolding ask_all follow_up
  sending-IsGuarded = record {
    pressing = sending-pressing;
    polling = refl;
    following = λ r. ground arith;
    answering = sending-answering;
    losing = sending-losing;
  }

  -- A page opened on any engine, whose user presses nothing that sends a request of a kind it waits for:
  -- however requests and answers are delayed, reordered and lost, there are never two shutdowns under
  -- way, nor two sendings of events. One is while the page shows that it waits for it, and none is
  -- otherwise.
  pub one_at_a_time :
      (g : Engine) (w : Site)
      → Reaches includes tree (opened g) w
      → (under_way is_shutdown w.pending ≡ (if w.page.app.shutdown_simulating then 1 else 0))
        × (under_way is_sending w.pending ≡ (if w.page.modal.loading then 1 else 0))
  unfolding new_page ask_all
  one_at_a_time g w r =
      let down = Reaches-IsMarked includes tree is_shutdown simulating shutdown-IsGuarded r refl in
      let sent = Reaches-IsMarked includes tree is_sending loading sending-IsGuarded r refl in
      (ground (arith, down), ground (arith, sent))
