-- ===== src/Examples/Pages.antt =====
-- The page's theorems at concrete pages, and what a new page lets a user press.
use ingestion_engine.Prelude.{◌≡◌, refl, arith, true, none, some, List, [], ◌∷◌, length, pos}
use ingestion_engine.Prelude.Int.{◌*ℤ◌, ◌+ℤ◌}
use ingestion_engine.State.{Engine, default_config}
use ingestion_engine.Batch.{window_timeout, trigger_flush}
use ingestion_engine.Ingest.{ingest_batch, batch_cost}
use ingestion_engine.Limiter.{allow_rate_limit, take_tokens, refill_tokens}
use ingestion_engine.Workers.{ceil_div}
use ingestion_engine.Tuning.{new_config}
use ingestion_engine.Report.{report}
use ingestion_engine.Server.{handle, post_config}
use ingestion_engine.Dashboard.Home.{new_app}
use ingestion_engine.Dashboard.View.{clicks}
use ingestion_engine.Dashboard.View.Clicks.{Clicks}
use ingestion_engine.Dashboard.Header.{toggle, open_modal, sigterm, tab, header_view}
use ingestion_engine.Dashboard.Architecture.{drop_text}
use ingestion_engine.Dashboard.Architecture.Guarantee.{guaranteed, guarantee_hides_losses}
use ingestion_engine.Dashboard.ConfigForm.{new_form, adopt, sync, submission}
use ingestion_engine.Dashboard.Boxes.{
  Setting, workers, capacity, threshold, window, rate, burst, slider_box,
}
use ingestion_engine.Dashboard.Sliders.{submit, get_field}
use ingestion_engine.Dashboard.Sliders.Saved.{OnSlider, slider_roundtrip}
use ingestion_engine.Dashboard.LogViewer.{Strings}
use ingestion_engine.Dashboard.Sender.{Texts, batch, new_modal, send}
use ingestion_engine.Dashboard.Sender.Answers.{sent_batch_code}
use ingestion_engine.Dashboard.Page.{Page, open_panel, new_page, home, form, ask, press}
use ingestion_engine.Dashboard.Page.Answers.{PageStep, pressed, arrived, metrics_in, shutdown_in}
use ingestion_engine.Dashboard.Page.Render.{page_view}
use ingestion_engine.Dashboard.Page.Tabs.{reopen_refreshes}
use ingestion_engine.Dashboard.Page.Free.{IsFree}
use ingestion_engine.Dashboard.Page.Waits.{page_waits}
use ingestion_engine.Examples.Data.{env, at_time, small, loaded, login, payment}

abbrev pub texts : Texts
texts = record { iso = λ i. "2024-01-01T00:00:00.000Z"; payload = "{}"; decimal = λ n. "1" }

abbrev strings : Strings
strings = record {
  trim = λ s. s;
  to_lower_case = λ s. s;
  includes = λ s t. true;
  stringify = λ f. "{}";
  stringify_list = λ l. "[]";
  local_time = λ s. s;
  millis = λ s. "000";
}

-- The header's buttons on a new page: all five tabs and the three actions.
new_header :
    clicks (header_view new_app)
    ≡ toggle
      ∷ open_modal
      ∷ sigterm
      ∷ tab "dashboard"
      ∷ tab "loadtest"
      ∷ tab "config"
      ∷ tab "logs"
      ∷ tab "code"
      ∷ []
unfolding header_view new_app
new_header = refl

-- The engine before had other numbers, so the effect runs.
slider_roundtrip_example :
    let t = (handle (at_time 2000) (post_config (submission new_form)) small).1 in
    (sync (some (report env small)) (some (report env t)) new_form ≡ new_form)
    × ((open_panel (some (report env t))).form ≡ new_form)
unfolding new_form get_field slider_box
slider_roundtrip_example =
    slider_roundtrip env (at_time 2000) small new_form (some (report env small)) fits
  where
    fits : (setting : Setting) → OnSlider new_form setting
    fits workers = (32, refl, omega arith, omega arith)
    fits capacity = (50_000, refl, omega arith, omega arith)
    fits threshold = (5000, refl, omega arith, omega arith)
    fits window = (500, refl, omega arith, omega arith)
    fits rate = (10_000, refl, omega arith, omega arith)
    fits burst = (20_000, refl, omega arith, omega arith)

abbrev visit : List PageStep
visit =
    arrived (metrics_in "00:01" (some (report env small)))
    ∷ pressed texts (home (tab "config"))
    ∷ pressed texts (form submit)
    ∷ pressed texts (home sigterm)
    ∷ arrived (shutdown_in none)
    ∷ pressed texts (home (tab "logs"))
    ∷ []

abbrev tuned : Engine
tuned = record small { config = default_config }

abbrev informed : Page
informed = record new_page { app = record new_app { metrics = some (report env tuned) } }

reopen_refreshes_example :
    let opened = (press texts (home (tab "config")) informed).1 in
    let u = submission (adopt (some (report env tuned)) new_form) in
    ((press texts (form submit) opened).0 ≡ ask (post_config u) ∷ [])
    × (new_config u small.config ≡ default_config)
unfolding default_config new_app
reopen_refreshes_example =
    reopen_refreshes env texts tuned small.config informed refl refl
      (record {
        workers = omega arith;
        capacity = omega arith;
        threshold = omega arith;
        window = omega arith;
      })
      (ground arith) (ground arith)

-- A page that waits for a shutdown.
abbrev busy : Page
busy = (press texts (home sigterm) informed).1

page_waits_example :
    Clicks (IsFree texts busy) (page_view strings (λ s. 1) (λ b. "{}") (λ s. s) busy)
page_waits_example = page_waits texts busy strings (λ s. 1) (λ b. "{}") (λ s. s)

-- No tokens, and two events in the buffer.
abbrev broke : Engine
broke =
    let s = loaded [] (login ∷ payment ∷ []) in
    record s { limiter = record s.limiter { available_tokens = pos 0 } }

guarantee_hides_losses_example :
    let failed = trigger_flush window_timeout (record env { write_fails = true }) broke in
    let (r, refused) = ingest_batch env (login ∷ []) broke in
    (drop_text (some (report env failed)) ≡ guaranteed)
    × (failed.batch.batch_buffer ≡ [])
    × (drop_text (some (report env refused)) ≡ guaranteed)
    × (r.dropped ≡ 1)
unfolding drop_text report allow_rate_limit take_tokens refill_tokens batch_cost ceil_div ◌*ℤ◌ ◌+ℤ◌
guarantee_hides_losses_example =
    guarantee_hides_losses env env broke window_timeout (login ∷ []) refl refl

sent_batch_code_example :
    let m = record new_modal { mode = batch } in
    let (r, t) = handle env (send texts m).0 small in (r.code ≡ 202) × (length t.pool.queue ≡ 3)
unfolding new_modal allow_rate_limit take_tokens refill_tokens batch_cost ceil_div ◌*ℤ◌ ◌+ℤ◌
sent_batch_code_example =
    sent_batch_code texts env (record new_modal { mode = batch }) small refl (omega arith)
