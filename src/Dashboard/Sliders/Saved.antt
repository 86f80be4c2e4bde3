-- ===== src/Dashboard/Sliders/Saved.antt =====
-- What the sliders can set, the server keeps as it is.
use ingestion_engine.Prelude.{ℕ, ◌≤◌, ◌<◌, ◌≡◌, refl, ap, arith, ℤ, pos, Option, some}
use ingestion_engine.State.{Engine, Env}
use ingestion_engine.Tuning.{set_clamped, set_limit, new_config, update_config}
use ingestion_engine.Report.{EngineMetrics, report}
use ingestion_engine.Server.{post_config, handle}
use ingestion_engine.Dashboard.ConfigForm.{
  Form, new_form, adopt, sync, submission, set_clamped-keep, set_limit-keep,
}
use ingestion_engine.Dashboard.Boxes.{
  Setting, workers, capacity, threshold, window, rate, burst, slider_box,
}
use ingestion_engine.Dashboard.Sliders.{get_field}
use ingestion_engine.Dashboard.Page.{open_panel}

-- A setting is within the ends of its slider.
abbrev pub OnSlider : Form → Setting → Type 0
OnSlider form setting =
    (x : ℕ) × (get_field setting form ≡ pos x)
    × ((slider_box setting).least ≤ x)
    × (x ≤ (slider_box setting).greatest)

clamp_slider :
    (lo hi least greatest : ℕ) (x : ℤ) (old : ℕ)
    → 0 < lo
    → lo ≤ least
    → greatest ≤ hi
    → (n : ℕ) × (x ≡ pos n) × (least ≤ n) × (n ≤ greatest)
    → pos (set_clamped lo hi (some x) old) ≡ x
clamp_slider lo hi least greatest x old h a b (n, e, k, l) =
    rw e (ap pos (set_clamped-keep lo hi n old h (omega arith)))

limit_slider :
    (least greatest : ℕ) (x old : ℤ)
    → 0 < least
    → (n : ℕ) × (x ≡ pos n) × (least ≤ n) × (n ≤ greatest)
    → set_limit (some x) old ≡ x
limit_slider least greatest x old h (n, e, k, l) =
    rw e (set_limit-keep (pos n) old (λ q. ground (arith, q)))

-- Saved numbers come back from the report that follows, whatever form takes them from it.
saved_adopt :
    (env now : Env) (s : Engine) (f g : Form)
    → ((setting : Setting) → OnSlider f setting)
    → adopt (some (report env (handle now (post_config (submission f)) s).1)) g ≡ f
unfolding adopt report handle update_config new_config submission get_field slider_box
saved_adopt env now s f g h =
    let c = s.config in
    rw
      (
        clamp_slider 2 256 4 128 f.worker_count c.worker_count (omega arith) (omega arith)
            (omega arith) (h workers),
        clamp_slider 500 500_000 1000 100_000 f.channel_capacity c.channel_capacity (omega arith)
            (omega arith) (omega arith) (h capacity),
        clamp_slider 100 50_000 500 15_000 f.batch_threshold c.batch_threshold (omega arith)
            (omega arith) (omega arith) (h threshold),
        clamp_slider 20 5000 50 2000 f.batch_flush_window_ms c.batch_flush_window_ms (omega arith)
            (omega arith) (omega arith) (h window),
        limit_slider 1000 50_000 f.rate_limit_rps c.rate_limit_rps (omega arith) (h rate),
        limit_slider 2000 100_000 f.rate_limit_burst c.rate_limit_burst (omega arith) (h burst),
      )
      refl

-- A form whose six numbers are within their sliders, once saved, is what the engine reports. With that
-- report the form keeps its numbers, whichever report came before it, also where its effect runs and
-- sets the form anew; and a configuration tab that is opened later shows the same numbers.
pub slider_roundtrip :
    (env now : Env) (s : Engine) (f : Form) (before : Option EngineMetrics)
    → ((setting : Setting) → OnSlider f setting)
    → let t = (handle now (post_config (submission f)) s).1 in
      (sync before (some (report env t)) f ≡ f) × ((open_panel (some (report env t))).form ≡ f)
unfolding sync open_panel
slider_roundtrip env now s f before h =
    (ground (arith, saved_adopt env now s f f h), saved_adopt env now s f new_form h)
