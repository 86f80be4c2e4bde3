-- ===== src/Dashboard/ConfigForm.antt =====
-- src/components/ConfigPanel.tsx: the form on the engine's configuration, and what it shows when
-- the reports on the engine change.
use ingestion_engine.Prelude.{
  ℕ, zero, suc, ◌≤◌, ◌<◌, ◌≡◌, ◌≢◌, refl, arith, Bool, true, false, ◌&&◌, Option, none, some, ◌==◌,
  if◌then◌else◌, ℤ, pos, negsuc,
}
use ingestion_engine.State.{Config, Engine, Env}
use ingestion_engine.Tuning.{ConfigUpdate, set_clamped, set_limit, new_config, update_config}
use ingestion_engine.Tuning.Ranges.{IsTuned}
use ingestion_engine.Report.{EngineMetrics, report}
use ingestion_engine.Server.{post_config, handle}

-- The six fields of the form: whatever numbers a user enters.
pub record Form : Type 0 where
  pub worker_count : ℤ
  pub channel_capacity : ℤ
  pub batch_threshold : ℤ
  pub batch_flush_window_ms : ℤ
  pub rate_limit_rps : ℤ
  pub rate_limit_burst : ℤ

unfoldable pub new_form : Form
new_form = record {
  worker_count = pos 32;
  channel_capacity = pos 50_000;
  batch_threshold = pos 5000;
  batch_flush_window_ms = pos 500;
  rate_limit_rps = pos 10_000;
  rate_limit_burst = pos 20_000;
}

-- The body of the effect.
unfoldable pub adopt : Option EngineMetrics → Form → Form
adopt none form = form
adopt (some m) form = record {
  worker_count = pos m.total_workers;
  channel_capacity = pos m.queue_capacity;
  batch_threshold = pos m.batch_threshold;
  batch_flush_window_ms = pos m.batch_flush_window_ms;
  rate_limit_rps = m.rate_limit_rps;
  rate_limit_burst = m.rate_limit_burst;
}

-- Whether the effect's three dependencies are the same in two reports.
unfoldable pub same_dependencies : Option EngineMetrics → Option EngineMetrics → Bool
same_dependencies none none = true
same_dependencies none (some m) = false
same_dependencies (some m) none = false
same_dependencies (some m) (some n) =
    m.total_workers == n.total_workers
    && (m.queue_capacity == n.queue_capacity && m.batch_threshold == n.batch_threshold)

-- The form after a new report: the effect runs if a dependency has changed.
unfoldable pub sync : Option EngineMetrics → Option EngineMetrics → Form → Form
unfolding adopt same_dependencies
sync old new form = if same_dependencies old new then form else adopt new form

-- What `handleSubmit` sends.
unfoldable pub submission : Form → ConfigUpdate
submission f = record {
  worker_count = some f.worker_count;
  channel_capacity = some f.channel_capacity;
  batch_threshold = some f.batch_threshold;
  batch_flush_window_ms = some f.batch_flush_window_ms;
  rate_limit_rps = some f.rate_limit_rps;
  rate_limit_burst = some f.rate_limit_burst;
}

pub set_clamped-keep :
    (lo hi x old : ℕ) → 0 < lo → (lo ≤ x) × (x ≤ hi) → set_clamped lo hi (some (pos x)) old ≡ x
unfolding set_clamped
set_clamped-keep lo hi zero old h k = absurd (omega arith)
set_clamped-keep lo hi (suc n) old h k = omega arith

pub set_limit-keep : (x old : ℤ) → x ≢ pos 0 → set_limit (some x) old ≡ x
unfolding set_limit
set_limit-keep (pos zero) old h = absurd (h refl)
set_limit-keep (pos (suc n)) old h = refl
set_limit-keep (negsuc n) old h = refl

module _ (env : Env) (c : Config) (s : Engine) (f : Form) where
  -- Saving the form as it shows an engine `s` gives any engine the configuration of `s`, if the sizes
  -- of `s` are in their ranges and its rate limits are not 0.
  pub saving_restores :
      IsTuned s.config
      → s.config.rate_limit_rps ≢ pos 0
      → s.config.rate_limit_burst ≢ pos 0
      → new_config (submission (adopt (some (report env s)) f)) c ≡ s.config
  unfolding submission adopt report new_config
  saving_restores h hr hb =
      let d = s.config in
      rw
        (
          set_clamped-keep 2 256 d.worker_count c.worker_count (omega arith) h.workers,
          set_clamped-keep 500 500_000 d.channel_capacity c.channel_capacity (omega arith)
              h.capacity,
          set_clamped-keep 100 50_000 d.batch_threshold c.batch_threshold (omega arith) h.threshold,
          set_clamped-keep 20 5000 d.batch_flush_window_ms c.batch_flush_window_ms (omega arith)
              h.window,
          set_limit-keep d.rate_limit_rps c.rate_limit_rps hr,
          set_limit-keep d.rate_limit_burst c.rate_limit_burst hb,
        )
        refl

same_numbers :
    (m n : EngineMetrics)
    → m.total_workers ≡ n.total_workers
    → m.queue_capacity ≡ n.queue_capacity
    → m.batch_threshold ≡ n.batch_threshold
    → same_dependencies (some m) (some n) ≡ true
unfolding same_dependencies
same_numbers m n hw hc ht = ground arith

-- Another client changes only the flush window or the rate limits. The form of a dashboard that
-- showed the engine keeps its old numbers, since none of the effect's dependencies has changed;
-- saving it, even untouched, takes the other client's change back. The configuration before has its
-- sizes in their ranges and rate limits that are not 0.
pub stale_form_reverts :
    (env : Env) (u : ConfigUpdate) (s : Engine) (f : Form)
    → IsTuned s.config
    → s.config.rate_limit_rps ≢ pos 0
    → s.config.rate_limit_burst ≢ pos 0
    → u.worker_count ≡ none
    → u.channel_capacity ≡ none
    → u.batch_threshold ≡ none
    → let shown = adopt (some (report env s)) f in
      let t = (handle env (post_config u) s).1 in
      let next = sync (some (report env s)) (some (report env t)) shown in
      (next ≡ shown) × ((handle env (post_config (submission next)) t).1.config ≡ s.config)
unfolding sync handle update_config report new_config set_clamped
stale_form_reverts env u s f h hr hb hw hc ht =
    let t = (handle env (post_config u) s).1 in
    let same = same_numbers (report env s) (report env t) (rw hw refl) (rw hc refl) (rw ht refl) in
    rw same (refl, saving_restores env t.config s f h hr hb)
