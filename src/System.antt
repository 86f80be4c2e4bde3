-- ===== src/System.antt =====
-- The engine as a whole: the requests that reach it and the timers that fire, one at a time, as the
-- event loop of Node runs them.
use ingestion_engine.Prelude.{ℕ, zero, suc, ◌+◌, String, List, [], ◌∷◌, ◌++◌, ℤ, pos}
use ingestion_engine.Event.{TelemetryEvent, info, number}
use ingestion_engine.State.{Engine, Env, initial}
use ingestion_engine.Batch.{batch_tick}
use ingestion_engine.Workers.{worker_tick, worker_release}
use ingestion_engine.Ingest.{ingest_single, ingest_batch}
use ingestion_engine.Tuning.{ConfigUpdate, update_config}
use ingestion_engine.LoadTest.{Draw, start_load_test, stop_load_test, load_test_tick}
use ingestion_engine.Shutdown.{simulate_graceful_shutdown, reset_shutdown}
use ingestion_engine.Report.{get_metrics, metrics_tick}
use ingestion_engine.Logs.{add_log}
pub mod Order
pub mod Ranges
pub mod Bounds
pub mod Stall
pub mod Funds
pub mod Rate
pub mod Recovery
pub mod Numbers
pub mod Serve
pub mod Delivery
pub mod Silence

-- The engine that the constructor leaves.
unfoldable pub new_engine : Env → Engine
unfolding initial
new_engine env =
    let s = initial env.now in
    record s {
      logs =
          add_log env.log_time info "Telemetry Ingestion Engine initialized" "engine.Init"
            (("workers", number (pos s.config.worker_count))
              ∷ ("channel_capacity", number (pos s.config.channel_capacity))
              ∷ ("batch_threshold", number (pos s.config.batch_threshold))
              ∷ ("flush_window_ms", number (pos s.config.batch_flush_window_ms))
              ∷ [])
            s.logs;
    }

pub data Action : Type 0 where
  single : TelemetryEvent → Action
  many : List TelemetryEvent → Action
  measure : Action
  configure : ConfigUpdate → Action
  start : ℕ → String → Action
  stop : Action
  shutdown : Action
  tick_workers release_workers : Action
  tick_batch : ℕ → Action
  tick_metrics : Action
  tick_load : (ℕ → Draw) → ℤ → Action
  end_shutdown : Action

-- A timeout fires only if it was set.
unfoldable pub fire_release : ℕ → Engine → Engine
fire_release zero s = s
fire_release (suc n) s = worker_release s

unfoldable pub fire_reset : ℕ → Engine → Engine
fire_reset zero s = s
fire_reset (suc n) s = reset_shutdown s

unfoldable pub step : Env → Action → Engine → Engine
step env (single ev) s = (ingest_single env ev s).1
step env (many evs) s = (ingest_batch env evs s).1
step env measure s = (get_metrics env s).1
step env (configure u) s = update_config env u s
step env (start rps scenario) s = start_load_test env rps scenario s
step env stop s = stop_load_test env s
step env shutdown s = (simulate_graceful_shutdown env s).1
step env tick_workers s = worker_tick env s
step env release_workers s = fire_release s.pool.releases s
step env (tick_batch tested) s = batch_tick tested env s
step env tick_metrics s = metrics_tick s
step env (tick_load draws wave) s = load_test_tick env draws wave s
step env end_shutdown s = fire_reset s.pool.resets s

unfoldable pub run : List (Env × Action) → Engine → Engine
run [] s = s
run ((env, a) ∷ rest) s = run rest (step env a s)
