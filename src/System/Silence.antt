-- ===== src/System/Silence.antt =====
-- A load test that is stopped.
use ingestion_engine.Prelude.{
  ℕ, ◌≡◌, refl, ap, ◌∙◌, arith, Bool, true, false, List, [], ◌∷◌, All, ℤ,
}
use ingestion_engine.State.{Engine, Env, LoadTest}
use ingestion_engine.Batch.{count_threshold, window_timeout, graceful_shutdown, batch_tick}
use ingestion_engine.Batch.Flush.{trigger_flush-SamePipeline}
use ingestion_engine.Workers.{
  flush_if_full, process_chunk, move_chunk, chunk_size, schedule_release, worker_tick,
  worker_release,
}
use ingestion_engine.Ingest.Single.{ingest_single-Admits}
use ingestion_engine.Ingest.Many.{ingest_batch-Admits}
use ingestion_engine.Tuning.{update_config}
use ingestion_engine.LoadTest.{Draw, stop_load_test, load_test_tick, load_test_fire}
use ingestion_engine.Shutdown.{
  simulate_graceful_shutdown, begin_shutdown, drain_queue, end_shutdown as last_of_shutdown,
  reset_shutdown,
}
use ingestion_engine.Shutdown.Drain.{drained}
use ingestion_engine.Report.{get_metrics, metrics_tick}
use ingestion_engine.System.{
  Action, single, many, start, stop, shutdown, tick_workers, tick_batch, tick_load, fire_release,
  fire_reset, step, run,
}

-- The flag of the load test is down.
abbrev pub IsSilent : Engine → Type 0
IsSilent s = s.load.load_test_active ≡ false

-- The two actions that end a load test.
abbrev pub stops : Action → Bool
stops stop = true
stops shutdown = true
stops _ = false

abbrev pub starts : Action → Bool
starts (start rps scenario) = true
starts _ = false

-- A history without the ticks of the load test.
abbrev pub without_load : List (Env × Action) → List (Env × Action)
without_load [] = []
without_load ((env, tick_load draws wave) ∷ rest) = without_load rest
without_load ((env, a) ∷ rest) = (env, a) ∷ without_load rest

silent_tick :
    (env : Env) (draws : ℕ → Draw) (wave : ℤ) (s : Engine)
    → IsSilent s
    → load_test_tick env draws wave s ≡ s
unfolding load_test_tick load_test_fire
silent_tick env draws wave s h = ground (arith, h)

-- A stop and a shutdown take the flag down.
stop-IsSilent : (env : Env) (a : Action) (s : Engine) → stops a ≡ true → IsSilent (step env a s)
unfolding step stop_load_test simulate_graceful_shutdown begin_shutdown drain_queue last_of_shutdown
stop-IsSilent env stop s h = refl
stop-IsSilent env shutdown s h =
    ap (λ (l : LoadTest). l.load_test_active)
      (trigger_flush-SamePipeline graceful_shutdown env (drained env s)).load
stop-IsSilent env a s h = ground (arith, h)

module _ (env : Env) where
  batch_tick-load : (tested : ℕ) (s : Engine) → (batch_tick tested env s).load ≡ s.load
  unfolding batch_tick
  batch_tick-load tested s = ground (arith, (trigger_flush-SamePipeline window_timeout env s).load)

  flush_if_full-load : (s : Engine) → (flush_if_full env s).load ≡ s.load
  unfolding flush_if_full
  flush_if_full-load s = ground (arith, (trigger_flush-SamePipeline count_threshold env s).load)

  worker_tick-load : (s : Engine) → (worker_tick env s).load ≡ s.load
  unfolding worker_tick process_chunk schedule_release move_chunk
  worker_tick-load s = ground (arith, flush_if_full-load (move_chunk (chunk_size s) s))

  step-IsSilent :
      (a : Action) (s : Engine) → starts a ≡ false → IsSilent s → IsSilent (step env a s)
  unfolding step update_config stop_load_test get_metrics metrics_tick fire_release worker_release
      fire_reset reset_shutdown
  step-IsSilent (single ev) s k h = rw (ingest_single-Admits env ev s).load h
  step-IsSilent (many evs) s k h = rw (ingest_batch-Admits env evs s).load h
  step-IsSilent (start rps scenario) s k h = ground (arith, k)
  step-IsSilent shutdown s k h = stop-IsSilent env shutdown s refl
  step-IsSilent tick_workers s k h = rw (worker_tick-load s) h
  step-IsSilent (tick_batch tested) s k h = rw (batch_tick-load tested s) h
  step-IsSilent (tick_load draws wave) s k h = rw (silent_tick env draws wave s h) h
  step-IsSilent a s k h = ground (arith, h)

silent_run :
    (actions : List (Env × Action)) (s : Engine)
    → All (λ a. starts a.1 ≡ false) actions
    → IsSilent s
    → run actions s ≡ run (without_load actions) s
unfolding run step
silent_run [] s k h = refl
silent_run ((env, tick_load draws wave) ∷ rest) s (k, ks) h =
    ap (run rest) (silent_tick env draws wave s h) ∙ silent_run rest s ks h
silent_run ((env, a) ∷ rest) s (k, ks) h =
    silent_run rest (step env a s) ks (step-IsSilent env a s k h)

-- After a load test is stopped, or the engine shut down, and until one is started again, the ticks of
-- the load test have no effect: a history of requests and timers ends in the same engine as the history
-- without them.
pub stopped_silent :
    (env : Env) (off : Action) (actions : List (Env × Action)) (s : Engine)
    → stops off ≡ true
    → All (λ a. starts a.1 ≡ false) actions
    → run ((env, off) ∷ actions) s ≡ run ((env, off) ∷ without_load actions) s
unfolding run
stopped_silent env off actions s h k =
    silent_run actions (step env off s) k (stop-IsSilent env off s h)
