-- ===== src/System/Bounds.antt =====
-- Bounds that hold over any history.
use ingestion_engine.Prelude.{ℕ, zero, suc, arith, List, [], ◌∷◌, true, pos, *ℤ_parts}
use ingestion_engine.State.{Engine, Env, initial}
use ingestion_engine.Logs.Cap.{add_log-Keeps}
use ingestion_engine.Limiter.Bucket.{refill_tokens-le_burst}
use ingestion_engine.Batch.{graceful_shutdown, trigger_flush}
use ingestion_engine.Ingest.Single.{ingest_single-Admits}
use ingestion_engine.Ingest.Many.{ingest_batch-Admits}
use ingestion_engine.Tuning.{ConfigUpdate, update_config}
use ingestion_engine.Tuning.Ranges.{new_config-IsTuned, update_config-le_burst}
use ingestion_engine.LoadTest.Cases.{load_test_tick_elim}
use ingestion_engine.LoadTest.{stop_load_test}
use ingestion_engine.Shutdown.{
  begin_shutdown, drain_queue, end_shutdown, simulate_graceful_shutdown, reset_shutdown,
}
use ingestion_engine.Report.{get_metrics, metrics_tick}
use ingestion_engine.System.{
  Action, single, many, measure, configure, start, stop, shutdown, tick_workers, release_workers,
  tick_batch, tick_metrics, tick_load, end_shutdown as fire_end, fire_release, fire_reset, step,
  run, new_engine,
}
use ingestion_engine.System.Ranges.{
  IsSound, IsBounded, Admits-IsBounded, trigger_flush-IsBounded, batch_tick-IsBounded,
  worker_tick-IsBounded, worker_release-IsBounded, IsSound-logged, stop_load_test-IsBounded,
  start_load_test-IsBounded,
}

module _ (env : Env) where
  get_metrics-IsBounded : (s : Engine) → IsBounded s → IsBounded (get_metrics env s).1
  unfolding get_metrics
  get_metrics-IsBounded s (h, b) = (
    record {
      tuned = h.tuned;
      queued = h.queued;
      workers = h.workers;
      samples = h.samples;
      records = h.records;
      capped = h.capped;
      max_logs = h.max_logs;
      burst = refill_tokens-le_burst s.config env.now s.limiter;
      accounts = h.accounts;
    },
    b,
  )

  update_config-IsBounded :
      (u : ConfigUpdate) (s : Engine) → IsBounded s → IsBounded (update_config env u s)
  unfolding update_config
  update_config-IsBounded u s (h, b) =
      let (kept, same) = add_log-Keeps _ _ _ _ _ s.logs in
      (
        record {
          tuned = new_config-IsTuned u s.config h.tuned;
          queued = h.queued;
          workers = h.workers;
          samples = h.samples;
          records = h.records;
          capped = kept h.capped;
          max_logs = omega (arith, same, h.max_logs);
          burst = update_config-le_burst env u s h.burst;
          accounts = h.accounts;
        },
        b,
      )

  begin_shutdown-IsBounded : (s : Engine) → IsBounded s → IsBounded (begin_shutdown env s)
  unfolding begin_shutdown
  begin_shutdown-IsBounded s (h, b) =
      let flagged : Engine = record s { pool = record s.pool { is_shutting_down = true } } in
      let stopped = stop_load_test env flagged in
      let (h1, b1) = stop_load_test-IsBounded env flagged (h, b) in
      (IsSound-logged stopped _ (add_log-Keeps _ _ _ _ _ stopped.logs) h1, b1)

  drain_queue-IsSound : (s : Engine) → IsSound s → IsSound (drain_queue s)
  unfolding drain_queue
  drain_queue-IsSound s h = record {
    tuned = h.tuned;
    queued = omega arith;
    workers = h.workers;
    samples = h.samples;
    records = h.records;
    capped = h.capped;
    max_logs = h.max_logs;
    burst = h.burst;
    accounts = omega (arith, h.accounts);
  }

  shutdown-IsBounded : (s : Engine) → IsBounded s → IsBounded (simulate_graceful_shutdown env s).1
  unfolding simulate_graceful_shutdown end_shutdown
  shutdown-IsBounded s h =
      let begun = begin_shutdown env s in
      let flushed = trigger_flush graceful_shutdown env (drain_queue begun) in
      let (h1, b1) =
        trigger_flush-IsBounded env graceful_shutdown (drain_queue begun)
          (drain_queue-IsSound begun (begin_shutdown-IsBounded s h).0) in
      (IsSound-logged flushed _ (add_log-Keeps _ _ _ _ _ flushed.logs) h1, b1)

  fire_release-IsBounded : (n : ℕ) (s : Engine) → IsBounded s → IsBounded (fire_release n s)
  unfolding fire_release
  fire_release-IsBounded zero s h = h
  fire_release-IsBounded (suc n) s h = worker_release-IsBounded s h

  fire_reset-IsBounded : (n : ℕ) (s : Engine) → IsBounded s → IsBounded (fire_reset n s)
  unfolding fire_reset reset_shutdown
  fire_reset-IsBounded zero s h = h
  fire_reset-IsBounded (suc n) s h = h

  -- Every action keeps the bounds.
  pub step-IsBounded : (a : Action) (s : Engine) → IsBounded s → IsBounded (step env a s)
  unfolding step metrics_tick
  step-IsBounded (single ev) s h = Admits-IsBounded (ingest_single-Admits env ev s) h
  step-IsBounded (many evs) s h = Admits-IsBounded (ingest_batch-Admits env evs s) h
  step-IsBounded measure s h = get_metrics-IsBounded s h
  step-IsBounded (configure u) s h = update_config-IsBounded u s h
  step-IsBounded (start rps scenario) s h = start_load_test-IsBounded env rps scenario s h
  step-IsBounded stop s h = stop_load_test-IsBounded env s h
  step-IsBounded shutdown s h = shutdown-IsBounded s h
  step-IsBounded tick_workers s h = worker_tick-IsBounded env s h
  step-IsBounded release_workers s h = fire_release-IsBounded s.pool.releases s h
  step-IsBounded (tick_batch tested) s h = batch_tick-IsBounded env tested s h
  step-IsBounded tick_metrics s h = h
  step-IsBounded (tick_load draws wave) s h =
      load_test_tick_elim IsBounded env draws wave s h
        (λ evs. Admits-IsBounded (ingest_batch-Admits env evs s) h)
  step-IsBounded fire_end s h = fire_reset-IsBounded s.pool.resets s h

run-keeps_bounds :
    (actions : List (Env × Action)) (s : Engine) → IsBounded s → IsBounded (run actions s)
unfolding run
run-keeps_bounds [] s h = h
run-keeps_bounds ((env, a) ∷ rest) s h =
    run-keeps_bounds rest (step env a s) (step-IsBounded env a s h)

new_engine-IsBounded : (env : Env) → IsBounded (new_engine env)
unfolding new_engine
new_engine-IsBounded env =
    let (kept, same) = add_log-Keeps _ _ _ _ _ (initial env.now).logs in
    (
      record {
        tuned = omega arith;
        queued = omega arith;
        workers = omega arith;
        samples = omega arith;
        records = omega arith;
        capped = kept (omega arith);
        max_logs = same;
        burst = omega (arith, *ℤ_parts (pos 1000) (pos 20_000));
        accounts = omega arith;
      },
      omega arith,
    )

-- From a new engine, whatever requests come and timers fire: at most 500,000 events are queued and
-- fewer than 50,000 wait in the buffer; the log has at most 200 lines, the sample 500 latencies and
-- the collection 300 records; the tokens are within the burst, the settings in their ranges; and no
-- more events were processed or wait in the queue than were accepted.
pub run-IsBounded :
    (env : Env) (actions : List (Env × Action)) → IsBounded (run actions (new_engine env))
run-IsBounded env actions = run-keeps_bounds actions (new_engine env) (new_engine-IsBounded env)
