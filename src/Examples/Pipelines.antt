-- ===== src/Examples/Pipelines.antt =====
-- The pipeline's theorems at concrete histories.
use ingestion_engine.Prelude.{
  ◌≡◌, refl, arith, true, false, none, List, [], ◌∷◌, ◌++◌, length, ◌+◌, ◌*◌, take, reverse,
}
use ingestion_engine.Event.{TelemetryEvent}
use ingestion_engine.State.{Engine, Env}
use ingestion_engine.Pipeline.{pending}
use ingestion_engine.Batch.{window_timeout, trigger_flush, persist}
use ingestion_engine.Batch.Persist.{records_from, persist_lem}
use ingestion_engine.Batch.Failure.{failed_write_counts}
use ingestion_engine.Workers.{ceil_div}
use ingestion_engine.Workers.Drain.{rounds, rounds_drain}
use ingestion_engine.Shutdown.{simulate_graceful_shutdown}
use ingestion_engine.Shutdown.Drain.{shutdown_drains}
use ingestion_engine.Shutdown.Open.{shutdown_stays_open}
use ingestion_engine.Ingest.{ingest_single, is_valid}
use ingestion_engine.Ingest.Single.{verdict, granted_one, admitted, completed}
use ingestion_engine.System.{Action, single, tick_workers, tick_batch, run, new_engine}
use ingestion_engine.System.Order.{all_admissions, run_fifo}
use ingestion_engine.System.Ranges.{IsBounded}
use ingestion_engine.System.Rate.{run_rate}
use ingestion_engine.Prelude.Int.{◌*ℤ◌}
use ingestion_engine.Prelude.{◌*◌, ◌+ℤ◌, ◌≤ℤ◌, sub_ℕ, pos}
use ingestion_engine.System.Bounds.{run-IsBounded}
use ingestion_engine.System.Stall.{Grows, stall_lasts}
use ingestion_engine.Examples.Data.{small, env, at_time, login, payment, copies, loaded, history}

run_fifo_example :
    let t = run history (new_engine env) in
    let accepted = all_admissions history (new_engine env) in
    (flushed : List TelemetryEvent) × (flushed ++ (t.batch.batch_buffer ++ t.pool.queue) ≡ accepted)
    × (t.batch.total_events_flushed ≡ length flushed)
    × (t.metrics.total_accepted ≡ length accepted)
run_fifo_example = run_fifo env history

run-IsBounded_example : IsBounded (run history (new_engine env))
run-IsBounded_example = run-IsBounded env history

-- 150 events for two workers.
abbrev overloaded : Engine
overloaded = loaded (copies 150 login) []

abbrev stalled : Engine
stalled =
    let s = loaded (copies 3 login) [] in record s { pool = record s.pool { active_workers = 2 } }

abbrev later : List (Env × Action)
later =
    (at_time 1010, tick_workers)
    ∷ (at_time 1020, single payment)
    ∷ (at_time 2000, tick_batch 2000)
    ∷ []

stall_lasts_example : Grows stalled (all_admissions later stalled) (run later stalled)
stall_lasts_example =
    stall_lasts later stalled (tt, (tt, (tt, tt))) (record { busy = omega arith; unset = refl })

rounds_drain_example :
    (rounds (env ∷ at_time 1010 ∷ []) (loaded (copies 50 login) [])).pool.queue ≡ []
unfolding ceil_div
rounds_drain_example =
    rounds_drain (env ∷ at_time 1010 ∷ []) (loaded (copies 50 login) [])
      (record { running = refl; unpaused = refl; released = omega arith; short = omega arith })
      (omega arith)

shutdown_drains_example :
    let (r, t) = simulate_graceful_shutdown env (loaded (login ∷ []) (payment ∷ [])) in
    (pending t ≡ [])
    × (t.batch.total_events_flushed ≡ 2)
    × (t.metrics.total_accepted ≡ 0)
    × (t.metrics.total_dropped ≡ 0)
    × (t.load.load_test_timer ≡ none)
    × (t.pool.is_shutting_down ≡ true)
    × (r.drained_queue ≡ 1)
    × (r.flushed_batch ≡ 2)
shutdown_drains_example = shutdown_drains env (loaded (login ∷ []) (payment ∷ []))

shutdown_stays_open_example :
    let t = (simulate_graceful_shutdown env (loaded (login ∷ []) [])).1 in
    let (r, u) = ingest_single (at_time 1500) payment t in
    let status =
      verdict (granted_one (at_time 1500) (loaded (login ∷ []) [])) (is_valid payment) true in
    (u.pool.is_shutting_down ≡ true)
    × (r.status ≡ status)
    × (u.pool.queue ≡ admitted status (completed (at_time 1500) payment))
shutdown_stays_open_example =
    shutdown_stays_open env (at_time 1500) payment (loaded (login ∷ []) []) (omega arith)

persist_lem_example :
    persist env.random_text 7 (login ∷ payment ∷ []) []
    ≡ take 300 (reverse (records_from env.random_text 7 0 (login ∷ payment ∷ [])) ++ [])
persist_lem_example = persist_lem env.random_text 7 (login ∷ payment ∷ []) []

failed_write_counts_example :
    let failed =
      trigger_flush window_timeout (record env { write_fails = true }) (loaded [] (login ∷ [])) in
    let written =
      trigger_flush window_timeout (record env { write_fails = false }) (loaded [] (login ∷ [])) in
    (failed.batch.batch_buffer ≡ written.batch.batch_buffer)
    × (failed.batch.persisted_time_series ≡ written.batch.persisted_time_series)
    × (failed.batch.total_events_flushed ≡ written.batch.total_events_flushed)
    × (failed.batch.total_batch_errors ≡ written.batch.total_batch_errors + 1)
failed_write_counts_example = failed_write_counts window_timeout env (loaded [] (login ∷ []))

run_rate_example :
    let t = run history small in
    pos (20 * t.metrics.total_accepted)
    ≤ℤ pos 0 +ℤ (pos 1000 *ℤ pos 5 +ℤ sub_ℕ t.limiter.last_refill_time 1000 *ℤ pos 10)
unfolding ◌*ℤ◌
run_rate_example =
    run_rate history small (omega arith) (omega arith)
      (record { at_most_burst = omega arith; no_debt = omega arith })
      (
        omega arith,
        (
          tt,
          (
            omega arith,
            (
              tt,
              (
                omega arith,
                (
                  tt,
                  (
                    omega arith,
                    (tt, (omega arith, (tt, (omega arith, (tt, (omega arith, (tt, tt))))))),
                  ),
                ),
              ),
            ),
          ),
        ),
      )
