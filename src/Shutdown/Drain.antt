-- ===== src/Shutdown/Drain.antt =====
-- A simulated shutdown empties the pipeline and reports what it drained.
use mathlib.Core.List.{append-nil}
use ingestion_engine.Prelude.{◌+◌, ◌≡◌, refl, [], length, true, none}
use ingestion_engine.State.{Engine, Env}
use ingestion_engine.Pipeline.{pending, Moves, Moves-same, Moves-trans}
use ingestion_engine.Batch.{graceful_shutdown, trigger_flush}
use ingestion_engine.Batch.Flush.{trigger_flush-SamePipeline, trigger_flush-empties}
use ingestion_engine.Batch.Moves.{trigger_flush-Moves}
use ingestion_engine.LoadTest.{stop_load_test}
use ingestion_engine.Shutdown.{
  begin_shutdown, drain_queue, end_shutdown, simulate_graceful_shutdown,
}

module _ (env : Env) (s : Engine) where
  abbrev pub drained : Engine
  drained = drain_queue (begin_shutdown env s)

  -- After a shutdown queue and buffer are empty; all that was pending counts as flushed and nothing is
  -- dropped; the load generator is off and the flag is set. The report says how many events stood in
  -- the queue, and how many were flushed.
  pub shutdown_drains :
      let (r, t) = simulate_graceful_shutdown env s in
      (pending t ≡ [])
      × (t.batch.total_events_flushed ≡ s.batch.total_events_flushed + length (pending s))
      × (t.metrics.total_accepted ≡ s.metrics.total_accepted)
      × (t.metrics.total_dropped ≡ s.metrics.total_dropped)
      × (t.load.load_test_timer ≡ none)
      × (t.pool.is_shutting_down ≡ true)
      × (r.drained_queue ≡ length s.pool.queue)
      × (r.flushed_batch ≡ length (pending s))
  unfolding simulate_graceful_shutdown begin_shutdown drain_queue end_shutdown stop_load_test
  shutdown_drains =
      let (empty, counted) = trigger_flush-empties graceful_shutdown env drained in
      let same = trigger_flush-SamePipeline graceful_shutdown env drained in
      (
        rw (empty, same.pool),
        counted,
        rw same.metrics,
        rw same.metrics,
        rw same.load,
        rw same.pool,
        refl,
        refl,
      )

  -- As a move of the pipeline.
  pub shutdown-Moves : Moves s [] (simulate_graceful_shutdown env s).1
  unfolding simulate_graceful_shutdown begin_shutdown drain_queue end_shutdown stop_load_test
  shutdown-Moves = Moves-trans (Moves-same s drained (append-nil (pending s)) refl refl) (
      Moves-trans (trigger_flush-Moves graceful_shutdown env drained)
        (Moves-same (trigger_flush graceful_shutdown env drained) _ refl refl refl))
