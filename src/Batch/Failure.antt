-- ===== src/Batch/Failure.antt =====
-- What a flush does when its write fails.
use ingestion_engine.Prelude.{
  ◌+◌, ◌≡◌, arith, Bool, true, false, List, [], ◌∷◌, length, ltb, if◌then◌else◌,
}
use ingestion_engine.Event.{TelemetryEvent}
use ingestion_engine.State.{Engine, Env}
use ingestion_engine.Batch.{FlushReason, flush_events, trigger_flush}

module _ (reason : FlushReason) (env : Env) where
  abbrev flush_if : Bool → List TelemetryEvent → Engine → Engine
  flush_if fails evs s = flush_events reason (record env { write_fails = fails }) evs s

  flush_events_failure :
      (evs : List TelemetryEvent) (s : Engine)
      → let failed = flush_if true evs s in
        let written = flush_if false evs s in
        (failed.batch.batch_buffer ≡ written.batch.batch_buffer)
        × (failed.batch.persisted_time_series ≡ written.batch.persisted_time_series)
        × (failed.batch.total_events_flushed ≡ written.batch.total_events_flushed)
        × (failed.batch.total_batch_errors
            ≡ written.batch.total_batch_errors + (if ltb 0 (length evs) then 1 else 0))
  unfolding flush_events
  flush_events_failure [] s = ground arith
  flush_events_failure (ev ∷ evs) s = ground arith

  -- A flush whose write fails ends with the same buffer, the same stored records and the same total
  -- of flushed events as one whose write succeeds. Only the count of errors is one more, if there
  -- was anything to flush.
  pub failed_write_counts :
      (s : Engine)
      → let failed = trigger_flush reason (record env { write_fails = true }) s in
        let written = trigger_flush reason (record env { write_fails = false }) s in
        (failed.batch.batch_buffer ≡ written.batch.batch_buffer)
        × (failed.batch.persisted_time_series ≡ written.batch.persisted_time_series)
        × (failed.batch.total_events_flushed ≡ written.batch.total_events_flushed)
        × (failed.batch.total_batch_errors
            ≡ written.batch.total_batch_errors
              + (if ltb 0 (length s.batch.batch_buffer) then 1 else 0))
  unfolding trigger_flush
  failed_write_counts s = flush_events_failure s.batch.batch_buffer s
