-- ===== src/Batch.antt =====
-- The batch processor of server.ts: `triggerFlush` and the ticker of `startBatchTicker`.
use Prim.Native.String.{◌++◌ as concat}
use ingestion_engine.Prelude.{
  ℕ, zero, suc, ◌+◌, ◌-◌, ◌/◌, String, Bool, true, false, ◌&&◌, Option, none, some, List, [], ◌∷◌,
  if◌then◌else◌, ltb, leb, length, take, ℤ, pos,
}
use ingestion_engine.Event.{
  TelemetryEvent, PersistedRecord, Level, info, error, FieldValue, number, text, texts, Fields,
  text_or,
}
use ingestion_engine.State.{Engine, Batch, Logs, Env}
use ingestion_engine.Logs.{add_log}
pub mod Persist
pub mod Failure
pub mod Flush
pub mod Moves

pub data FlushReason : Type 0 where
  count_threshold window_timeout graceful_shutdown : FlushReason

unfoldable pub reason_text : FlushReason → String
reason_text count_threshold = "count_threshold"
reason_text window_timeout = "window_timeout"
reason_text graceful_shutdown = "graceful_shutdown"

-- The record that is stored of an event, with the random part of an id for an event that has none.
unfoldable pub persisted_record : ℕ → String → TelemetryEvent → PersistedRecord
persisted_record batch_id random ev = record {
  id = text_or ev.id (concat "evt-" random);
  service = ev.service;
  level = ev.level;
  trace_id = ev.trace_id;
  timestamp = ev.timestamp;
  batch_id = batch_id;
}

-- The loop from `i` on: each record goes to the front.
unfoldable pub persist_from :
    (ℕ → String) → ℕ → ℕ → List TelemetryEvent → List PersistedRecord → List PersistedRecord
persist_from random batch_id i [] stored = stored
persist_from random batch_id i (ev ∷ evs) stored =
    persist_from random batch_id (suc i) evs (persisted_record batch_id (random i) ev ∷ stored)

-- The first 50 events of the batch are stored, and the collection is cut to 300 records.
unfoldable pub persist :
    (ℕ → String) → ℕ → List TelemetryEvent → List PersistedRecord → List PersistedRecord
unfolding persist_from
persist random batch_id to_flush stored =
    let all = persist_from random batch_id 0 (take 50 to_flush) stored in
    if ltb 300 (length all) then take 300 all else all

-- `parseFloat(duration.toFixed(2))`, in hundredths of a millisecond
unfoldable pub hundredths : ℕ → ℕ
hundredths ns = (ns + 5000) / 10_000

unfoldable pub flush_log : FlushReason → Env → ℕ → ℕ → ℕ → Logs → Logs
flush_log reason env batch_id count duration logs =
    if env.write_fails
    then add_log env.log_time error "MongoDB BulkWrite failure" "storage.FlushBatch"
        (("batch_id", number (pos batch_id))
          ∷ ("count", number (pos count))
          ∷ ("reason", text (some (reason_text reason)))
          ∷ ("err", text (some "connection reset by peer"))
          ∷ [])
        logs
    else add_log env.log_time info "MongoDB BulkWrite committed" "batch.doFlush"
        (("batch_id", number (pos batch_id))
          ∷ ("count", number (pos count))
          ∷ ("reason", text (some (reason_text reason)))
          ∷ ("duration_ms", number (pos duration))
          ∷ ("indexed_keys", texts ("service:1" ∷ "timestamp:-1" ∷ "level:1" ∷ []))
          ∷ [])
        logs

-- `triggerFlush` on the events that stand in the buffer.
unfoldable pub flush_events : FlushReason → Env → List TelemetryEvent → Engine → Engine
flush_events reason env [] s = s
flush_events reason env (ev ∷ evs) s =
    let b = s.batch in
    let batch_id = b.total_batches_flushed + 1 in
    let count = length (ev ∷ evs) in
    let duration = hundredths (env.perf_stop - env.perf_start) in
    record s {
      batch = record {
        batch_buffer = [];
        last_flush_time = env.now;
        total_batches_flushed = batch_id;
        total_events_flushed = b.total_events_flushed + count;
        total_batch_errors = b.total_batch_errors + (if env.write_fails then 1 else 0);
        last_flush_duration = duration;
        persisted_time_series = persist env.random_text batch_id (ev ∷ evs) b.persisted_time_series;
      };
      logs = flush_log reason env batch_id count duration s.logs;
    }

unfoldable pub trigger_flush : FlushReason → Env → Engine → Engine
unfolding flush_events
trigger_flush reason env s = flush_events reason env s.batch.batch_buffer s

-- The ticker reads the clock for its own test, `tested`, before `triggerFlush` reads it again.
unfoldable pub batch_tick : ℕ → Env → Engine → Engine
batch_tick tested env s =
    if ltb 0 (length s.batch.batch_buffer)
      && leb (s.batch.last_flush_time + s.config.batch_flush_window_ms) tested
    then trigger_flush window_timeout env s
    else s
