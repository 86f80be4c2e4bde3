-- ===== src/Batch/Moves.antt =====
-- A flush and the batch ticker, as moves of the pipeline.
use ingestion_engine.Prelude.{
  ℕ, Bool, eq_nil_of_length, ◌+◌, ◌≡◌, refl, sym, arith, [], length, ltb, leb, ◌&&◌, if◌then◌else◌,
  inl, inr, Bool-cases,
}
use mathlib.Core.List.{append-nil}
use ingestion_engine.State.{Engine, Env}
use ingestion_engine.Pipeline.{pending, Moves, Moves-same}
use ingestion_engine.Batch.{FlushReason, window_timeout, trigger_flush, batch_tick}
use ingestion_engine.Batch.Flush.{trigger_flush-SamePipeline, trigger_flush-empties}

-- A flush takes out exactly what is in the buffer.
pub trigger_flush-Moves :
    (reason : FlushReason) (env : Env) (s : Engine) → Moves s [] (trigger_flush reason env s)
trigger_flush-Moves reason env s =
    let same = trigger_flush-SamePipeline reason env s in
    let (empty, counted) = trigger_flush-empties reason env s in
    record {
      flushed = s.batch.batch_buffer;
      order = rw (empty, same.pool) (sym (append-nil (pending s)));
      flushed_count = counted;
      accepted_count = rw same.metrics (omega arith);
    }

pub batch_tick-Moves : (tested : ℕ) (env : Env) (s : Engine) → Moves s [] (batch_tick tested env s)
unfolding batch_tick
batch_tick-Moves tested env s = elim (Bool-cases due) [
  | inl e ↦ rw e (trigger_flush-Moves window_timeout env s)
  | inr e ↦ rw e (Moves-same s s refl refl refl)
]
  where
    due : Bool
    due =
        ltb 0 (length s.batch.batch_buffer)
        && leb (s.batch.last_flush_time + s.config.batch_flush_window_ms) tested

-- Once the flush window has passed since the last flush, the ticker empties the buffer and counts its
-- events as flushed; before that it leaves both alone.
pub batch_tick_window :
    (tested : ℕ) (env : Env) (s : Engine)
    → let due = leb (s.batch.last_flush_time + s.config.batch_flush_window_ms) tested in
      let t = batch_tick tested env s in
      (t.batch.batch_buffer ≡ (if due then [] else s.batch.batch_buffer))
      × (t.batch.total_events_flushed
          ≡ s.batch.total_events_flushed + (if due then length s.batch.batch_buffer else 0))
unfolding batch_tick
batch_tick_window tested env s =
    ground
      (arith, trigger_flush-empties window_timeout env s, eq_nil_of_length s.batch.batch_buffer)
