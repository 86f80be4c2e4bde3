-- ===== src/Batch/Flush.antt =====
-- What a flush does to the engine.
use ingestion_engine.Prelude.{
  ℕ, ◌+◌, ◌≤◌, ◌≡◌, refl, arith, List, [], ◌∷◌, length, Bool-cases, inl, inr,
}
use ingestion_engine.Event.{TelemetryEvent}
use ingestion_engine.State.{Engine, Env, Logs}
use ingestion_engine.Logs.Cap.{Keeps, add_log-Keeps}
use ingestion_engine.Batch.{FlushReason, flush_events, flush_log, trigger_flush}
use ingestion_engine.Batch.Persist.{persist-length}

-- What a flush leaves alone.
pub record SamePipeline (s t : Engine) : Type 0 where
  pub config : t.config ≡ s.config
  pub limiter : t.limiter ≡ s.limiter
  pub pool : t.pool ≡ s.pool
  pub metrics : t.metrics ≡ s.metrics
  pub load : t.load ≡ s.load

module _ (reason : FlushReason) (env : Env) where
  flush_events-SamePipeline :
      (evs : List TelemetryEvent) (s : Engine) → SamePipeline s (flush_events reason env evs s)
  unfolding flush_events
  flush_events-SamePipeline [] s = ground arith
  flush_events-SamePipeline (ev ∷ evs) s = ground arith

  pub trigger_flush-SamePipeline : (s : Engine) → SamePipeline s (trigger_flush reason env s)
  unfolding trigger_flush
  trigger_flush-SamePipeline s = flush_events-SamePipeline s.batch.batch_buffer s

  flush_events-empties :
      (evs : List TelemetryEvent) (s : Engine)
      → s.batch.batch_buffer ≡ evs
      → let t = flush_events reason env evs s in
        (t.batch.batch_buffer ≡ [])
        × (t.batch.total_events_flushed ≡ s.batch.total_events_flushed + length evs)
  unfolding flush_events
  flush_events-empties [] s e = ground arith
  flush_events-empties (ev ∷ evs) s e = ground arith

  -- A flush empties the buffer and counts each of its events once as flushed.
  pub trigger_flush-empties :
      (s : Engine)
      → let t = trigger_flush reason env s in
        (t.batch.batch_buffer ≡ [])
        × (t.batch.total_events_flushed
            ≡ s.batch.total_events_flushed + length s.batch.batch_buffer)
  unfolding trigger_flush
  trigger_flush-empties s = flush_events-empties s.batch.batch_buffer s refl

  flush_log-Keeps :
      (id count duration : ℕ) (l : Logs) → Keeps l (flush_log reason env id count duration l)
  unfolding flush_log
  flush_log-Keeps id count duration l = elim (Bool-cases env.write_fails) [
    | inl failed ↦ rw (failed, flush_log) (add_log-Keeps _ _ _ _ _ l)
    | inr written ↦ rw (written, flush_log) (add_log-Keeps _ _ _ _ _ l)
  ]

  flush_events-caps :
      (evs : List TelemetryEvent) (s : Engine)
      → let t = flush_events reason env evs s in
        Keeps s.logs t.logs
        × (length s.batch.persisted_time_series ≤ 300 → length t.batch.persisted_time_series ≤ 300)
  unfolding flush_events
  flush_events-caps [] s = ((λ h. h, refl), λ h. h)
  flush_events-caps (ev ∷ evs) s =
      (flush_log-Keeps _ _ _ s.logs, λ _. persist-length env.random_text _ (ev ∷ evs) _)

  -- A flush keeps the caps of the log and of the stored records.
  pub trigger_flush-caps :
      (s : Engine)
      → let t = trigger_flush reason env s in
        Keeps s.logs t.logs
        × (length s.batch.persisted_time_series ≤ 300 → length t.batch.persisted_time_series ≤ 300)
  unfolding trigger_flush
  trigger_flush-caps s = flush_events-caps s.batch.batch_buffer s
