-- ===== src/System/Numbers.antt =====
-- The numbers of the stored records over any history.
use ingestion_engine.Prelude.{
  ℕ, zero, suc, ◌+◌, ◌≤◌, arith, Bool, String, List, [], ◌∷◌, length, take, ltb, leb, ◌&&◌, inl,
  inr, Bool-cases,
}
use ingestion_engine.Event.{TelemetryEvent, PersistedRecord}
use ingestion_engine.State.{Batch, Engine, Env}
use ingestion_engine.Batch.{
  FlushReason, graceful_shutdown, window_timeout, count_threshold, persist, persist_from,
  persisted_record, flush_events, trigger_flush, batch_tick,
}
use ingestion_engine.Workers.{
  chunk_size, move_chunk, flush_if_full, schedule_release, process_chunk, is_idle, worker_tick,
  worker_release,
}
use ingestion_engine.Ingest.Single.{ingest_single-Admits}
use ingestion_engine.Ingest.Many.{ingest_batch-Admits}
use ingestion_engine.Tuning.{update_config}
use ingestion_engine.LoadTest.{start_load_test, stop_load_test}
use ingestion_engine.LoadTest.Cases.{load_test_tick_elim}
use ingestion_engine.Shutdown.{
  begin_shutdown, drain_queue, end_shutdown, simulate_graceful_shutdown, reset_shutdown,
}
use ingestion_engine.Report.{get_metrics, metrics_tick}
use ingestion_engine.System.{
  Action, single, many, measure, configure, start, stop, shutdown, tick_workers, release_workers,
  tick_batch, tick_metrics, tick_load, end_shutdown as fire_end, fire_release, fire_reset, step,
  run, new_engine,
}

-- From the front on, batch numbers never grow, and none is over `bound`.
abbrev pub Descends : ℕ → List PersistedRecord → Type 0
Descends bound [] = Unit {0}
Descends bound (r ∷ rs) = (r.batch_id ≤ bound) × Descends r.batch_id rs

-- The stored records carry the numbers of flushes, the latest first.
abbrev pub IsNumbered : Batch → Type 0
IsNumbered b = Descends b.total_batches_flushed b.persisted_time_series

Descends-mono : (a b : ℕ) (rs : List PersistedRecord) → a ≤ b → Descends a rs → Descends b rs
Descends-mono a b [] h d = tt
Descends-mono a b (r ∷ rs) h (d, ds) = (omega arith, ds)

Descends-take :
    (n bound : ℕ) (rs : List PersistedRecord) → Descends bound rs → Descends bound (take n rs)
Descends-take zero bound rs d = tt
Descends-take (suc n) bound [] d = tt
Descends-take (suc n) bound (r ∷ rs) (d, ds) = (d, Descends-take n r.batch_id rs ds)

persist_from-Descends :
    (random : ℕ → String) (id i : ℕ) (evs : List TelemetryEvent) (stored : List PersistedRecord)
    → Descends id stored
    → Descends id (persist_from random id i evs stored)
unfolding persist_from persisted_record
persist_from-Descends random id i [] stored d = d
persist_from-Descends random id i (ev ∷ evs) stored d =
    persist_from-Descends random id (suc i) evs (persisted_record id (random i) ev ∷ stored)
      (omega arith, d)

persist-Descends :
    (random : ℕ → String) (id : ℕ) (evs : List TelemetryEvent) (stored : List PersistedRecord)
    → Descends id stored
    → Descends id (persist random id evs stored)
unfolding persist
persist-Descends random id evs stored d =
    let all = persist_from random id 0 (take 50 evs) stored in
    let kept = persist_from-Descends random id 0 (take 50 evs) stored d in
    elim (Bool-cases (ltb 300 (length all))) [
      | inl more ↦ rw more (Descends-take 300 id all kept)
      | inr fits ↦ rw fits kept
    ]

module _ (env : Env) where
  flush_events-IsNumbered :
      (reason : FlushReason) (evs : List TelemetryEvent) (s : Engine)
      → IsNumbered s.batch
      → IsNumbered (flush_events reason env evs s).batch
  unfolding flush_events
  flush_events-IsNumbered reason [] s h = h
  flush_events-IsNumbered reason (ev ∷ evs) s h =
      let b = s.batch in
      persist-Descends env.random_text (b.total_batches_flushed + 1) (ev ∷ evs)
        b.persisted_time_series
        (Descends-mono b.total_batches_flushed (b.total_batches_flushed + 1) b.persisted_time_series
          (omega arith) h)

  trigger_flush-IsNumbered :
      (reason : FlushReason) (s : Engine)
      → IsNumbered s.batch
      → IsNumbered (trigger_flush reason env s).batch
  unfolding trigger_flush
  trigger_flush-IsNumbered reason s h = flush_events-IsNumbered reason s.batch.batch_buffer s h

  batch_tick-IsNumbered :
      (tested : ℕ) (s : Engine) → IsNumbered s.batch → IsNumbered (batch_tick tested env s).batch
  unfolding batch_tick
  batch_tick-IsNumbered tested s h = elim (Bool-cases due) [
    | inl e ↦ rw e (trigger_flush-IsNumbered window_timeout s h)
    | inr e ↦ rw e h
  ]
    where
      due : Bool
      due =
          ltb 0 (length s.batch.batch_buffer)
          && leb (s.batch.last_flush_time + s.config.batch_flush_window_ms) tested

  flush_if_full-IsNumbered :
      (s : Engine) → IsNumbered s.batch → IsNumbered (flush_if_full env s).batch
  unfolding flush_if_full
  flush_if_full-IsNumbered s h =
      elim (Bool-cases (leb s.config.batch_threshold (length s.batch.batch_buffer))) [
        | inl full ↦ rw full (trigger_flush-IsNumbered count_threshold s h)
        | inr small ↦ rw small h
      ]

  process_chunk-IsNumbered :
      (chunk : ℕ) (s : Engine) → IsNumbered s.batch → IsNumbered (process_chunk chunk env s).batch
  unfolding process_chunk schedule_release move_chunk
  process_chunk-IsNumbered chunk s h = elim (Bool-cases (ltb 0 chunk)) [
    | inl e ↦ rw e (flush_if_full-IsNumbered (move_chunk chunk s) h)
    | inr e ↦ rw e h
  ]

  worker_tick-IsNumbered : (s : Engine) → IsNumbered s.batch → IsNumbered (worker_tick env s).batch
  unfolding worker_tick
  worker_tick-IsNumbered s h = elim (Bool-cases (is_idle s)) [
    | inl e ↦ rw e h
    | inr e ↦ rw e (process_chunk-IsNumbered (chunk_size s) s h)
  ]

  shutdown-IsNumbered :
      (s : Engine) → IsNumbered s.batch → IsNumbered (simulate_graceful_shutdown env s).1.batch
  unfolding simulate_graceful_shutdown begin_shutdown drain_queue end_shutdown stop_load_test
  shutdown-IsNumbered s h =
      trigger_flush-IsNumbered graceful_shutdown (drain_queue (begin_shutdown env s)) h

  step-IsNumbered : (a : Action) (s : Engine) → IsNumbered s.batch → IsNumbered (step env a s).batch
  unfolding step update_config start_load_test stop_load_test get_metrics metrics_tick fire_release
      worker_release fire_reset reset_shutdown
  step-IsNumbered (single ev) s h = rw (ingest_single-Admits env ev s).batch h
  step-IsNumbered (many evs) s h = rw (ingest_batch-Admits env evs s).batch h
  step-IsNumbered measure s h = h
  step-IsNumbered (configure u) s h = h
  step-IsNumbered (start rps scenario) s h = h
  step-IsNumbered stop s h = h
  step-IsNumbered shutdown s h = shutdown-IsNumbered s h
  step-IsNumbered tick_workers s h = worker_tick-IsNumbered s h
  step-IsNumbered release_workers s h = fire s.pool.releases
    where
      fire : (n : ℕ) → IsNumbered (fire_release n s).batch
      fire zero = h
      fire (suc n) = h
  step-IsNumbered (tick_batch tested) s h = batch_tick-IsNumbered tested s h
  step-IsNumbered tick_metrics s h = h
  step-IsNumbered (tick_load draws wave) s h =
      load_test_tick_elim (λ t. IsNumbered t.batch) env draws wave s h
        (λ evs. rw (ingest_batch-Admits env evs s).batch h)
  step-IsNumbered fire_end s h = fire s.pool.resets
    where
      fire : (n : ℕ) → IsNumbered (fire_reset n s).batch
      fire zero = h
      fire (suc n) = h

run-keeps_numbers :
    (actions : List (Env × Action)) (s : Engine)
    → IsNumbered s.batch
    → IsNumbered (run actions s).batch
unfolding run
run-keeps_numbers [] s h = h
run-keeps_numbers ((env, a) ∷ rest) s h =
    run-keeps_numbers rest (step env a s) (step-IsNumbered env a s h)

-- From a new engine, whatever requests come and timers fire, the stored records stand in the order of
-- their flushes, the latest first: no record has a higher batch number than one before it, and none
-- has a number over the count of flushes.
pub run-IsNumbered :
    (env : Env) (actions : List (Env × Action)) → IsNumbered (run actions (new_engine env)).batch
unfolding new_engine
run-IsNumbered env actions = run-keeps_numbers actions (new_engine env) tt
