-- ===== src/System/Ranges.antt =====
-- The ranges of the engine's numbers, and how flushes, workers and ingestion keep them.
use ingestion_engine.Prelude.{
  ℕ, ◌+◌, ◌≤◌, ◌<◌, ◌≡◌, arith, List, length, length-append, length-take, length-drop, Bool, ℤ, pos,
  ◌≤ℤ◌, ◌*ℤ◌, inl, inr, Bool-cases, ◌&&◌, leb-lt, String, leb, ltb,
}
use ingestion_engine.Event.{TelemetryEvent, PersistedRecord}
use ingestion_engine.State.{Config, Logs, Engine, Env}
use ingestion_engine.Logs.Cap.{IsCapped, Keeps, add_log-Keeps}
use ingestion_engine.Batch.{FlushReason, window_timeout, count_threshold, trigger_flush, batch_tick}
use ingestion_engine.Batch.Flush.{
  trigger_flush-SamePipeline, trigger_flush-empties, trigger_flush-caps,
}
use ingestion_engine.Ingest.Admits.{Admits}
use ingestion_engine.Tuning.Ranges.{IsTuned}
use ingestion_engine.Workers.{
  chunk_size, move_chunk, flush_if_full, schedule_release, process_chunk, is_idle, worker_tick,
  worker_release,
}
use ingestion_engine.LoadTest.{stop_load_test, start_load_test}

-- The numbers of the engine stay in their ranges, and what was processed or still waits in the queue
-- was accepted before.
pub record InRanges (c : Config) (queue : List TelemetryEvent) (active : ℕ) (latencies : List ℕ)
    (stored : List PersistedRecord) (logs : Logs) (tokens : ℤ) (processed accepted : ℕ)
    : Type 0 where
  pub tuned : IsTuned c
  pub queued : length queue ≤ 500_000
  pub workers : active ≤ 256
  pub samples : length latencies ≤ 500
  pub records : length stored ≤ 300
  pub capped : IsCapped logs
  pub max_logs : logs.max_logs ≡ 200
  pub burst : tokens ≤ℤ pos 1000 *ℤ c.rate_limit_burst
  pub accounts : processed + length queue ≤ accepted

-- As long as an operation leaves these parts of the engine alone, this is the same statement.
abbrev pub IsSound : Engine → Type 0
IsSound s =
    InRanges s.config s.pool.queue s.pool.active_workers s.metrics.latencies
      s.batch.persisted_time_series s.logs s.limiter.available_tokens s.metrics.total_processed
      s.metrics.total_accepted

-- Within a call the buffer may grow past its bound; between calls it does not.
abbrev pub IsBounded : Engine → Type 0
IsBounded s = IsSound s × (length s.batch.batch_buffer < 50_000)

Admits-IsSound : {s t : Engine} {ads : List TelemetryEvent} → Admits s ads t → IsSound s → IsSound t
Admits-IsSound {s} {t} {ads} a h = record {
  tuned = rw a.config h.tuned;
  queued = omega (arith, a.room, h.queued, h.tuned.capacity);
  workers = rw a.pool h.workers;
  samples = a.latencies h.samples;
  records = rw a.batch h.records;
  capped = a.logs.0 h.capped;
  max_logs = omega (arith, a.logs.1, h.max_logs);
  burst = rw a.config a.tokens;
  accounts =
      rw (a.pool, a.processed)
        (omega (arith, a.accepted, h.accounts, length-append s.pool.queue ads));
}

pub Admits-IsBounded :
    {s t : Engine} {ads : List TelemetryEvent} → Admits s ads t → IsBounded s → IsBounded t
Admits-IsBounded a h = (Admits-IsSound a h.0, rw a.batch h.1)

module _ (env : Env) where
  pub trigger_flush-IsBounded :
      (reason : FlushReason) (s : Engine) → IsSound s → IsBounded (trigger_flush reason env s)
  trigger_flush-IsBounded reason s h =
      let same = trigger_flush-SamePipeline reason env s in
      let (empty, _) = trigger_flush-empties reason env s in
      let (kept, stored) = trigger_flush-caps reason env s in
      (
        record {
          tuned = rw same.config h.tuned;
          queued = rw same.pool h.queued;
          workers = rw same.pool h.workers;
          samples = rw same.metrics h.samples;
          records = stored h.records;
          capped = kept.0 h.capped;
          max_logs = omega (arith, kept.1, h.max_logs);
          burst = rw (same.config, same.limiter) h.burst;
          accounts = rw (same.pool, same.metrics) h.accounts;
        },
        rw empty (omega arith),
      )

  pub batch_tick-IsBounded :
      (tested : ℕ) (s : Engine) → IsBounded s → IsBounded (batch_tick tested env s)
  unfolding batch_tick
  batch_tick-IsBounded tested s h = elim (Bool-cases due) [
    | inl e ↦ rw e (trigger_flush-IsBounded window_timeout s h.0)
    | inr e ↦ rw e h
  ]
    where
      due : Bool
      due =
          ltb 0 (length s.batch.batch_buffer)
          && leb (s.batch.last_flush_time + s.config.batch_flush_window_ms) tested

  move_chunk-IsSound : (chunk : ℕ) (s : Engine) → IsSound s → IsSound (move_chunk chunk s)
  unfolding move_chunk
  move_chunk-IsSound chunk s h = record {
    tuned = h.tuned;
    queued = omega (arith, h.queued, length-drop chunk s.pool.queue);
    workers = omega (arith, h.tuned.workers);
    samples = h.samples;
    records = h.records;
    capped = h.capped;
    max_logs = h.max_logs;
    burst = h.burst;
    accounts =
        omega (arith, h.accounts, length-drop chunk s.pool.queue, length-take chunk s.pool.queue);
  }

  flush_if_full-IsBounded : (s : Engine) → IsSound s → IsBounded (flush_if_full env s)
  unfolding flush_if_full
  flush_if_full-IsBounded s h =
      let count = length s.batch.batch_buffer in
      elim (Bool-cases (leb s.config.batch_threshold count)) [
        | inl full ↦ rw full (trigger_flush-IsBounded count_threshold s h)
        | inr small ↦
            rw small
              (h, omega (arith, leb-lt s.config.batch_threshold count small, h.tuned.threshold))
      ]

  process_chunk-IsBounded :
      (chunk : ℕ) (s : Engine) → IsBounded s → IsBounded (process_chunk chunk env s)
  unfolding process_chunk schedule_release
  process_chunk-IsBounded chunk s h = elim (Bool-cases (ltb 0 chunk)) [
    | inr e ↦ rw e h
    | inl e ↦ rw e (flush_if_full-IsBounded (move_chunk chunk s) (move_chunk-IsSound chunk s h.0))
  ]

  pub worker_tick-IsBounded : (s : Engine) → IsBounded s → IsBounded (worker_tick env s)
  unfolding worker_tick
  worker_tick-IsBounded s h = elim (Bool-cases (is_idle s)) [
    | inl e ↦ rw e h
    | inr e ↦ rw e (process_chunk-IsBounded (chunk_size s) s h)
  ]

pub worker_release-IsBounded : (s : Engine) → IsBounded s → IsBounded (worker_release s)
unfolding worker_release
worker_release-IsBounded s (h, b) = (
  record {
    tuned = h.tuned;
    queued = h.queued;
    workers = omega (arith, h.tuned.workers);
    samples = h.samples;
    records = h.records;
    capped = h.capped;
    max_logs = h.max_logs;
    burst = h.burst;
    accounts = h.accounts;
  },
  b,
)

-- A line in the log.
pub IsSound-logged :
    (s : Engine) (logs : Logs) → Keeps s.logs logs → IsSound s → IsSound (record s { logs = logs })
IsSound-logged s logs k h = record {
  tuned = h.tuned;
  queued = h.queued;
  workers = h.workers;
  samples = h.samples;
  records = h.records;
  capped = k.0 h.capped;
  max_logs = omega (arith, k.1, h.max_logs);
  burst = h.burst;
  accounts = h.accounts;
}

pub stop_load_test-IsBounded :
    (env : Env) (s : Engine) → IsBounded s → IsBounded (stop_load_test env s)
unfolding stop_load_test
stop_load_test-IsBounded env s (h, b) = (IsSound-logged s _ (add_log-Keeps _ _ _ _ _ s.logs) h, b)

pub start_load_test-IsBounded :
    (env : Env) (rps : ℕ) (scenario : String) (s : Engine)
    → IsBounded s
    → IsBounded (start_load_test env rps scenario s)
unfolding start_load_test
start_load_test-IsBounded env rps scenario s h =
    let (h1, b1) = stop_load_test-IsBounded env s h in
    (IsSound-logged (stop_load_test env s) _ (add_log-Keeps _ _ _ _ _ _) h1, b1)
