-- ===== src/Ingest.antt =====
-- Ingestion in server.ts: `ingestSingle` and `ingestBatch`.
use ingestion_engine.Prelude.{
  ℕ, suc, ◌+◌, ◌-◌, max, String, Bool, true, false, ◌||◌, Option, none, some, List, [], ◌∷◌, ◌++◌,
  if◌then◌else◌, ltb, leb, length, pos,
}
use ingestion_engine.Event.{
  TelemetryEvent, warn, number, text, falsy, fill_defaults, fill_batch_defaults,
}
use ingestion_engine.State.{Config, Engine, Env}
use ingestion_engine.Logs.{add_log}
use ingestion_engine.Limiter.{allow_rate_limit}
use ingestion_engine.Latency.{record_latency}
use ingestion_engine.Workers.{ceil_div}
pub mod Admits
pub mod Single
pub mod Many
pub mod Complete

pub data IngestStatus : Type 0 where
  accepted rate_limited queue_saturated invalid : IngestStatus

pub record SingleResult : Type 0 where
  pub status : IngestStatus
  pub trace_id : Option String
  pub error : Option String

unfoldable pub fail : IngestStatus → String → SingleResult
fail status error = record { status = status; trace_id = none; error = some error }

unfoldable pub is_valid : TelemetryEvent → Bool
is_valid ev = if falsy ev.service || falsy ev.message then false else true

-- The bounded queue, for an event that is valid and complete.
unfoldable pub enqueue : Env → TelemetryEvent → Engine → SingleResult × Engine
enqueue env ev s =
    if leb s.config.channel_capacity (length s.pool.queue)
    then (
      fail queue_saturated "Channel buffer capacity reached (HTTP 503)",
      record s {
        metrics = record s.metrics { total_dropped = s.metrics.total_dropped + 1 };
        logs =
            add_log env.log_time warn
              "Channel buffer saturated; dropping event (backpressure engaged)" "worker.Enqueue"
              (("queue_len", number (pos (length s.pool.queue)))
                ∷ ("capacity", number (pos s.config.channel_capacity))
                ∷ ("service", text ev.service)
                ∷ [])
              s.logs;
      },
    )
    else (
      record { status = accepted; trace_id = ev.trace_id; error = none },
      record s {
        pool = record s.pool { queue = s.pool.queue ++ ev ∷ [] };
        metrics = record s.metrics {
          total_accepted = s.metrics.total_accepted + 1;
          latencies = record_latency (env.perf_stop - env.perf_start) s.metrics.latencies;
        };
      },
    )

-- The checks that follow a granted token, and the queue.
unfoldable pub validate_and_enqueue : Env → TelemetryEvent → Engine → SingleResult × Engine
validate_and_enqueue env ev s =
    if is_valid ev
    then enqueue env (fill_defaults (env.iso 0) (env.random_text 0) ev) s
    else (fail invalid "Missing required field: service or message", s)

-- A call counts as one request with `events` events.
unfoldable pub count_request : ℕ → Engine → Engine
count_request events s = record s {
  metrics = record s.metrics {
    rps_counter = s.metrics.rps_counter + 1;
    eps_counter = s.metrics.eps_counter + events;
  };
}

unfoldable pub ingest_single : Env → TelemetryEvent → Engine → SingleResult × Engine
unfolding count_request
ingest_single env ev s =
    let counted = count_request 1 s in
    let (granted, limiter) = allow_rate_limit s.config env.now 1 s.limiter in
    let limited = record counted { limiter = limiter } in
    if granted
    then validate_and_enqueue env ev limited
    else (fail rate_limited "Token bucket capacity exceeded (HTTP 429)", limited)

pub record BatchResult : Type 0 where
  pub total : ℕ
  pub accepted : ℕ
  pub dropped : ℕ
  pub rate_limited : Bool

-- What the loop of `ingestBatch` changes: the queue, its two local counts and the two totals.
pub record Loop : Type 0 where
  pub queue : List TelemetryEvent
  pub accepted : ℕ
  pub dropped : ℕ
  pub total_accepted : ℕ
  pub total_dropped : ℕ

unfoldable pub enqueue_one : ℕ → TelemetryEvent → Loop → Loop
enqueue_one capacity ev l =
    if ltb (length l.queue) capacity
    then record l {
      queue = l.queue ++ ev ∷ [];
      accepted = l.accepted + 1;
      total_accepted = l.total_accepted + 1;
    }
    else record l { dropped = l.dropped + 1; total_dropped = l.total_dropped + 1 }

-- The loop from event `i` on.
unfoldable pub enqueue_all : Env → ℕ → ℕ → List TelemetryEvent → Loop → Loop
enqueue_all env capacity i [] l = l
enqueue_all env capacity i (ev ∷ evs) l =
    let complete = fill_batch_defaults (env.iso i) (env.random_text i) ev in
    enqueue_all env capacity (suc i) evs (enqueue_one capacity complete l)

unfoldable pub start_loop : Engine → Loop
start_loop s = record {
  queue = s.pool.queue;
  accepted = 0;
  dropped = 0;
  total_accepted = s.metrics.total_accepted;
  total_dropped = s.metrics.total_dropped;
}

-- `ingestBatch` after a granted token.
unfoldable pub ingest_all : Env → List TelemetryEvent → Engine → BatchResult × Engine
unfolding start_loop
ingest_all env evs s =
    let l = enqueue_all env s.config.channel_capacity 0 evs (start_loop s) in
    (
      record {
        total = length evs;
        accepted = l.accepted;
        dropped = l.dropped;
        rate_limited = false;
      },
      record s {
        pool = record s.pool { queue = l.queue };
        metrics = record s.metrics {
          total_accepted = l.total_accepted;
          total_dropped = l.total_dropped;
          latencies = record_latency env.sampled_latency s.metrics.latencies;
        };
      },
    )

-- `Math.max(1, Math.ceil(events.length / 50))`
unfoldable pub batch_cost : ℕ → ℕ
unfolding ceil_div
batch_cost events = max 1 (ceil_div events 50)

unfoldable pub ingest_batch : Env → List TelemetryEvent → Engine → BatchResult × Engine
unfolding count_request batch_cost
ingest_batch env evs s =
    let n = length evs in
    let counted = count_request n s in
    let (granted, limiter) = allow_rate_limit s.config env.now (batch_cost n) s.limiter in
    let limited = record counted { limiter = limiter } in
    if granted then ingest_all env evs limited else (
      record { total = n; accepted = 0; dropped = n; rate_limited = true },
      record limited {
        limiter = record limiter { rate_limited_requests = limiter.rate_limited_requests + n };
      },
    )
