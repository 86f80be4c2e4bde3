-- ===== src/Ingest/Admits.antt =====
-- What ingestion may do to the engine: some events go to the end of the queue, within its capacity, and
-- the counters follow. The buffer, the settings and the other states stay as they are.
use mathlib.Core.List.{append-nil}
use ingestion_engine.Prelude.{ℕ, ◌+◌, ◌≤◌, ◌≡◌, arith, List, [], ◌++◌, length, max, pos, ◌≤ℤ◌, ◌*ℤ◌}
use ingestion_engine.Event.{TelemetryEvent}
use ingestion_engine.State.{Limiter, Engine}
use ingestion_engine.Ingest.{count_request}
use ingestion_engine.Logs.Cap.{Keeps}

pub record Admits (s : Engine) (ads : List TelemetryEvent) (t : Engine) : Type 0 where
  pub config : t.config ≡ s.config
  pub pool : t.pool ≡ record s.pool { queue = s.pool.queue ++ ads }
  pub batch : t.batch ≡ s.batch
  pub load : t.load ≡ s.load
  pub accepted : t.metrics.total_accepted ≡ s.metrics.total_accepted + length ads
  pub processed : t.metrics.total_processed ≡ s.metrics.total_processed
  pub latencies : length s.metrics.latencies ≤ 500 → length t.metrics.latencies ≤ 500
  pub logs : Keeps s.logs t.logs
  pub room : length t.pool.queue ≤ max (length s.pool.queue) s.config.channel_capacity
  pub tokens : t.limiter.available_tokens ≤ℤ pos 1000 *ℤ s.config.rate_limit_burst

-- Nothing is admitted, and at most counters, log and limiter change.
pub Admits-none :
    (s t : Engine)
    → t.config ≡ s.config
    → t.pool ≡ s.pool
    → t.batch ≡ s.batch
    → t.load ≡ s.load
    → t.metrics.total_accepted ≡ s.metrics.total_accepted
    → t.metrics.total_processed ≡ s.metrics.total_processed
    → t.metrics.latencies ≡ s.metrics.latencies
    → Keeps s.logs t.logs
    → t.limiter.available_tokens ≤ℤ pos 1000 *ℤ s.config.rate_limit_burst
    → Admits s [] t
Admits-none s t c p b l a q n k h = record {
  config = c;
  pool = rw append-nil p;
  batch = b;
  load = l;
  accepted = omega arith;
  processed = q;
  latencies = ground arith;
  logs = k;
  room = ground arith;
  tokens = h;
}

-- Counting the request and charging the bucket first makes no difference.
pub Admits-counted :
    (n : ℕ) (limiter : Limiter) (s : Engine) {ads : List TelemetryEvent} {t : Engine}
    → Admits (record (count_request n s) { limiter = limiter }) ads t
    → Admits s ads t
unfolding count_request
Admits-counted n limiter s a = record {
  config = a.config;
  pool = a.pool;
  batch = a.batch;
  load = a.load;
  accepted = a.accepted;
  processed = a.processed;
  latencies = a.latencies;
  logs = a.logs;
  room = a.room;
  tokens = a.tokens;
}
