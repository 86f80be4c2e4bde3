-- ===== src/State.antt =====
-- The state of `class IngestionEngine` (server.ts), grouped as the class's own comments group its
-- fields, and what its methods read from outside: clocks and random numbers.
use ingestion_engine.Prelude.{ℕ, ◌*◌, String, Bool, false, Option, none, List, [], ℤ, pos}
use ingestion_engine.Event.{TelemetryEvent, StructuredLog, PersistedRecord}

-- Workers, queue and batch sizes are positive after every update, so they are natural numbers.
-- `updateConfig` takes the two rate limits as they come, negative ones too.
pub record Config : Type 0 where
  pub worker_count : ℕ
  pub channel_capacity : ℕ
  pub batch_threshold : ℕ
  pub batch_flush_window_ms : ℕ
  pub rate_limit_rps : ℤ
  pub rate_limit_burst : ℤ

-- Tokens are counted in thousandths: a refill of `elapsed / 1000 * rps` tokens is `elapsed * rps`.
pub record Limiter : Type 0 where
  pub available_tokens : ℤ
  pub last_refill_time : ℕ
  pub rate_limited_requests : ℕ

-- `releases` and `resets` are the timeouts that are still to fire: the `setTimeout(…, 8)` of a
-- worker tick and the `setTimeout(…, 2000)` of a simulated shutdown.
pub record Pool : Type 0 where
  pub queue : List TelemetryEvent
  pub active_workers : ℕ
  pub is_shutting_down : Bool
  pub is_paused : Bool
  pub releases : ℕ
  pub resets : ℕ

-- The duration is in hundredths of a millisecond, as `toFixed(2)` leaves it.
pub record Batch : Type 0 where
  pub batch_buffer : List TelemetryEvent
  pub last_flush_time : ℕ
  pub total_batches_flushed : ℕ
  pub total_events_flushed : ℕ
  pub total_batch_errors : ℕ
  pub last_flush_duration : ℕ
  pub persisted_time_series : List PersistedRecord

-- Latencies are in nanoseconds.
pub record Metrics : Type 0 where
  pub total_accepted : ℕ
  pub total_dropped : ℕ
  pub total_processed : ℕ
  pub latencies : List ℕ
  pub rps_counter : ℕ
  pub eps_counter : ℕ
  pub current_rps : ℕ
  pub current_eps : ℕ
  pub start_time : ℕ

pub record Logs : Type 0 where
  pub recent_logs : List StructuredLog
  pub max_logs : ℕ

pub record LoadTest : Type 0 where
  pub load_test_active : Bool
  pub load_test_timer : Option ℕ
  pub load_test_target_rps : ℕ
  pub load_test_scenario : String

pub record Engine : Type 0 where
  pub config : Config
  pub limiter : Limiter
  pub pool : Pool
  pub batch : Batch
  pub metrics : Metrics
  pub logs : Logs
  pub load : LoadTest

-- What one synchronous call reads: `Date.now()` in milliseconds; the two readings of
-- `performance.now()` in nanoseconds; the texts of `new Date().toISOString()` and of
-- `Math.random().toString(36).substring(…)`, for each event; whether `Math.random() < 0.0001`
-- holds; and `Math.random() * 0.4 + 0.1` milliseconds, in nanoseconds. A shutdown reads
-- `performance.now()` twice more, around the two readings of its flush. Where `a / b` lies halfway
-- between two numbers that `toFixed` can print, `tie_up a b` is whether the double nearest to it is
-- printed as the upper one.
pub record Env : Type 0 where
  pub now : ℕ
  pub perf_start : ℕ
  pub perf_stop : ℕ
  pub log_time : String
  pub iso : ℕ → String
  pub random_text : ℕ → String
  pub write_fails : Bool
  pub sampled_latency : ℕ
  pub shutdown_start : ℕ
  pub shutdown_stop : ℕ
  pub tie_up : ℕ → ℕ → Bool

unfoldable pub default_config : Config
default_config = record {
  worker_count = 32;
  channel_capacity = 50_000;
  batch_threshold = 5000;
  batch_flush_window_ms = 500;
  rate_limit_rps = pos 10_000;
  rate_limit_burst = pos 20_000;
}

-- The fields as the class initialises them, before the constructor's log line.
unfoldable pub initial : ℕ → Engine
unfolding default_config
initial now = record {
  config = default_config;
  limiter = record {
    available_tokens = pos (1000 * 20_000);
    last_refill_time = now;
    rate_limited_requests = 0;
  };
  pool = record {
    queue = [];
    active_workers = 0;
    is_shutting_down = false;
    is_paused = false;
    releases = 0;
    resets = 0;
  };
  batch = record {
    batch_buffer = [];
    last_flush_time = now;
    total_batches_flushed = 0;
    total_events_flushed = 0;
    total_batch_errors = 0;
    last_flush_duration = 0;
    persisted_time_series = [];
  };
  metrics = record {
    total_accepted = 0;
    total_dropped = 0;
    total_processed = 0;
    latencies = [];
    rps_counter = 0;
    eps_counter = 0;
    current_rps = 0;
    current_eps = 0;
    start_time = now;
  };
  logs = record { recent_logs = []; max_logs = 200 };
  load = record {
    load_test_active = false;
    load_test_timer = none;
    load_test_target_rps = 2500;
    load_test_scenario = "steady";
  };
}
