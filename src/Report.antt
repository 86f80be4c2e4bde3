-- ===== src/Report.antt =====
-- `getMetrics` of server.ts and the interval of `startMetricsTicker`. The report is `EngineMetrics` of
-- src/types.ts. A number that the code rounds by `toFixed(k)` is a whole number of its last digit.
use ingestion_engine.Prelude.{
  ℕ, zero, suc, ◌+◌, ◌-◌, ◌*◌, ◌/◌, ◌==◌, ◌&&◌, not, if◌then◌else◌, String, Bool, Option, none,
  some, length, ℤ, pos, negsuc, sub_ℕ, ◌+ℤ◌, floor_div,
}
use ingestion_engine.State.{Engine, Env}
use ingestion_engine.Limiter.{refill_tokens}
use ingestion_engine.Latency.{get_percentiles}

-- The whole number nearest to `a / b`; a tie goes up or down by the double that stands for it.
unfoldable pub round_div : (ℕ → ℕ → Bool) → ℕ → ℕ → ℕ
round_div tie_up a b =
    let q = (2 * a + b) / (2 * b) in
    if 2 * a + b == q * (2 * b) && not (tie_up a b) then q - 1 else q

-- The same for integers, by their amounts; there is no value at a divisor 0.
unfoldable pub round_div_ℤ : (ℕ → ℕ → Bool) → ℤ → ℤ → Option ℤ
unfolding round_div
round_div_ℤ tie a (pos zero) = none
round_div_ℤ tie (pos a) (pos (suc b)) = some (pos (round_div tie a (suc b)))
round_div_ℤ tie (pos a) (negsuc b) = some (sub_ℕ 0 (round_div tie a (suc b)))
round_div_ℤ tie (negsuc a) (pos (suc b)) = some (sub_ℕ 0 (round_div tie (suc a) (suc b)))
round_div_ℤ tie (negsuc a) (negsuc b) = some (pos (round_div tie (suc a) (suc b)))

-- Percentages of the queue and the tokens are in hundredths and tenths of a percent, that of the
-- workers in tenths; durations are in hundredths of a millisecond, percentiles in microseconds.
pub record EngineMetrics : Type 0 where
  pub current_rps : ℕ
  pub current_eps : ℕ
  pub queue_length : ℕ
  pub queue_capacity : ℕ
  pub queue_saturation_pct : ℕ
  pub active_workers : ℕ
  pub total_workers : ℕ
  pub worker_utilization_pct : ℕ
  pub batch_buffer_length : ℕ
  pub batch_threshold : ℕ
  pub batch_flush_window_ms : ℕ
  pub total_batches_flushed : ℕ
  pub total_events_flushed : ℕ
  pub last_flush_duration : ℕ
  pub total_accepted : ℕ
  pub total_dropped : ℕ
  pub total_processed : ℕ
  pub rate_limited_requests : ℕ
  pub available_tokens : ℤ
  pub rate_limit_burst : ℤ
  pub rate_limit_rps : ℤ
  pub token_saturation_pct : Option ℤ
  pub latency_p50 : ℕ
  pub latency_p95 : ℕ
  pub latency_p99 : ℕ
  pub uptime_sec : ℤ
  pub load_test_active : Bool
  pub load_test_target_rps : ℕ
  pub load_test_scenario : String
  pub is_shutting_down : Bool

-- `parseFloat(((queue.length / channelCapacity) * 100).toFixed(2))`, in hundredths
unfoldable pub queue_saturation : Env → Engine → ℕ
unfolding round_div
queue_saturation env s =
    round_div env.tie_up (length s.pool.queue * 10_000) s.config.channel_capacity

-- The report on an engine whose tokens are refilled.
unfoldable pub report : Env → Engine → EngineMetrics
unfolding queue_saturation round_div round_div_ℤ
report env s = record {
  current_rps = s.metrics.current_rps;
  current_eps = s.metrics.current_eps;
  queue_length = length s.pool.queue;
  queue_capacity = s.config.channel_capacity;
  queue_saturation_pct = queue_saturation env s;
  active_workers = s.pool.active_workers;
  total_workers = s.config.worker_count;
  worker_utilization_pct =
      round_div env.tie_up (s.pool.active_workers * 1000) s.config.worker_count;
  batch_buffer_length = length s.batch.batch_buffer;
  batch_threshold = s.config.batch_threshold;
  batch_flush_window_ms = s.config.batch_flush_window_ms;
  total_batches_flushed = s.batch.total_batches_flushed;
  total_events_flushed = s.batch.total_events_flushed;
  last_flush_duration = s.batch.last_flush_duration;
  total_accepted = s.metrics.total_accepted;
  total_dropped = s.metrics.total_dropped;
  total_processed = s.metrics.total_processed;
  rate_limited_requests = s.limiter.rate_limited_requests;
  available_tokens = floor_div (s.limiter.available_tokens +ℤ pos 500) 1000;
  rate_limit_burst = s.config.rate_limit_burst;
  rate_limit_rps = s.config.rate_limit_rps;
  token_saturation_pct =
      round_div_ℤ env.tie_up s.limiter.available_tokens s.config.rate_limit_burst;
  latency_p50 = (get_percentiles s.metrics.latencies).p50;
  latency_p95 = (get_percentiles s.metrics.latencies).p95;
  latency_p99 = (get_percentiles s.metrics.latencies).p99;
  uptime_sec = floor_div (sub_ℕ env.now s.metrics.start_time) 1000;
  load_test_active = s.load.load_test_active;
  load_test_target_rps = s.load.load_test_target_rps;
  load_test_scenario = s.load.load_test_scenario;
  is_shutting_down = s.pool.is_shutting_down;
}

unfoldable pub get_metrics : Env → Engine → EngineMetrics × Engine
get_metrics env s =
    let refilled = record s { limiter = refill_tokens s.config env.now s.limiter } in
    (report env refilled, refilled)

-- Once a second the counters become the current rates.
unfoldable pub metrics_tick : Engine → Engine
metrics_tick s = record s {
  metrics = record s.metrics {
    current_rps = s.metrics.rps_counter;
    current_eps = s.metrics.eps_counter;
    rps_counter = 0;
    eps_counter = 0;
  };
}
