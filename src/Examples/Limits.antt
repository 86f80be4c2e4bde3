-- ===== src/Examples/Limits.antt =====
-- The theorems on the limiter, the log, the sample of latencies and the settings, at concrete data.
use ingestion_engine.Prelude.{
  ℕ, ◌≡◌, ◌≤◌, ◌<◌, ◌+◌, ◌*◌, refl, arith, true, false, ◌↔◌, ◌⊎◌, none, some, List, [], ◌∷◌,
  if◌then◌else◌, take, pos, negsuc, sub_ℕ, ◌+ℤ◌, ◌≤ℤ◌,
}
use ingestion_engine.Prelude.Int.{◌*ℤ◌}
use ingestion_engine.Event.{info}
use ingestion_engine.State.{Config, Limiter, Logs, default_config}
use ingestion_engine.Logs.{add_log}
use ingestion_engine.Logs.Cap.{log_line, add_log-take}
use ingestion_engine.Limiter.{allow_rate_limit}
use ingestion_engine.Limiter.Bucket.{InRange, allow_rate_limit-InRange, allow_rate_limit_effect}
use ingestion_engine.Limiter.Rate.{serve_calls, serve_calls-le_burst, negative_burst_refuses}
use ingestion_engine.Latency.{at_rank, sort}
use ingestion_engine.Latency.Sorting.{count_le, count_ge}
use ingestion_engine.Latency.Ranks.{at_rank_counts}
use ingestion_engine.Tuning.{ConfigUpdate}
use ingestion_engine.LoadTest.{Draw, load_test_tick, start_load_test, stop_load_test}
use ingestion_engine.LoadTest.Dos.{dos_granted}
use ingestion_engine.Examples.Data.{env, at_time, small, small_config}

-- Three tokens, at time 1000.
abbrev bucket : Limiter
bucket = record { available_tokens = pos 3000; last_refill_time = 1000; rate_limited_requests = 4 }

allow_rate_limit-InRange_example :
    InRange small_config (allow_rate_limit small_config 1200 4 bucket).1
unfolding ◌*ℤ◌
allow_rate_limit-InRange_example =
    allow_rate_limit-InRange small_config 1200 4 bucket (omega arith) (omega arith) (omega arith)
      (record { at_most_burst = omega arith; no_debt = omega arith })

allow_rate_limit_effect_example :
    let (granted, m) = allow_rate_limit small_config 1200 4 bucket in
    let burst = pos 1000 *ℤ pos 5 in
    let gained = pos 3000 +ℤ sub_ℕ 1200 1000 *ℤ pos 10 in
    let cost = pos 4000 in
    let left = m.available_tokens +ℤ (if granted then cost else pos 0) in
    ((granted ≡ true) ↔ ((cost ≤ℤ burst) × (cost ≤ℤ gained)))
    × ((left ≤ℤ burst) × (left ≤ℤ gained))
    × ((left ≡ burst) ⊎ (left ≡ gained))
    × (m.rate_limited_requests ≡ 4 + (if granted then 0 else 1))
    × (m.last_refill_time ≡ 1200)
allow_rate_limit_effect_example = allow_rate_limit_effect small_config 1200 4 bucket

abbrev calls : List (ℕ × ℕ)
calls = (1000, 2) ∷ (1100, 3) ∷ (1500, 4) ∷ []

serve_calls-le_burst_example :
    let (granted, l) = serve_calls small_config calls bucket in
    pos (1000 * granted) ≤ℤ pos 1000 *ℤ pos 5 +ℤ sub_ℕ l.last_refill_time 1000 *ℤ pos 10
unfolding ◌*ℤ◌
serve_calls-le_burst_example =
    serve_calls-le_burst small_config calls bucket (omega arith) (omega arith)
      (omega arith, (omega arith, (omega arith, tt)))
      (record { at_most_burst = omega arith; no_debt = omega arith })

abbrev negative : Config
negative = record small_config { rate_limit_burst = negsuc 0 }

negative_burst_refuses_example : (allow_rate_limit negative 2000 1 bucket).0 ≡ false
negative_burst_refuses_example = negative_burst_refuses negative 2000 1 bucket (omega arith)

abbrev full_log : Logs
full_log = record {
  recent_logs = log_line "2" info "b" "x" [] ∷ log_line "1" info "a" "x" [] ∷ [];
  max_logs = 2;
}

add_log-take_example :
    (add_log "3" info "c" "x" [] full_log).recent_logs
    ≡ take 2 (log_line "3" info "c" "x" [] ∷ full_log.recent_logs)
add_log-take_example = add_log-take "3" info "c" "x" [] full_log (omega arith)

abbrev samples : List ℕ
samples = 900 ∷ 100 ∷ 500 ∷ 300 ∷ []

at_rank_counts_example :
    let v = at_rank 50 (sort samples) in (2 < count_le v samples) × (4 ≤ 2 + count_ge v samples)
at_rank_counts_example = at_rank_counts 50 samples (omega arith) (omega arith)

-- One worker, and a burst of 2 tokens.
abbrev update : ConfigUpdate
update = record {
  worker_count = some (pos 1);
  channel_capacity = none;
  batch_threshold = some (pos 0);
  batch_flush_window_ms = none;
  rate_limit_rps = none;
  rate_limit_burst = some (pos 2);
}

abbrev draw : ℕ → Draw
draw i = record {
  random_text = "q1";
  service = 0;
  host_name = "node-1.prod";
  level = 2;
  iso = "2024-01-01T00:00:00.000Z";
  payload = "{}";
}

dos_granted_example :
    let s = start_load_test env 22_000 "dos_attack" (record small { config = default_config }) in
    (load_test_tick (at_time 1025) draw (pos 0) s).limiter.rate_limited_requests ≡ 0
unfolding start_load_test stop_load_test default_config
dos_granted_example =
    dos_granted (at_time 1025) draw (pos 0)
      (start_load_test env 22_000 "dos_attack" (record small { config = default_config })) 22_000
      (omega arith) refl refl refl (omega arith) (omega arith) (omega arith) (omega arith)
