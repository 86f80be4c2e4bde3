-- ===== src/Tuning.antt =====
-- `updateConfig` of server.ts. A setting that is missing or 0 is left alone. The numbers of a request
-- are integers.
use ingestion_engine.Prelude.{
  ℕ, zero, suc, ◌+◌, ◌*◌, min, max, Option, none, some, List, [], ◌∷◌, ◌++◌, String, ℤ, pos, negsuc,
  ◌*ℤ◌, min_ℤ,
}
use ingestion_engine.Event.{info, FieldValue, number, Fields}
use ingestion_engine.State.{Config, Limiter, Engine, Env}
use ingestion_engine.Logs.{add_log}
pub mod Ranges

pub record ConfigUpdate : Type 0 where
  pub worker_count : Option ℤ
  pub channel_capacity : Option ℤ
  pub batch_threshold : Option ℤ
  pub batch_flush_window_ms : Option ℤ
  pub rate_limit_rps : Option ℤ
  pub rate_limit_burst : Option ℤ

-- `Math.max(lo, Math.min(hi, x))`
unfoldable pub clamp : ℕ → ℕ → ℤ → ℕ
clamp lo hi (pos n) = max lo (min hi n)
clamp lo hi (negsuc n) = lo

-- `if (x) old = clamp(x)`
unfoldable pub set_clamped : ℕ → ℕ → Option ℤ → ℕ → ℕ
unfolding clamp
set_clamped lo hi none old = old
set_clamped lo hi (some (pos zero)) old = old
set_clamped lo hi (some (pos (suc n))) old = clamp lo hi (pos (suc n))
set_clamped lo hi (some (negsuc n)) old = clamp lo hi (negsuc n)

-- `if (x) old = x`
unfoldable pub set_limit : Option ℤ → ℤ → ℤ
set_limit none old = old
set_limit (some (pos zero)) old = old
set_limit (some (pos (suc n))) old = pos (suc n)
set_limit (some (negsuc n)) old = negsuc n

unfoldable pub new_config : ConfigUpdate → Config → Config
unfolding set_clamped set_limit
new_config u c = record {
  worker_count = set_clamped 2 256 u.worker_count c.worker_count;
  channel_capacity = set_clamped 500 500_000 u.channel_capacity c.channel_capacity;
  batch_threshold = set_clamped 100 50_000 u.batch_threshold c.batch_threshold;
  batch_flush_window_ms = set_clamped 20 5000 u.batch_flush_window_ms c.batch_flush_window_ms;
  rate_limit_rps = set_limit u.rate_limit_rps c.rate_limit_rps;
  rate_limit_burst = set_limit u.rate_limit_burst c.rate_limit_burst;
}

-- A new burst caps the tokens at hand.
unfoldable pub cap_tokens : Option ℤ → ℤ → ℤ
cap_tokens none tokens = tokens
cap_tokens (some (pos zero)) tokens = tokens
cap_tokens (some (pos (suc n))) tokens = min_ℤ tokens (pos 1000 *ℤ pos (suc n))
cap_tokens (some (negsuc n)) tokens = min_ℤ tokens (pos 1000 *ℤ negsuc n)

-- The fields of the log line: those that the request has.
unfoldable pub setting : String → Option ℤ → Fields
setting name none = []
setting name (some x) = (name, number x) ∷ []

unfoldable pub settings : ConfigUpdate → Fields
unfolding setting
settings u =
    setting "workerCount" u.worker_count
    ++ (setting "channelCapacity" u.channel_capacity
        ++ (setting "batchThreshold" u.batch_threshold
            ++ (setting "batchFlushWindowMs" u.batch_flush_window_ms
                ++ (setting "rateLimitRps" u.rate_limit_rps
                    ++ setting "rateLimitBurst" u.rate_limit_burst))))

unfoldable pub update_config : Env → ConfigUpdate → Engine → Engine
unfolding new_config
update_config env u s = record s {
  config = new_config u s.config;
  limiter = record s.limiter {
    available_tokens = cap_tokens u.rate_limit_burst s.limiter.available_tokens;
  };
  logs =
      add_log env.log_time info "Engine configuration dynamically reloaded" "config.Update"
        (settings u) s.logs;
}
