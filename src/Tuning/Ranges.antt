-- ===== src/Tuning/Ranges.antt =====
-- The ranges that the settings keep.
use ingestion_engine.Prelude.{
  ℕ, zero, suc, ◌≤◌, arith, Option, none, some, ℤ, pos, negsuc, ◌≤ℤ◌, ◌*ℤ◌,
}
use ingestion_engine.State.{Config, Engine, Env}
use ingestion_engine.Tuning.{
  ConfigUpdate, set_clamped, set_limit, new_config, cap_tokens, update_config,
}

pub record IsTuned (c : Config) : Type 0 where
  pub workers : (2 ≤ c.worker_count) × (c.worker_count ≤ 256)
  pub capacity : (500 ≤ c.channel_capacity) × (c.channel_capacity ≤ 500_000)
  pub threshold : (100 ≤ c.batch_threshold) × (c.batch_threshold ≤ 50_000)
  pub window : (20 ≤ c.batch_flush_window_ms) × (c.batch_flush_window_ms ≤ 5000)

set_clamped_range :
    (lo hi : ℕ) (x : Option ℤ) (old : ℕ)
    → lo ≤ hi
    → (lo ≤ old) × (old ≤ hi)
    → (lo ≤ set_clamped lo hi x old) × (set_clamped lo hi x old ≤ hi)
unfolding set_clamped
set_clamped_range lo hi none old h k = k
set_clamped_range lo hi (some (pos zero)) old h k = k
set_clamped_range lo hi (some (pos (suc n))) old h k = omega arith
set_clamped_range lo hi (some (negsuc n)) old h k = omega arith

-- Whatever a request asks for, the four sizes stay in their ranges, if they were there before.
pub new_config-IsTuned : (u : ConfigUpdate) (c : Config) → IsTuned c → IsTuned (new_config u c)
unfolding new_config
new_config-IsTuned u c h = record {
  workers = set_clamped_range 2 256 u.worker_count c.worker_count (omega arith) h.workers;
  capacity =
      set_clamped_range 500 500_000 u.channel_capacity c.channel_capacity (omega arith) h.capacity;
  threshold =
      set_clamped_range 100 50_000 u.batch_threshold c.batch_threshold (omega arith) h.threshold;
  window =
      set_clamped_range 20 5000 u.batch_flush_window_ms c.batch_flush_window_ms (omega arith)
        h.window;
}

-- The tokens at hand are within the new burst, if they were within the old one.
pub update_config-le_burst :
    (env : Env) (u : ConfigUpdate) (s : Engine)
    → s.limiter.available_tokens ≤ℤ pos 1000 *ℤ s.config.rate_limit_burst
    → let t = update_config env u s in
      t.limiter.available_tokens ≤ℤ pos 1000 *ℤ t.config.rate_limit_burst
unfolding update_config cap_tokens
update_config-le_burst env u s h = go u.rate_limit_burst
  where
    go :
        (x : Option ℤ)
        → cap_tokens x s.limiter.available_tokens
          ≤ℤ pos 1000 *ℤ set_limit x s.config.rate_limit_burst
    go none = h
    go (some (pos zero)) = h
    go (some (pos (suc n))) = ground arith
    go (some (negsuc n)) = ground arith
