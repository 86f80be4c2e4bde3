-- ===== src/Limiter.antt =====
-- The token bucket of server.ts: `refillTokens` and `allowRateLimit`. Tokens are in thousandths.
use ingestion_engine.Prelude.{
  ℕ, ◌+◌, ◌*◌, Bool, true, false, if◌then◌else◌, List, [], ◌∷◌, ℤ, pos, sub_ℕ, ◌+ℤ◌, ◌-ℤ◌, ◌*ℤ◌,
  leb_ℤ, min_ℤ,
}
use ingestion_engine.State.{Config, Limiter}
pub mod Bucket
pub mod Rate

-- The clock may have stepped back, so the elapsed time is an integer.
unfoldable pub refill_tokens : Config → ℕ → Limiter → Limiter
refill_tokens c now l = record l {
  last_refill_time = now;
  available_tokens =
      min_ℤ (pos 1000 *ℤ c.rate_limit_burst)
        (l.available_tokens +ℤ sub_ℕ now l.last_refill_time *ℤ c.rate_limit_rps);
}

-- What `allowRateLimit` does after the refill.
unfoldable pub take_tokens : ℕ → Limiter → Bool × Limiter
take_tokens count l =
    if leb_ℤ (pos (1000 * count)) l.available_tokens
    then (true, record l { available_tokens = l.available_tokens -ℤ pos (1000 * count) })
    else (false, record l { rate_limited_requests = l.rate_limited_requests + 1 })

unfoldable pub allow_rate_limit : Config → ℕ → ℕ → Limiter → Bool × Limiter
allow_rate_limit c now count l = take_tokens count (refill_tokens c now l)
