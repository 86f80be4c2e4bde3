-- ===== src/Limiter/Bucket.antt =====
-- One call of the token bucket: what it grants, what it charges, and the range of the bucket.
use std.Logic.{↔_trans}
use ingestion_engine.Prelude.{
  ℕ, ◌*◌, ◌≤◌, ◌≡◌, ◌↔◌, true, if◌then◌else◌, ◌+◌, ◌⊎◌, arith, pos, sub_ℕ, ◌+ℤ◌, ◌*ℤ◌, ◌≤ℤ◌,
  +ℤ_nonneg, *ℤ_nonneg, -ℤ_parts, +ℤ_parts, eq_of_parts, ℤ, ◌-ℤ◌, min_ℤ,
}
use ingestion_engine.State.{Config, Limiter}
use ingestion_engine.Limiter.{refill_tokens, take_tokens, allow_rate_limit}

min_lower : (b g : ℤ) → (min_ℤ b g ≤ℤ b) × (min_ℤ b g ≤ℤ g)
min_lower b g = ground arith

min_either : (b g : ℤ) → (min_ℤ b g ≡ b) ⊎ (min_ℤ b g ≡ g)
min_either b g = ground arith

le_min_iff : (x b g : ℤ) → (x ≤ℤ min_ℤ b g) ↔ ((x ≤ℤ b) × (x ≤ℤ g))
le_min_iff x b g = ground arith

put_back : (x : ℤ) (n : ℕ) → (x -ℤ pos n) +ℤ pos n ≡ x
put_back x n = eq_of_parts _ _ (omega (arith, +ℤ_parts (x -ℤ pos n) (pos n), -ℤ_parts x (pos n)))

put_nothing : (x : ℤ) → x +ℤ pos 0 ≡ x
put_nothing x = eq_of_parts _ _ (omega (arith, +ℤ_parts x (pos 0)))

-- What is left and what was charged make up the tokens there were.
take_tokens_effect :
    (count : ℕ) (l : Limiter)
    → let (granted, m) = take_tokens count l in
      (m.available_tokens +ℤ (if granted then pos (1000 * count) else pos 0) ≡ l.available_tokens)
      × (m.rate_limited_requests ≡ l.rate_limited_requests + (if granted then 0 else 1))
      × (m.last_refill_time ≡ l.last_refill_time)
unfolding take_tokens
take_tokens_effect count l =
    ground (arith, put_back l.available_tokens (1000 * count), put_nothing l.available_tokens)

module _ (c : Config) where
  -- The bucket holds at most the burst, and is never in debt.
  pub record InRange (l : Limiter) : Type 0 where
    pub at_most_burst : l.available_tokens ≤ℤ pos 1000 *ℤ c.rate_limit_burst
    pub no_debt : pos 0 ≤ℤ l.available_tokens

  pub refill_tokens-le_burst :
      (now : ℕ) (l : Limiter)
      → (refill_tokens c now l).available_tokens ≤ℤ pos 1000 *ℤ c.rate_limit_burst
  unfolding refill_tokens
  refill_tokens-le_burst now l = ground arith

  -- A refill adds no more than the rate times the elapsed time.
  pub refill_tokens-le_rate :
      (now : ℕ) (l : Limiter)
      → (refill_tokens c now l).available_tokens
        ≤ℤ l.available_tokens +ℤ sub_ℕ now l.last_refill_time *ℤ c.rate_limit_rps
  unfolding refill_tokens
  refill_tokens-le_rate now l = ground arith

  pub refill_tokens-no_debt :
      (now : ℕ) (l : Limiter)
      → pos 0 ≤ℤ c.rate_limit_rps
      → pos 0 ≤ℤ c.rate_limit_burst
      → l.last_refill_time ≤ now
      → pos 0 ≤ℤ l.available_tokens
      → pos 0 ≤ℤ (refill_tokens c now l).available_tokens
  unfolding refill_tokens
  refill_tokens-no_debt now l hr hb ht h =
      let gained = sub_ℕ now l.last_refill_time *ℤ c.rate_limit_rps in
      ground (
        arith,
        *ℤ_nonneg (pos 1000) c.rate_limit_burst,
        *ℤ_nonneg (sub_ℕ now l.last_refill_time) c.rate_limit_rps,
        +ℤ_nonneg l.available_tokens gained,
      )

  -- A call at a clock that has not stepped back leaves a bucket in range, if it was in range and
  -- neither the rate nor the burst is negative.
  pub allow_rate_limit-InRange :
      (now count : ℕ) (l : Limiter)
      → pos 0 ≤ℤ c.rate_limit_rps
      → pos 0 ≤ℤ c.rate_limit_burst
      → l.last_refill_time ≤ now
      → InRange l
      → InRange (allow_rate_limit c now count l).1
  unfolding allow_rate_limit take_tokens
  allow_rate_limit-InRange now count l hr hb ht h = ground (
    arith,
    refill_tokens-le_burst now l,
    refill_tokens-no_debt now l,
    -ℤ_parts (refill_tokens c now l).available_tokens (pos (1000 * count)),
  )

  -- A call is granted exactly when the refilled bucket holds `count` tokens.
  pub allow_rate_limit_iff :
      (now count : ℕ) (l : Limiter)
      → ((allow_rate_limit c now count l).0 ≡ true)
        ↔ (pos (1000 * count) ≤ℤ (refill_tokens c now l).available_tokens)
  unfolding allow_rate_limit take_tokens
  allow_rate_limit_iff now count l = ground arith

  -- A call is granted exactly when `count` is within the burst and within the tokens at hand and those
  -- gained since the last refill. It then leaves the lesser of the two, less `count` tokens; else it
  -- leaves the lesser of the two and counts one refusal more. The bucket has the clock's time.
  pub allow_rate_limit_effect :
      (now count : ℕ) (l : Limiter)
      → let (granted, m) = allow_rate_limit c now count l in
        let burst = pos 1000 *ℤ c.rate_limit_burst in
        let gained = l.available_tokens +ℤ sub_ℕ now l.last_refill_time *ℤ c.rate_limit_rps in
        let cost = pos (1000 * count) in
        let left = m.available_tokens +ℤ (if granted then cost else pos 0) in
        ((granted ≡ true) ↔ ((cost ≤ℤ burst) × (cost ≤ℤ gained)))
        × ((left ≤ℤ burst) × (left ≤ℤ gained))
        × ((left ≡ burst) ⊎ (left ≡ gained))
        × (m.rate_limited_requests ≡ l.rate_limited_requests + (if granted then 0 else 1))
        × (m.last_refill_time ≡ now)
  unfolding allow_rate_limit refill_tokens
  allow_rate_limit_effect now count l =
      let burst = pos 1000 *ℤ c.rate_limit_burst in
      let gained = l.available_tokens +ℤ sub_ℕ now l.last_refill_time *ℤ c.rate_limit_rps in
      let (kept, refused, time) = take_tokens_effect count (refill_tokens c now l) in
      (
        ↔_trans (allow_rate_limit_iff now count l) (le_min_iff (pos (1000 * count)) burst gained),
        rw kept (min_lower burst gained),
        rw kept (min_either burst gained),
        refused,
        time,
      )

  -- Whatever is asked, the bucket ends within the burst.
  pub allow_rate_limit-le_burst :
      (now count : ℕ) (l : Limiter)
      → (allow_rate_limit c now count l).1.available_tokens ≤ℤ pos 1000 *ℤ c.rate_limit_burst
  unfolding allow_rate_limit take_tokens
  allow_rate_limit-le_burst now count l = ground (
    arith,
    refill_tokens-le_burst now l,
    -ℤ_parts (refill_tokens c now l).available_tokens (pos (1000 * count)),
  )
