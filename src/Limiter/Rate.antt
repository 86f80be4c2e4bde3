-- ===== src/Limiter/Rate.antt =====
-- A sequence of calls of the token bucket: the bound on what it grants, and when it locks up.
use ingestion_engine.Prelude.{
  ℕ, ◌+◌, ◌*◌, ◌≤◌, ◌≡◌, false, arith, pos, sub_ℕ, ◌+ℤ◌, ◌-ℤ◌, ◌*ℤ◌, ◌≤ℤ◌, +ℤ_parts, -ℤ_parts,
  *ℤ_parts, elapsed_add, elapsed_zero, List, [], ◌∷◌, if◌then◌else◌,
}
use ingestion_engine.State.{Config, Limiter}
use ingestion_engine.Limiter.{refill_tokens, take_tokens, allow_rate_limit}
use ingestion_engine.Limiter.Bucket.{
  InRange, refill_tokens-le_burst, refill_tokens-le_rate, allow_rate_limit-InRange,
}

-- A call: the clock it reads and the tokens it asks for.
abbrev pub Call : Type 0
Call = ℕ × ℕ

module _ (c : Config) where
  -- The tokens granted by the calls in turn, and the bucket that is left.
  pub serve_calls : List Call → Limiter → ℕ × Limiter
  serve_calls [] l = (0, l)
  serve_calls ((now, count) ∷ rest) l =
      let (granted, l1) = allow_rate_limit c now count l in
      let (more, l2) = serve_calls rest l1 in ((if granted then count else 0) + more, l2)

  -- The clock does not step back.
  abbrev pub InOrder : ℕ → List Call → Type 0
  InOrder t [] = Unit {0}
  InOrder t ((now, count) ∷ rest) = (t ≤ now) × InOrder now rest

  pub allow_rate_limit-last :
      (now count : ℕ) (l : Limiter) → (allow_rate_limit c now count l).1.last_refill_time ≡ now
  unfolding allow_rate_limit take_tokens refill_tokens
  allow_rate_limit-last now count l = ground arith

  -- A call pays for what it grants, out of what was there and what the refill added.
  pub allow_rate_limit_pays :
      (now count : ℕ) (l : Limiter)
      → let (granted, l1) = allow_rate_limit c now count l in
        l1.available_tokens +ℤ pos (1000 * (if granted then count else 0))
        ≤ℤ l.available_tokens +ℤ sub_ℕ now l.last_refill_time *ℤ c.rate_limit_rps
  unfolding allow_rate_limit take_tokens
  allow_rate_limit_pays now count l =
      let refilled = (refill_tokens c now l).available_tokens in
      ground (
        arith,
        refill_tokens-le_rate c now l,
        -ℤ_parts refilled (pos (1000 * count)),
        +ℤ_parts refilled (pos (1000 * 0)),
        +ℤ_parts (refilled -ℤ pos (1000 * count)) (pos (1000 * count)),
      )

  -- Whatever the clock does, what is granted and what is left come out of what was there and the
  -- rate times the time that passed.
  pub serve_calls_pays :
      (calls : List Call) (l : Limiter)
      → let (granted, l2) = serve_calls calls l in
        l2.available_tokens +ℤ pos (1000 * granted)
        ≤ℤ l.available_tokens +ℤ sub_ℕ l2.last_refill_time l.last_refill_time *ℤ c.rate_limit_rps
  unfolding serve_calls
  serve_calls_pays [] l = rw (elapsed_zero l.last_refill_time c.rate_limit_rps) (omega arith)
  serve_calls_pays ((now, count) ∷ rest) l =
      let (granted, l1) = allow_rate_limit c now count l in
      let (more, l2) = serve_calls rest l1 in
      let first = if granted then count else 0 in
      let r = c.rate_limit_rps in
      let later : l2.available_tokens +ℤ pos (1000 * more)
          ≤ℤ l1.available_tokens +ℤ sub_ℕ l2.last_refill_time now *ℤ r =
        rw (allow_rate_limit-last now count l) at (serve_calls_pays rest l1) in
      rw (elapsed_add l.last_refill_time now l2.last_refill_time r) (
        omega (
          arith,
          allow_rate_limit_pays now count l,
          later,
          +ℤ_parts l1.available_tokens (pos (1000 * first)),
          +ℤ_parts l2.available_tokens (pos (1000 * more)),
          +ℤ_parts l2.available_tokens (pos (1000 * (first + more))),
          +ℤ_parts l1.available_tokens (sub_ℕ l2.last_refill_time now *ℤ r),
          +ℤ_parts l.available_tokens (sub_ℕ now l.last_refill_time *ℤ r),
          +ℤ_parts (sub_ℕ now l.last_refill_time *ℤ r) (sub_ℕ l2.last_refill_time now *ℤ r),
          +ℤ_parts l.available_tokens
              (sub_ℕ now l.last_refill_time *ℤ r +ℤ sub_ℕ l2.last_refill_time now *ℤ r),
        ))

  serve_calls-InRange :
      (calls : List Call) (l : Limiter)
      → pos 0 ≤ℤ c.rate_limit_rps
      → pos 0 ≤ℤ c.rate_limit_burst
      → InOrder l.last_refill_time calls
      → InRange c l
      → InRange c (serve_calls calls l).1
  unfolding serve_calls
  serve_calls-InRange [] l hr hb o h = h
  serve_calls-InRange ((now, count) ∷ rest) l hr hb (o, os) h =
      serve_calls-InRange rest (allow_rate_limit c now count l).1 hr hb
        (rw (allow_rate_limit-last now count l) os)
        (allow_rate_limit-InRange c now count l hr hb o h)

  -- With rates that are not negative and a clock that does not step back, calls that start at a
  -- bucket in range are together granted at most one burst and the rate times the time that passed
  -- up to the last call (tokens and bound in thousandths).
  pub serve_calls-le_burst :
      (calls : List Call) (l : Limiter)
      → pos 0 ≤ℤ c.rate_limit_rps
      → pos 0 ≤ℤ c.rate_limit_burst
      → InOrder l.last_refill_time calls
      → InRange c l
      → let (granted, l2) = serve_calls calls l in
        pos (1000 * granted)
        ≤ℤ pos 1000 *ℤ c.rate_limit_burst
          +ℤ sub_ℕ l2.last_refill_time l.last_refill_time *ℤ c.rate_limit_rps
  serve_calls-le_burst calls l hr hb o h =
      let (granted, l2) = serve_calls calls l in
      let gained = sub_ℕ l2.last_refill_time l.last_refill_time *ℤ c.rate_limit_rps in
      let after = serve_calls-InRange calls l hr hb o h in
      omega (
        arith,
        serve_calls_pays calls l,
        after.no_debt,
        h.at_most_burst,
        +ℤ_parts l2.available_tokens (pos (1000 * granted)),
        +ℤ_parts l.available_tokens gained,
        +ℤ_parts (pos 1000 *ℤ c.rate_limit_burst) gained,
      )

  -- With a negative burst every call is refused, whatever it asks for.
  pub negative_burst_refuses :
      (now count : ℕ) (l : Limiter)
      → ¬ (pos 0 ≤ℤ c.rate_limit_burst)
      → (allow_rate_limit c now count l).0 ≡ false
  unfolding allow_rate_limit take_tokens
  negative_burst_refuses now count l h =
      ground (arith, refill_tokens-le_burst c now l, *ℤ_parts (pos 1000) c.rate_limit_burst)
