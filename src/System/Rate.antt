-- ===== src/System/Rate.antt =====
-- The rate limit as the whole engine keeps it: each accepted event is paid for by the token bucket.
use ingestion_engine.Prelude.{
  ℕ, ◌*◌, ◌≤◌, refl, ap, subst, ◌∙◌, arith, List, [], ◌∷◌, length, pos, sub_ℕ, ◌+ℤ◌, ◌*ℤ◌, ◌≤ℤ◌,
  +ℤ_parts, -ℤ_parts, elapsed_add, elapsed_zero,
}
use ingestion_engine.Event.{TelemetryEvent}
use ingestion_engine.State.{Config, Limiter, Engine, Env}
use ingestion_engine.Pipeline.{Moves}
use ingestion_engine.Limiter.{refill_tokens, take_tokens, allow_rate_limit}
use ingestion_engine.Limiter.Bucket.{InRange, refill_tokens-no_debt}
use ingestion_engine.Limiter.Rate.{allow_rate_limit-last}
use ingestion_engine.Ingest.{batch_cost, ingest_single, ingest_batch}
use ingestion_engine.Ingest.Single.{ingest_single-Admits}
use ingestion_engine.Ingest.Many.{admitted_batch, ingest_batch-Admits}
use ingestion_engine.LoadTest.Cases.{load_test_tick_elim}
use ingestion_engine.LoadTest.{start_load_test, stop_load_test}
use ingestion_engine.Report.{metrics_tick}
use ingestion_engine.System.{
  Action, single, many, measure, configure, start, stop, shutdown, tick_workers, release_workers,
  tick_batch, tick_metrics, tick_load, end_shutdown as fire_end, step, run,
}
use ingestion_engine.System.Order.{step-Moves}
use ingestion_engine.System.Funds.{
  SameFunds, Pays, keep-Pays, allow-Pays, refill-Pays, single-limiter, single-cost, many-limiter,
  many-cost, worker_tick-SameFunds, batch_tick-SameFunds, shutdown-SameFunds,
  fire_release-SameFunds, fire_reset-SameFunds,
}

-- No new configuration: the rate and the burst stay.
abbrev pub IsFixed : Action → Type 0
IsFixed (configure u) = ⊥
IsFixed _ = Unit {0}

module _ (env : Env) (s : Engine) where
  -- A limiter in range that has not been refilled after the clock of `env`.
  record IsReady : Type 0 where
    rate : pos 0 ≤ℤ s.config.rate_limit_rps
    burst : pos 0 ≤ℤ s.config.rate_limit_burst
    no_debt : pos 0 ≤ℤ s.limiter.available_tokens
    clock : s.limiter.last_refill_time ≤ env.now

  granted-no_debt :
      (count : ℕ)
      → IsReady
      → pos 0 ≤ℤ (allow_rate_limit s.config env.now count s.limiter).1.available_tokens
  unfolding allow_rate_limit take_tokens
  granted-no_debt count h = ground (
    arith,
    refill_tokens-no_debt s.config env.now s.limiter h.rate h.burst h.clock h.no_debt,
    -ℤ_parts (refill_tokens s.config env.now s.limiter).available_tokens (pos (1000 * count)),
  )

  many-Pays : (evs : List TelemetryEvent) → IsReady → Pays env.now s (ingest_batch env evs s).1
  many-Pays evs h =
      let admits = ingest_batch-Admits env evs s in
      let (tokens, time) = many-limiter env s evs in
      allow-Pays env s (batch_cost (length evs)) (length (admitted_batch env evs s)) _ admits.config
        tokens (time ∙ allow_rate_limit-last s.config env.now (batch_cost (length evs)) s.limiter)
        admits.accepted (many-cost env s evs) (granted-no_debt (batch_cost (length evs)) h)

  single-Pays : (ev : TelemetryEvent) → IsReady → Pays env.now s (ingest_single env ev s).1
  single-Pays ev h =
      let admits = ingest_single-Admits env ev s in
      let same = single-limiter env s ev in
      allow-Pays env s 1 _ _ admits.config (ap (λ (l : Limiter). l.available_tokens) same)
        (ap (λ (l : Limiter). l.last_refill_time) same
          ∙ allow_rate_limit-last s.config env.now 1 s.limiter)
        admits.accepted (single-cost env s ev) (granted-no_debt 1 h)

  same-Pays : (t : Engine) → SameFunds s t → Moves s [] t → IsReady → Pays env.now s t
  same-Pays t same m h =
      keep-Pays env.now s t same (omega (arith, m.accepted_count)) h.no_debt h.clock

  step-Pays : (a : Action) → IsFixed a → IsReady → Pays env.now s (step env a s)
  unfolding step start_load_test stop_load_test metrics_tick
  step-Pays (single ev) f h = single-Pays ev h
  step-Pays (many evs) f h = many-Pays evs h
  step-Pays measure f h = refill-Pays env s h.rate h.burst h.no_debt h.clock
  step-Pays (configure u) f h = absurd f
  step-Pays (start rps scenario) f h = keep-Pays env.now s _ (refl, refl) refl h.no_debt h.clock
  step-Pays stop f h = keep-Pays env.now s _ (refl, refl) refl h.no_debt h.clock
  step-Pays shutdown f h = same-Pays _ (shutdown-SameFunds env s) (step-Moves env shutdown s) h
  step-Pays tick_workers f h =
      same-Pays _ (worker_tick-SameFunds env s) (step-Moves env tick_workers s) h
  step-Pays release_workers f h =
      same-Pays _ (fire_release-SameFunds s.pool.releases s) (step-Moves env release_workers s) h
  step-Pays (tick_batch tested) f h =
      same-Pays _ (batch_tick-SameFunds tested env s) (step-Moves env (tick_batch tested) s) h
  step-Pays tick_metrics f h = keep-Pays env.now s _ (refl, refl) refl h.no_debt h.clock
  step-Pays (tick_load draws wave) f h =
      load_test_tick_elim (Pays env.now s) env draws wave s
        (keep-Pays env.now s s (refl, refl) refl h.no_debt h.clock) (λ evs. many-Pays evs h)
  step-Pays fire_end f h =
      same-Pays _ (fire_reset-SameFunds s.pool.resets s) (step-Moves env fire_end s) h

-- The clock does not step back, and the settings stay.
abbrev pub IsSteady : ℕ → List (Env × Action) → Type 0
IsSteady last [] = Unit {0}
IsSteady last ((env, a) ∷ rest) = (last ≤ env.now) × (IsFixed a × IsSteady env.now rest)

run-Pays :
    (actions : List (Env × Action)) (now : ℕ) (s : Engine)
    → pos 0 ≤ℤ s.config.rate_limit_rps
    → pos 0 ≤ℤ s.config.rate_limit_burst
    → pos 0 ≤ℤ s.limiter.available_tokens
    → s.limiter.last_refill_time ≤ now
    → IsSteady now actions
    → let t = run actions s in
      (pos 0 ≤ℤ t.limiter.available_tokens)
      × (t.limiter.available_tokens +ℤ pos (20 * t.metrics.total_accepted)
          ≤ℤ s.limiter.available_tokens
            +ℤ pos (20 * s.metrics.total_accepted)
            +ℤ sub_ℕ t.limiter.last_refill_time s.limiter.last_refill_time
              *ℤ s.config.rate_limit_rps)
unfolding run
run-Pays [] now s hr hb d k o =
    let funds = s.limiter.available_tokens +ℤ pos (20 * s.metrics.total_accepted) in
    (
      d,
      rw (elapsed_zero s.limiter.last_refill_time s.config.rate_limit_rps)
          (omega (arith, +ℤ_parts funds (pos 0))),
    )
run-Pays ((env, a) ∷ rest) now s hr hb d k (ahead, (fixed, os)) =
    let t = step env a s in
    let u = run rest t in
    let r = s.config.rate_limit_rps in
    let p =
      step-Pays env s a fixed
        (record { rate = hr; burst = hb; no_debt = d; clock = omega arith }) in
    let (solvent, later) =
      run-Pays rest env.now t (rw p.config hr) (rw p.config hb) p.no_debt p.clock os in
    let first = sub_ℕ t.limiter.last_refill_time s.limiter.last_refill_time *ℤ r in
    let second = sub_ℕ u.limiter.last_refill_time t.limiter.last_refill_time *ℤ r in
    let from_s = s.limiter.available_tokens +ℤ pos (20 * s.metrics.total_accepted) in
    let from_t = t.limiter.available_tokens +ℤ pos (20 * t.metrics.total_accepted) in
    let from_u = u.limiter.available_tokens +ℤ pos (20 * u.metrics.total_accepted) in
    let rest_paid : from_u ≤ℤ from_t +ℤ second =
      subst
        (λ (c : Config).
          from_u
          ≤ℤ from_t
            +ℤ sub_ℕ u.limiter.last_refill_time t.limiter.last_refill_time *ℤ c.rate_limit_rps)
        p.config later in
    let paid : from_u ≤ℤ from_s +ℤ (first +ℤ second) = omega (
      arith,
      p.spent,
      rest_paid,
      +ℤ_parts from_t second,
      +ℤ_parts from_s first,
      +ℤ_parts first second,
      +ℤ_parts from_s (first +ℤ second),
    ) in
    (
      solvent,
      rw
          (elapsed_add s.limiter.last_refill_time t.limiter.last_refill_time
            u.limiter.last_refill_time r)
          paid,
    )

-- From an engine whose rate and burst are not negative and whose bucket is in range, while the clock
-- does not step back and no configuration comes, the events accepted in any history are at most 50
-- for each token of one burst and of the rate times the time that passed up to the last refill (here
-- in thousandths of a token, of which an event costs 20).
pub run_rate :
    (actions : List (Env × Action)) (s : Engine)
    → pos 0 ≤ℤ s.config.rate_limit_rps
    → pos 0 ≤ℤ s.config.rate_limit_burst
    → InRange s.config s.limiter
    → IsSteady s.limiter.last_refill_time actions
    → let t = run actions s in
      pos (20 * t.metrics.total_accepted)
      ≤ℤ pos (20 * s.metrics.total_accepted)
        +ℤ (pos 1000 *ℤ s.config.rate_limit_burst
            +ℤ sub_ℕ t.limiter.last_refill_time s.limiter.last_refill_time
              *ℤ s.config.rate_limit_rps)
run_rate actions s hr hb h o =
    let t = run actions s in
    let gained =
      sub_ℕ t.limiter.last_refill_time s.limiter.last_refill_time *ℤ s.config.rate_limit_rps in
    let (solvent, paid) =
      run-Pays actions s.limiter.last_refill_time s hr hb h.no_debt (omega arith) o in
    omega (
      arith,
      solvent,
      paid,
      h.at_most_burst,
      +ℤ_parts t.limiter.available_tokens (pos (20 * t.metrics.total_accepted)),
      +ℤ_parts s.limiter.available_tokens (pos (20 * s.metrics.total_accepted)),
      +ℤ_parts (s.limiter.available_tokens +ℤ pos (20 * s.metrics.total_accepted)) gained,
      +ℤ_parts (pos 1000 *ℤ s.config.rate_limit_burst) gained,
      +ℤ_parts (pos (20 * s.metrics.total_accepted))
          (pos 1000 *ℤ s.config.rate_limit_burst +ℤ gained),
    )
