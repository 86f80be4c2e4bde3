-- ===== src/System/Funds.antt =====
-- What single steps of the engine pay to the token bucket for the events that they accept.
use ingestion_engine.Prelude.{
  ℕ, suc, zero, ◌+◌, ◌-◌, ◌*◌, ◌≤◌, ◌≡◌, refl, arith, List, length, Bool, true, false,
  if◌then◌else◌, length-take, pos, sub_ℕ, ◌+ℤ◌, ◌*ℤ◌, ◌≤ℤ◌, +ℤ_parts, elapsed_zero,
}
use ingestion_engine.Event.{TelemetryEvent}
use ingestion_engine.State.{Engine, Env}
use ingestion_engine.Limiter.{refill_tokens, allow_rate_limit}
use ingestion_engine.Limiter.Bucket.{refill_tokens-le_rate, refill_tokens-no_debt}
use ingestion_engine.Limiter.Rate.{allow_rate_limit_pays}
use ingestion_engine.Batch.{graceful_shutdown, window_timeout, count_threshold, batch_tick}
use ingestion_engine.Batch.Flush.{trigger_flush-SamePipeline}
use ingestion_engine.Workers.{
  ceil_div, chunk_size, move_chunk, flush_if_full, schedule_release, process_chunk, worker_tick,
  worker_release,
}
use ingestion_engine.Ingest.{
  batch_cost, count_request, enqueue, validate_and_enqueue, fail, ingest_single, ingest_all,
  ingest_batch,
}
use ingestion_engine.Ingest.Single.{
  verdict, completed, admitted, granted_one, ingest_single-verdict,
}
use ingestion_engine.Ingest.Many.{
  admitted_batch, granted_batch, completed_from, length-completed_from,
}
use ingestion_engine.LoadTest.{stop_load_test}
use ingestion_engine.Shutdown.{
  begin_shutdown, drain_queue, end_shutdown, simulate_graceful_shutdown, reset_shutdown,
}
use ingestion_engine.Shutdown.Drain.{drained}
use ingestion_engine.Report.{get_metrics}
use ingestion_engine.System.{fire_release, fire_reset}

-- Settings and bucket stay.
abbrev pub SameFunds : Engine → Engine → Type 0
SameFunds s t = (t.config ≡ s.config) × (t.limiter ≡ s.limiter)

flush_if_full-SameFunds : (env : Env) (s : Engine) → SameFunds s (flush_if_full env s)
unfolding flush_if_full
flush_if_full-SameFunds env s =
    let same = trigger_flush-SamePipeline count_threshold env s in
    ground (arith, same.config, same.limiter)

process_chunk-SameFunds :
    (chunk : ℕ) (env : Env) (s : Engine) → SameFunds s (process_chunk chunk env s)
unfolding process_chunk move_chunk schedule_release
process_chunk-SameFunds chunk env s =
    ground (arith, flush_if_full-SameFunds env (move_chunk chunk s))

pub worker_tick-SameFunds : (env : Env) (s : Engine) → SameFunds s (worker_tick env s)
unfolding worker_tick
worker_tick-SameFunds env s = ground (arith, process_chunk-SameFunds (chunk_size s) env s)

pub batch_tick-SameFunds :
    (tested : ℕ) (env : Env) (s : Engine) → SameFunds s (batch_tick tested env s)
unfolding batch_tick
batch_tick-SameFunds tested env s =
    let same = trigger_flush-SamePipeline window_timeout env s in
    ground (arith, same.config, same.limiter)

pub shutdown-SameFunds : (env : Env) (s : Engine) → SameFunds s (simulate_graceful_shutdown env s).1
unfolding simulate_graceful_shutdown begin_shutdown drain_queue end_shutdown stop_load_test
shutdown-SameFunds env s =
    let same = trigger_flush-SamePipeline graceful_shutdown env (drained env s) in
    (same.config, same.limiter)

pub fire_release-SameFunds : (n : ℕ) (s : Engine) → SameFunds s (fire_release n s)
unfolding fire_release worker_release
fire_release-SameFunds zero s = (refl, refl)
fire_release-SameFunds (suc n) s = (refl, refl)

pub fire_reset-SameFunds : (n : ℕ) (s : Engine) → SameFunds s (fire_reset n s)
unfolding fire_reset reset_shutdown
fire_reset-SameFunds zero s = (refl, refl)
fire_reset-SameFunds (suc n) s = (refl, refl)

-- An event costs 20 thousandths of a token. From `s` to `t`, by `now`, the accepted events were paid
-- for out of the bucket of `s` and what the rate adds, and no debt is left.
pub record Pays (now : ℕ) (s t : Engine) : Type 0 where
  pub config : t.config ≡ s.config
  pub spent :
      t.limiter.available_tokens +ℤ pos (20 * t.metrics.total_accepted)
      ≤ℤ s.limiter.available_tokens
        +ℤ pos (20 * s.metrics.total_accepted)
        +ℤ sub_ℕ t.limiter.last_refill_time s.limiter.last_refill_time *ℤ s.config.rate_limit_rps
  pub no_debt : pos 0 ≤ℤ t.limiter.available_tokens
  pub clock : t.limiter.last_refill_time ≤ now

pub keep-Pays :
    (now : ℕ) (s t : Engine)
    → SameFunds s t
    → t.metrics.total_accepted ≡ s.metrics.total_accepted
    → pos 0 ≤ℤ s.limiter.available_tokens
    → s.limiter.last_refill_time ≤ now
    → Pays now s t
keep-Pays now s t (c, l) a d h =
    let funds = s.limiter.available_tokens +ℤ pos (20 * s.metrics.total_accepted) in
    record {
      config = c;
      spent =
          rw (l, a, elapsed_zero s.limiter.last_refill_time s.config.rate_limit_rps)
            (omega (arith, +ℤ_parts funds (pos 0)));
      no_debt = rw l d;
      clock = rw l h;
    }

verdict_cost :
    (granted valid room : Bool) (ev : TelemetryEvent)
    → length (admitted (verdict granted valid room) ev) ≤ (if granted then 50 * 1 else 0)
verdict_cost false valid room ev = omega arith
verdict_cost true false room ev = omega arith
verdict_cost true true false ev = omega arith
verdict_cost true true true ev = omega arith

module _ (env : Env) (s : Engine) where
  -- A call of the bucket for `count` tokens that lets `n` events in, 50 for each token at most.
  pub allow-Pays :
      (count n : ℕ) (t : Engine)
      → let (granted, l) = allow_rate_limit s.config env.now count s.limiter in
        t.config ≡ s.config
        → t.limiter.available_tokens ≡ l.available_tokens
        → t.limiter.last_refill_time ≡ env.now
        → t.metrics.total_accepted ≡ s.metrics.total_accepted + n
        → n ≤ (if granted then 50 * count else 0)
        → pos 0 ≤ℤ l.available_tokens
        → Pays env.now s t
  allow-Pays count n t c k e a h d =
      let (granted, l) = allow_rate_limit s.config env.now count s.limiter in
      let paid = if granted then count else 0 in
      let gained = sub_ℕ env.now s.limiter.last_refill_time *ℤ s.config.rate_limit_rps in
      let cost : 20 * n ≤ 1000 * paid = ground (arith, h) in
      record {
        config = c;
        spent =
            rw (k, e, a)
              (omega (
                arith,
                cost,
                allow_rate_limit_pays s.config env.now count s.limiter,
                +ℤ_parts l.available_tokens (pos (1000 * paid)),
                +ℤ_parts s.limiter.available_tokens gained,
                +ℤ_parts l.available_tokens (pos (20 * (s.metrics.total_accepted + n))),
                +ℤ_parts s.limiter.available_tokens (pos (20 * s.metrics.total_accepted)),
                +ℤ_parts (s.limiter.available_tokens +ℤ pos (20 * s.metrics.total_accepted)) gained,
              ));
        no_debt = rw k d;
        clock = rw e (omega arith);
      }

  -- A refill alone.
  pub refill-Pays :
      pos 0 ≤ℤ s.config.rate_limit_rps
      → pos 0 ≤ℤ s.config.rate_limit_burst
      → pos 0 ≤ℤ s.limiter.available_tokens
      → s.limiter.last_refill_time ≤ env.now
      → Pays env.now s (get_metrics env s).1
  unfolding get_metrics refill_tokens
  refill-Pays hr hb d h =
      let l = refill_tokens s.config env.now s.limiter in
      let gained = sub_ℕ env.now s.limiter.last_refill_time *ℤ s.config.rate_limit_rps in
      record {
        config = refl;
        spent = omega (
          arith,
          refill_tokens-le_rate s.config env.now s.limiter,
          +ℤ_parts s.limiter.available_tokens gained,
          +ℤ_parts l.available_tokens (pos (20 * s.metrics.total_accepted)),
          +ℤ_parts s.limiter.available_tokens (pos (20 * s.metrics.total_accepted)),
          +ℤ_parts (s.limiter.available_tokens +ℤ pos (20 * s.metrics.total_accepted)) gained,
        );
        no_debt = refill_tokens-no_debt s.config env.now s.limiter hr hb h d;
        clock = omega arith;
      }

  pub single-limiter :
      (ev : TelemetryEvent)
      → (ingest_single env ev s).1.limiter ≡ (allow_rate_limit s.config env.now 1 s.limiter).1
  unfolding ingest_single validate_and_enqueue enqueue fail count_request
  single-limiter ev = ground arith

  pub single-cost :
      (ev : TelemetryEvent)
      → length (admitted (ingest_single env ev s).0.status (completed env ev))
        ≤ (if granted_one env s then 50 * 1 else 0)
  single-cost ev = rw (ingest_single-verdict env ev s) (verdict_cost _ _ _ (completed env ev))

  pub many-limiter :
      (evs : List TelemetryEvent)
      → let l = (ingest_batch env evs s).1.limiter in
        let m = (allow_rate_limit s.config env.now (batch_cost (length evs)) s.limiter).1 in
        (l.available_tokens ≡ m.available_tokens) × (l.last_refill_time ≡ m.last_refill_time)
  unfolding ingest_batch ingest_all count_request
  many-limiter evs = ground arith

  pub many-cost :
      (evs : List TelemetryEvent)
      → length (admitted_batch env evs s)
        ≤ (if granted_batch env evs s then 50 * batch_cost (length evs) else 0)
  unfolding batch_cost ceil_div
  many-cost evs = ground (
    arith,
    length-take (s.config.channel_capacity - length s.pool.queue) (completed_from env 0 evs),
    length-completed_from env 0 evs,
  )
