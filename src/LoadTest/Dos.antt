-- ===== src/LoadTest/Dos.antt =====
-- The load test that is meant to exceed the token bucket.
use native.Mathlib.Nat.{mul-le-mul}
use ingestion_engine.Prelude.{
  ℕ, zero, suc, ◌+◌, ◌-◌, ◌*◌, ◌≤◌, ◌≡◌, refl, ap, arith, String, Bool, true, Option, none, some,
  List, length, if◌then◌else◌, ℤ, pos, negsuc, sub_ℕ, ◌*ℤ◌, ◌≤ℤ◌, +ℤ_parts, *ℤ_parts,
}
use ingestion_engine.Event.{TelemetryEvent}
use ingestion_engine.State.{Engine, Env, Config, Limiter}
use ingestion_engine.Limiter.{refill_tokens, take_tokens, allow_rate_limit}
use ingestion_engine.Limiter.Bucket.{allow_rate_limit_iff}
use ingestion_engine.Workers.{ceil_div}
use ingestion_engine.Ingest.{batch_cost, ingest_batch, ingest_all, count_request}
use ingestion_engine.LoadTest.{Draw, mock_batch, tick_batch_count, load_test_fire, load_test_tick}

length-mock_batch : (draws : ℕ → Draw) (left i : ℕ) → length (mock_batch draws left i) ≡ left
unfolding mock_batch
length-mock_batch draws zero i = refl
length-mock_batch draws (suc left) i = ap suc (length-mock_batch draws left (suc i))

-- A tick at up to 125,000 events per second, times four, costs at most 250 tokens.
dos_cost : (target : ℕ) → target ≤ 125_000 → batch_cost (ceil_div target 40 * 4) ≤ 250
unfolding batch_cost ceil_div
dos_cost target h = omega arith

product_ge : (e r : ℕ) → 25 ≤ e → 10_000 ≤ r → 250_000 ≤ e * r
product_ge e r he hr = mul-le-mul he hr

gained_25ms :
    (now last : ℕ) (rps : ℤ)
    → pos 10_000 ≤ℤ rps
    → last + 25 ≤ now
    → pos 250_000 ≤ℤ sub_ℕ now last *ℤ rps
gained_25ms now last (pos r) hr ht =
    let elapsed : sub_ℕ now last ≡ pos (now - last) = ground arith in
    rw elapsed (
      omega (
        arith,
        *ℤ_parts (pos (now - last)) (pos r),
        product_ge (now - last) r (omega arith) (omega arith),
      ))
gained_25ms now last (negsuc r) hr ht = absurd (omega arith)

-- A bucket that is not in debt and had 25 ms to refill at 10 tokens per ms or more grants a call
-- for up to 250 tokens, if the burst is that large.
refilled_grants :
    (c : Config) (now count : ℕ) (l : Limiter)
    → pos 10_000 ≤ℤ c.rate_limit_rps
    → pos 250 ≤ℤ c.rate_limit_burst
    → pos 0 ≤ℤ l.available_tokens
    → l.last_refill_time + 25 ≤ now
    → count ≤ 250
    → (allow_rate_limit c now count l).0 ≡ true
unfolding refill_tokens
refilled_grants c now count l hr hb h ht hc =
    let gained = sub_ℕ now l.last_refill_time *ℤ c.rate_limit_rps in
    (allow_rate_limit_iff c now count l).1 (
      ground (
        arith,
        gained_25ms now l.last_refill_time c.rate_limit_rps hr ht,
        +ℤ_parts l.available_tokens gained,
        *ℤ_parts (pos 1000) c.rate_limit_burst,
      ))

allow_rate_limit-granted :
    (c : Config) (now count : ℕ) (l : Limiter)
    → (allow_rate_limit c now count l).0 ≡ true
    → (allow_rate_limit c now count l).1.rate_limited_requests ≡ l.rate_limited_requests
unfolding allow_rate_limit take_tokens refill_tokens
allow_rate_limit-granted c now count l h = ground (arith, h)

ingest_batch-granted :
    (env : Env) (evs : List TelemetryEvent) (s : Engine)
    → (allow_rate_limit s.config env.now (batch_cost (length evs)) s.limiter).0 ≡ true
    → (ingest_batch env evs s).1.limiter.rate_limited_requests ≡ s.limiter.rate_limited_requests
unfolding ingest_batch ingest_all count_request
ingest_batch-granted env evs s h =
    rw h (allow_rate_limit-granted s.config env.now (batch_cost (length evs)) s.limiter h)

module _ (env : Env) (draws : ℕ → Draw) (wave : ℤ) (s : Engine) where
  -- A tick of the active scenario "dos_attack" refuses nothing: at up to 125,000 events per second,
  -- a limiter that gains 10,000 tokens per second or more and has a burst of 250 or more grants it,
  -- if the bucket is not in debt and was last refilled 25 ms before or earlier, the interval of the
  -- ticks.
  pub dos_granted :
      (target : ℕ)
      → target ≤ 125_000
      → s.load.load_test_active ≡ true
      → s.load.load_test_scenario ≡ "dos_attack"
      → s.load.load_test_timer ≡ some (ceil_div target 40)
      → pos 10_000 ≤ℤ s.config.rate_limit_rps
      → pos 250 ≤ℤ s.config.rate_limit_burst
      → pos 0 ≤ℤ s.limiter.available_tokens
      → s.limiter.last_refill_time + 25 ≤ env.now
      → (load_test_tick env draws wave s).limiter.rate_limited_requests
        ≡ s.limiter.rate_limited_requests
  unfolding load_test_tick load_test_fire tick_batch_count
  dos_granted target h ha hs ht hr hb hd hn =
      go s.load.load_test_timer s.load.load_test_active s.load.load_test_scenario ht ha hs
    where
      events : List TelemetryEvent
      events = mock_batch draws (ceil_div target 40 * 4) 0

      cost : batch_cost (length events) ≤ 250
      cost = rw (length-mock_batch draws (ceil_div target 40 * 4) 0) (dos_cost target h)

      go :
          (timer : Option ℕ) (active : Bool) (scenario : String)
          → timer ≡ some (ceil_div target 40)
          → active ≡ true
          → scenario ≡ "dos_attack"
          → let t : Engine = elim timer [
            | none ↦ s
            | some per_tick ↦
                if active
                then (ingest_batch env
                    (mock_batch draws (tick_batch_count scenario wave per_tick) 0)
                    s).1
                else s
          ] in
            t.limiter.rate_limited_requests ≡ s.limiter.rate_limited_requests
      go timer active scenario et ea es =
          rw (et, ea, es)
            (ingest_batch-granted env events s (
              refilled_grants s.config env.now (batch_cost (length events)) s.limiter hr hb hd hn
                cost))
