-- ===== src/Server/Codes.antt =====
-- The status codes of the routes, by what the engine did.
use ingestion_engine.Prelude.{
  ℕ, ◌+◌, ◌*◌, ◌/◌, ◌<◌, ◌≡◌, ◌≢◌, not, Bool, Bool-cases, inl, inr, ◌-◌, ◌&&◌, refl, ap, arith,
  true, none, some, List, ◌++◌, length, ltb, leb, ◌==◌, if◌then◌else◌,
}
use native.Mathlib.Nat.{le-div_iff_mul-le}
use ingestion_engine.Event.{TelemetryEvent}
use ingestion_engine.State.{Engine, Env}
use ingestion_engine.Ingest.{
  IngestStatus, accepted, rate_limited, queue_saturated, invalid, SingleResult, is_valid,
  ingest_single,
}
use ingestion_engine.Ingest.Single.{
  completed, admitted, granted_one, has_room, verdict, ingest_single-verdict, ingest_single_effect,
}
use ingestion_engine.Ingest.Many.{granted_batch, admitted_batch, ingest_batch_effect}
use ingestion_engine.Report.{get_metrics, report, queue_saturation, round_div}
use ingestion_engine.Server.{
  post_single, post_batch, read_health, handle, single_response, batch_response, batch_code,
  respond, too_many, health_body, health, batch_summary,
}

-- The status code of each outcome.
abbrev pub code_of : IngestStatus → ℕ
code_of accepted = 202
code_of rate_limited = 429
code_of queue_saturated = 503
code_of invalid = 400

single_response-code :
    (r : SingleResult)
    → ((single_response r).code ≡ code_of r.status)
      × ((single_response r).retry_after ≡ (elim r.status [ rate_limited ↦ some "1" | _ ↦ none ]))
unfolding single_response
single_response-code r = ground arith

module _ (env : Env) (ev : TelemetryEvent) (s : Engine) where
  -- An event is answered 429 without a token, else 400 without its required fields, else 503 without
  -- room in the queue, else 202. Only 429 comes with Retry-After, and only with 202 the event is at
  -- the end of the queue.
  pub post_single_code :
      let (r, t) = handle env (post_single ev) s in
      let status = verdict (granted_one env s) (is_valid ev) (has_room env ev s) in
      (r.code ≡ code_of status)
      × (r.retry_after ≡ (elim status [ rate_limited ↦ some "1" | _ ↦ none ]))
      × (t.pool.queue ≡ s.pool.queue ++ admitted status (completed env ev))
  unfolding handle
  post_single_code =
      let v = ingest_single-verdict env ev s in
      let (code, retry) = single_response-code (ingest_single env ev s).0 in
      let effect = ingest_single_effect env ev s in
      (rw (← v) code, rw (← v) retry, rw (← v) effect.0)

module _ (env : Env) (evs : List TelemetryEvent) (s : Engine) where
  -- A batch is answered 429 without tokens. Otherwise it is answered 503 if it has events and none of
  -- them found room, and 202 if it is empty or at least one did.
  pub post_batch_code :
      let (r, t) = handle env (post_batch (some evs)) s in
      let ads = admitted_batch env evs s in
      (r.code ≡ (
        if granted_batch env evs s
        then (if ltb 0 (length evs) then (if length ads == 0 then 503 else 202) else 202)
        else 429))
      × (t.pool.queue ≡ s.pool.queue ++ ads)
  unfolding handle batch_response batch_code respond too_many
  post_batch_code = let e = ingest_batch_effect env evs s in ground (arith, e.0, e.1, e.2, e.3, e.4)

  -- The summary of a batch that had tokens: the label is "partially_dropped" only if every event was
  -- dropped; a batch of which just some events were dropped is labelled "accepted".
  pub post_batch_label :
      granted_batch env evs s ≡ true
      → let n = length evs in
        let ads = length (admitted_batch env evs s) in
        (handle env (post_batch (some evs)) s).0.body
        ≡ batch_summary
            (if ltb 0 n && ads == 0 then "partially_dropped" else "accepted")
            n
            ads
            (n - ads)
  unfolding handle batch_response batch_code respond too_many
  post_batch_label h =
      let e = ingest_batch_effect env evs s in ground (arith, h, e.0, e.1, e.2, e.3)

over_95 :
    (n c : ℕ) → 0 < c → ltb 9500 ((2 * (n * 10_000) + c) / (2 * c)) ≡ leb (19_001 * c) (20_000 * n)
over_95 n c h =
    let k : 0 < 2 * c = omega arith in
    ground (arith, le-div_iff_mul-le {k = 2 * c} {x = 9501} {y = 2 * (n * 10_000) + c} k)

at_9501 :
    (q n c : ℕ) (down : Bool)
    → 2 * (n * 10_000) + c == q * (2 * c) && down ≡ true
    → q ≡ 9501
    → 19_001 * c ≡ 20_000 * n
at_9501 q n c down h e =
    let k : 2 * (n * 10_000) + c ≡ q * (2 * c) = ground (arith, h) in
    omega (arith, k, ap (λ (x : ℕ). x * (2 * c)) e)

rounded_95 :
    (tie_up : ℕ → ℕ → Bool) (n c : ℕ)
    → 0 < c
    → 19_001 * c ≢ 20_000 * n
    → ltb 9500 (round_div tie_up (n * 10_000) c) ≡ leb (19_001 * c) (20_000 * n)
unfolding round_div
rounded_95 tie_up n c h off =
    let q = (2 * (n * 10_000) + c) / (2 * c) in
    let up = over_95 n c h in
    elim (Bool-cases (2 * (n * 10_000) + c == q * (2 * c) && not (tie_up (n * 10_000) c))) [
      | inr other ↦ rw other up
      | inl down ↦ elim (Bool-cases (q == 9501)) [
        | inl e ↦
            absurd (off (at_9501 q n c (not (tie_up (n * 10_000) c)) down (ground (arith, e))))
        | inr e ↦ rw down (ground (arith, up, e))
      ]
    ]

-- For a queue that has a capacity and is not filled to 95.005 percent itself, the health route says
-- "degraded" above that, where `toFixed(2)` gives more than 95, and "healthy" below.
pub health_threshold :
    (env : Env) (s : Engine)
    → 0 < s.config.channel_capacity
    → 19_001 * s.config.channel_capacity ≢ 20_000 * length s.pool.queue
    → (handle env read_health s).0.body
      ≡ health
          (if leb (19_001 * s.config.channel_capacity) (20_000 * length s.pool.queue)
            then "degraded"
            else "healthy")
          (get_metrics env s).0.uptime_sec
          (get_metrics env s).0.queue_saturation_pct
unfolding handle health_body respond get_metrics report queue_saturation
health_threshold env s h off =
    rw (rounded_95 env.tie_up (length s.pool.queue) s.config.channel_capacity h off) refl
