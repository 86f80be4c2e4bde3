-- ===== src/Ingest/Single.antt =====
-- What `ingestSingle` answers, and what it does to the engine.
use mathlib.Core.List.{append-nil}
use ingestion_engine.Prelude.{
  ◌+◌, ◌≡◌, refl, arith, Bool, true, false, none, List, [], ◌∷◌, ◌++◌, length, ltb, leb, pos, ◌*ℤ◌,
  length-append, ◌≤ℤ◌, inl, inr, Bool-cases,
}
use ingestion_engine.Event.{TelemetryEvent, fill_defaults}
use ingestion_engine.State.{Engine, Env}
use ingestion_engine.Limiter.{allow_rate_limit}
use ingestion_engine.Limiter.Bucket.{allow_rate_limit-le_burst}
use ingestion_engine.Ingest.{
  IngestStatus, accepted, rate_limited, queue_saturated, invalid, fail, is_valid, enqueue,
  validate_and_enqueue, count_request, ingest_single,
}
use ingestion_engine.Ingest.Admits.{Admits, Admits-none, Admits-counted}
use ingestion_engine.Logs.Cap.{add_log-Keeps}
use ingestion_engine.Latency.Ranks.{record_latency-length}

-- The event as it is queued.
abbrev pub completed : Env → TelemetryEvent → TelemetryEvent
completed env ev = fill_defaults (env.iso 0) (env.random_text 0) ev

abbrev pub granted_one : Env → Engine → Bool
granted_one env s = (allow_rate_limit s.config env.now 1 s.limiter).0

-- The answer by the three checks in their order: the token, the fields, the room in the queue.
abbrev pub verdict : Bool → Bool → Bool → IngestStatus
verdict false valid room = rate_limited
verdict true false room = invalid
verdict true true false = queue_saturated
verdict true true true = accepted

-- The events that a status lets into the queue.
abbrev pub admitted : IngestStatus → TelemetryEvent → List TelemetryEvent
admitted accepted ev = ev ∷ []
admitted _ ev = []

module _ (env : Env) (ev : TelemetryEvent) (s : Engine) where
  abbrev pub has_room : Bool
  has_room = ltb (length s.pool.queue) s.config.channel_capacity

  -- The status is the verdict of the three checks, in their order: the token, the required fields,
  -- the room in the queue.
  pub ingest_single-verdict :
      (ingest_single env ev s).0.status ≡ verdict (granted_one env s) (is_valid ev) has_room
  unfolding ingest_single validate_and_enqueue enqueue fail
  ingest_single-verdict = ground arith

  -- The event is queued, completed, exactly if the status says so; the answer then has its trace
  -- id. Of the totals of accepted and dropped events the fitting one grows by 1.
  pub ingest_single_effect :
      let (r, t) = ingest_single env ev s in
      let ads = admitted r.status (completed env ev) in
      (t.pool.queue ≡ s.pool.queue ++ ads)
      × (t.metrics.total_accepted ≡ s.metrics.total_accepted + length ads)
      × (t.metrics.total_dropped
          ≡ s.metrics.total_dropped + (elim r.status [ queue_saturated ↦ 1 | _ ↦ 0 ]))
      × (r.trace_id ≡ (elim r.status [ accepted ↦ (completed env ev).trace_id | _ ↦ none ]))
  unfolding ingest_single validate_and_enqueue enqueue fail
  ingest_single_effect = ground (arith, append-nil s.pool.queue)

  pub enqueue-Admits :
      s.limiter.available_tokens ≤ℤ pos 1000 *ℤ s.config.rate_limit_burst
      → Admits s (admitted (enqueue env ev s).0.status ev) (enqueue env ev s).1
  unfolding enqueue fail
  enqueue-Admits h = elim (Bool-cases (leb s.config.channel_capacity (length s.pool.queue))) [
    | inl full ↦
        rw (full, enqueue)
          (Admits-none s _ refl refl refl refl refl refl refl (add_log-Keeps _ _ _ _ _ s.logs) h)
    | inr room ↦
        rw (room, enqueue)
          (record {
            config = refl;
            pool = refl;
            batch = refl;
            load = refl;
            accepted = omega arith;
            processed = refl;
            latencies = record_latency-length _ s.metrics.latencies;
            logs = (λ k. k, refl);
            room = ground (arith, length-append s.pool.queue (ev ∷ []));
            tokens = h;
          })
  ]

module _ (env : Env) (ev : TelemetryEvent) (s : Engine) where
  -- The same, with all that stays unchanged.
  pub ingest_single-Admits :
      let (r, t) = ingest_single env ev s in Admits s (admitted r.status (completed env ev)) t
  unfolding ingest_single validate_and_enqueue count_request fail
  ingest_single-Admits =
      let (granted, limiter) = allow_rate_limit s.config env.now 1 s.limiter in
      let limited = record (count_request 1 s) { limiter = limiter } in
      let capped = allow_rate_limit-le_burst s.config env.now 1 s.limiter in
      elim (Bool-cases granted) [
        | inr refused ↦
            rw refused (Admits-none s _ refl refl refl refl refl refl refl (λ k. k, refl) capped)
        | inl done ↦ rw done (elim (Bool-cases (is_valid ev)) [
          | inr bad ↦
              rw (bad, validate_and_enqueue)
                (Admits-none s _ refl refl refl refl refl refl refl (λ k. k, refl) capped)
          | inl good ↦
              rw (good, validate_and_enqueue)
                (Admits-counted 1 limiter s (enqueue-Admits env (completed env ev) limited capped))
        ])
      ]
