-- ===== src/Ingest/Many.antt =====
-- `ingestBatch` takes the events that fit, in their order, and drops the rest.
use mathlib.Core.List.{append-nil, append_assoc}
use ingestion_engine.Prelude.{
  ℕ, suc, ◌+◌, ◌-◌, ◌≡◌, refl, sym, ap, ◌∙◌, arith, Bool, false, not, List, [], ◌∷◌, ◌++◌,
  if◌then◌else◌, length, ltb, pos, min, take, inl, inr, Bool-cases, length-append, length-take,
  take-nil, take-suc, take-zero, ◌≤ℤ◌, ◌*ℤ◌,
}
use ingestion_engine.Event.{TelemetryEvent, fill_batch_defaults}
use ingestion_engine.State.{Engine, Env}
use ingestion_engine.Limiter.{refill_tokens, take_tokens, allow_rate_limit}
use ingestion_engine.Limiter.Bucket.{allow_rate_limit-le_burst}
use ingestion_engine.Latency.Ranks.{record_latency-length}
use ingestion_engine.Ingest.{
  Loop, enqueue_one, enqueue_all, start_loop, ingest_all, ingest_batch, batch_cost, count_request,
}
use ingestion_engine.Ingest.Admits.{Admits, Admits-none, Admits-counted}

module _ (env : Env) where
  -- The events of a request as they are queued, from event `i` on.
  abbrev pub completed_from : ℕ → List TelemetryEvent → List TelemetryEvent
  completed_from i [] = []
  completed_from i (ev ∷ evs) =
      fill_batch_defaults (env.iso i) (env.random_text i) ev ∷ completed_from (suc i) evs

  pub length-completed_from :
      (i : ℕ) (evs : List TelemetryEvent) → length (completed_from i evs) ≡ length evs
  length-completed_from i [] = refl
  length-completed_from i (ev ∷ evs) = ap suc (length-completed_from (suc i) evs)

  module _ (capacity : ℕ) where
    abbrev pub room : Loop → ℕ
    room l = capacity - length l.queue

    enqueue_all-queue :
        (i : ℕ) (evs : List TelemetryEvent) (l : Loop)
        → (enqueue_all env capacity i evs l).queue ≡ l.queue ++ take (room l) (completed_from i evs)
    unfolding enqueue_all enqueue_one fill_batch_defaults
    enqueue_all-queue i [] l = rw (take-nil (room l), append-nil)
    enqueue_all-queue i (ev ∷ evs) l =
        let complete = fill_batch_defaults (env.iso i) (env.random_text i) ev in
        let rest = completed_from (suc i) evs in
        let grown = length-append l.queue (complete ∷ []) in
        let ih = enqueue_all-queue (suc i) evs (enqueue_one capacity complete l) in
        elim (Bool-cases (ltb (length l.queue) capacity)) [
          | inl fits ↦
              ih
              ∙ rw (fits, enqueue_one, append_assoc)
                  (ap (◌++◌ l.queue) (sym (take-suc complete rest (ground arith))))
          | inr full ↦
              ih
              ∙ rw (full, enqueue_one)
                  (ap (◌++◌ l.queue) (
                    take-zero rest (ground arith)
                    ∙ sym (take-zero (complete ∷ rest) (ground arith))))
        ]

    enqueue_all-counts :
        (i : ℕ) (evs : List TelemetryEvent) (l : Loop)
        → let m = enqueue_all env capacity i evs l in
          let fits = min (room l) (length evs) in
          (m.accepted ≡ l.accepted + fits)
          × (m.total_accepted ≡ l.total_accepted + fits)
          × (m.dropped ≡ l.dropped + (length evs - fits))
          × (m.total_dropped ≡ l.total_dropped + (length evs - fits))
    unfolding enqueue_all enqueue_one
    enqueue_all-counts i [] l = ground arith
    enqueue_all-counts i (ev ∷ evs) l =
        let complete = fill_batch_defaults (env.iso i) (env.random_text i) ev in
        ground (
          arith,
          enqueue_all-counts (suc i) evs (enqueue_one capacity complete l),
          length-append l.queue (complete ∷ []),
        )

-- The events of a request that are queued: as many as there is room for, from the front.
abbrev pub admitted_all : Env → List TelemetryEvent → Engine → List TelemetryEvent
admitted_all env evs s =
    take (s.config.channel_capacity - length s.pool.queue) (completed_from env 0 evs)

abbrev pub granted_batch : Env → List TelemetryEvent → Engine → Bool
granted_batch env evs s = (allow_rate_limit s.config env.now (batch_cost (length evs)) s.limiter).0

abbrev pub admitted_batch : Env → List TelemetryEvent → Engine → List TelemetryEvent
admitted_batch env evs s = if granted_batch env evs s then admitted_all env evs s else []

module _ (env : Env) (evs : List TelemetryEvent) (s : Engine) where
  length-admitted_all :
      length (admitted_all env evs s)
      ≡ min (s.config.channel_capacity - length s.pool.queue) (length evs)
  length-admitted_all = omega (
    arith,
    length-take (s.config.channel_capacity - length s.pool.queue) (completed_from env 0 evs),
    length-completed_from env 0 evs,
  )

  ingest_all-Admits :
      s.limiter.available_tokens ≤ℤ pos 1000 *ℤ s.config.rate_limit_burst
      → Admits s (admitted_all env evs s) (ingest_all env evs s).1
  unfolding ingest_all
  ingest_all-Admits h =
      let capacity = s.config.channel_capacity in
      let queued = enqueue_all-queue env capacity 0 evs (start_loop s) in
      record {
        config = refl;
        pool = ap (λ (q : List TelemetryEvent). record s.pool { queue = q }) queued;
        batch = refl;
        load = refl;
        accepted =
            omega
              (arith, enqueue_all-counts env capacity 0 evs (start_loop s), length-admitted_all);
        processed = refl;
        latencies = record_latency-length env.sampled_latency s.metrics.latencies;
        logs = (λ k. k, refl);
        room = omega (
          arith,
          ap length queued,
          length-append s.pool.queue (admitted_all env evs s),
          length-admitted_all,
        );
        tokens = h;
      }

module _ (env : Env) (evs : List TelemetryEvent) (s : Engine) where
  -- All that ingestion of a batch may change: the admitted events go to the end of the queue.
  pub ingest_batch-Admits : Admits s (admitted_batch env evs s) (ingest_batch env evs s).1
  unfolding ingest_batch count_request
  ingest_batch-Admits =
      let n = length evs in
      let (granted, limiter) = allow_rate_limit s.config env.now (batch_cost n) s.limiter in
      let limited = record (count_request n s) { limiter = limiter } in
      let capped = allow_rate_limit-le_burst s.config env.now (batch_cost n) s.limiter in
      elim (Bool-cases granted) [
        | inr refused ↦
            rw refused (Admits-none s _ refl refl refl refl refl refl refl (λ k. k, refl) capped)
        | inl done ↦ rw done (Admits-counted n limiter s (ingest_all-Admits env evs limited capped))
      ]

  -- The answer to a batch: the events that find room are accepted, from the front and in their order,
  -- completed; all others are dropped. Without tokens none is accepted. Only drops for want of room
  -- enter the total of dropped events.
  pub ingest_batch_effect :
      let (r, t) = ingest_batch env evs s in
      let ads = admitted_batch env evs s in
      (r.total ≡ length evs)
      × (r.accepted ≡ length ads)
      × (r.accepted + r.dropped ≡ r.total)
      × (r.rate_limited ≡ not (granted_batch env evs s))
      × (t.pool.queue ≡ s.pool.queue ++ ads)
      × (t.metrics.total_accepted ≡ s.metrics.total_accepted + r.accepted)
      × (t.metrics.total_dropped
          ≡ s.metrics.total_dropped + (if r.rate_limited then 0 else r.dropped))
  unfolding ingest_batch ingest_all count_request
  ingest_batch_effect =
      let capacity = s.config.channel_capacity in
      ground (
        arith,
        append-nil s.pool.queue,
        enqueue_all-queue env capacity 0 evs (start_loop s),
        enqueue_all-counts env capacity 0 evs (start_loop s),
        length-admitted_all env evs s,
      )

  -- A batch of `n` events that is refused for want of tokens counts as `n + 1` refused requests.
  pub refused_batch_counts :
      granted_batch env evs s ≡ false
      → (ingest_batch env evs s).1.limiter.rate_limited_requests
        ≡ s.limiter.rate_limited_requests + length evs + 1
  unfolding ingest_batch allow_rate_limit take_tokens refill_tokens
  refused_batch_counts h = ground arith
