-- ===== src/Shutdown/Open.antt =====
-- Ingestion while a shutdown is simulated.
use ingestion_engine.Prelude.{◌≡◌, ◌<◌, refl, ap, ◌∙◌, arith, true, List, [], ◌++◌}
use ingestion_engine.Event.{TelemetryEvent}
use ingestion_engine.State.{Engine, Env, Pool}
use ingestion_engine.Batch.{graceful_shutdown}
use ingestion_engine.Batch.Flush.{trigger_flush-SamePipeline}
use ingestion_engine.Ingest.{IngestStatus, is_valid, ingest_single}
use ingestion_engine.Ingest.Single.{
  completed, admitted, verdict, granted_one, has_room, ingest_single-verdict, ingest_single-Admits,
  ingest_single_effect,
}
use ingestion_engine.LoadTest.{stop_load_test}
use ingestion_engine.Shutdown.{
  begin_shutdown, drain_queue, end_shutdown, simulate_graceful_shutdown,
}
use ingestion_engine.Shutdown.Drain.{drained}

-- An engine with an empty queue, and with the settings and the bucket of `s`.
answer_at_empty :
    (env : Env) (ev : TelemetryEvent) (s t : Engine)
    → t.config ≡ s.config
    → t.limiter ≡ s.limiter
    → t.pool.queue ≡ []
    → 0 < s.config.channel_capacity
    → let (r, u) = ingest_single env ev t in
      let status = verdict (granted_one env s) (is_valid ev) true in
      (u.pool.is_shutting_down ≡ t.pool.is_shutting_down)
      × (r.status ≡ status)
      × (u.pool.queue ≡ admitted status (completed env ev))
answer_at_empty env ev s t ec el eq h =
    let open_queue : has_room env ev t ≡ true = rw (eq, ec) (ground arith) in
    let same : granted_one env t ≡ granted_one env s = rw (ec, el) refl in
    let status = ingest_single-verdict env ev t ∙ rw (open_queue, same) refl in
    (
      ap (λ (p : Pool). p.is_shutting_down) (ingest_single-Admits env ev t).pool,
      status,
      (ingest_single_effect env ev t).0
          ∙ ap
              (λ (q : List TelemetryEvent).
                q ++ admitted (ingest_single env ev t).0.status (completed env ev))
              eq
          ∙ ap (λ (a : IngestStatus). admitted a (completed env ev)) status,
    )

module _ (env after : Env) (ev : TelemetryEvent) (s : Engine) where
  -- A shutdown leaves ingestion open: while it is flagged, an event is answered as ever, by the token,
  -- the required fields and the room in the queue, which is empty then, for an engine with a
  -- capacity. An accepted event is alone in the queue.
  pub shutdown_stays_open :
      0 < s.config.channel_capacity
      → let t = (simulate_graceful_shutdown env s).1 in
        let (r, u) = ingest_single after ev t in
        let status = verdict (granted_one after s) (is_valid ev) true in
        (u.pool.is_shutting_down ≡ true)
        × (r.status ≡ status)
        × (u.pool.queue ≡ admitted status (completed after ev))
  unfolding simulate_graceful_shutdown begin_shutdown drain_queue end_shutdown stop_load_test
  shutdown_stays_open h =
      let t = (simulate_graceful_shutdown env s).1 in
      let same = trigger_flush-SamePipeline graceful_shutdown env (drained env s) in
      let (flag, status, queue) =
        answer_at_empty after ev s t same.config same.limiter (ap (λ (p : Pool). p.queue) same.pool)
          h in
      (flag ∙ ap (λ (p : Pool). p.is_shutting_down) same.pool, status, queue)
