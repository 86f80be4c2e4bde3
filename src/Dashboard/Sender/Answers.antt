-- ===== src/Dashboard/Sender/Answers.antt =====
-- What the server answers to the modal.
use ingestion_engine.Prelude.{
  ℕ, ◌+◌, ◌-◌, ◌<◌, ◌≡◌, ap, arith, false, not, some, List, length, min, ltb, if◌then◌else◌,
  length-append, length-take, ◌∙◌,
}
use mathlib.Core.Path.{subst}
use ingestion_engine.Event.{TelemetryEvent, falsy}
use ingestion_engine.State.{Engine, Env}
use ingestion_engine.Limiter.{allow_rate_limit}
use ingestion_engine.Ingest.{batch_cost, is_valid}
use ingestion_engine.Ingest.Single.{granted_one, has_room, verdict}
use ingestion_engine.Ingest.Many.{admitted_batch, completed_from, length-completed_from}
use ingestion_engine.Server.{post_single, post_batch, handle}
use ingestion_engine.Server.Codes.{code_of, post_single_code, post_batch_code}
use ingestion_engine.Dashboard.Sender.{
  one, batch, Modal, Texts, send, single_payload, batch_items, length-batch_items,
}

module _ (texts : Texts) (env : Env) (m : Modal) (s : Engine) where
  send-one : m.mode ≡ one → (send texts m).0 ≡ post_single (single_payload texts m)
  unfolding send
  send-one h = ground (arith, h)

  send-batch :
      m.mode ≡ batch → (send texts m).0 ≡ post_batch (some (batch_items texts m m.batch_count 0))
  unfolding send
  send-batch h = ground (arith, h)

  payload-valid :
      falsy (some m.service) ≡ false
      → is_valid (single_payload texts m) ≡ not (falsy (some m.message))
  unfolding is_valid single_payload
  payload-valid k = ground (arith, k)

  -- A single event with a service is answered 429 without a token, else 400 if its message is empty,
  -- else 503 without room, else 202.
  pub sent_single_code :
      m.mode ≡ one
      → falsy (some m.service) ≡ false
      → let ev = single_payload texts m in
        (handle env (send texts m).0 s).0.code
        ≡ code_of (verdict (granted_one env s) (not (falsy (some m.message))) (has_room env ev s))
  sent_single_code h k =
      rw (send-one h, ← payload-valid k) (post_single_code env (single_payload texts m) s).0

  abbrev room : ℕ
  room = s.config.channel_capacity - length s.pool.queue

  -- The answer to a batch of `n` events, by tokens and room.
  abbrev pub BatchAnswer : List TelemetryEvent → ℕ → Type 0
  BatchAnswer evs n =
      let (r, t) = handle env (post_batch (some evs)) s in
      let granted = (allow_rate_limit s.config env.now (batch_cost n) s.limiter).0 in
      (r.code ≡ (if granted then (if ltb 0 room then 202 else 503) else 429))
      × (length t.pool.queue ≡ length s.pool.queue + (if granted then min room n else 0))

  batch_answer : (evs : List TelemetryEvent) → 0 < length evs → BatchAnswer evs (length evs)
  batch_answer evs h =
      let (code, queue) = post_batch_code env evs s in
      let fits = length-take room (completed_from env 0 evs) in
      let size = length-completed_from env 0 evs in
      let grown = ap length queue ∙ length-append s.pool.queue (admitted_batch env evs s) in
      ground (arith, code, grown, fits, size)

  -- A batch of at least one event is answered 429 without tokens for it, else 503 if the queue is full,
  -- else 202. With tokens as many of its events are queued as there is room for.
  pub sent_batch_code :
      m.mode ≡ batch
      → 0 < m.batch_count
      → let (r, t) = handle env (send texts m).0 s in
        let granted = (allow_rate_limit s.config env.now (batch_cost m.batch_count) s.limiter).0 in
        let room = s.config.channel_capacity - length s.pool.queue in
        (r.code ≡ (if granted then (if ltb 0 room then 202 else 503) else 429))
        × (length t.pool.queue
            ≡ length s.pool.queue + (if granted then min room m.batch_count else 0))
  sent_batch_code h k =
      let evs = batch_items texts m m.batch_count 0 in
      let n = length-batch_items texts m m.batch_count 0 in
      rw (send-batch h) (subst (BatchAnswer evs) n (batch_answer evs (rw n k)))
