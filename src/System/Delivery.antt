-- ===== src/System/Delivery.antt =====
-- Delivery: a pool that is not overloaded, and the batch ticker after it, bring every accepted event to
-- the store.
use ingestion_engine.Prelude.{
  ℕ, ◌+◌, ◌*◌, ◌≤◌, ◌≡◌, refl, ap, ◌∙◌, arith, List, [], ◌∷◌, length, le→leb,
}
use ingestion_engine.State.{Engine, Env, Pool}
use ingestion_engine.Pipeline.{
  pending, IsConserved, Moves, Moves-trans, Moves-same, Moves-IsConserved,
}
use ingestion_engine.Batch.{batch_tick}
use ingestion_engine.Batch.Moves.{batch_tick-Moves, batch_tick_window}
use ingestion_engine.Workers.{worker_tick}
use ingestion_engine.Workers.Moves.{worker_tick-Moves, worker_release-Moves}
use ingestion_engine.Workers.Drain.{round, rounds, IsRested, rounds_drain}
use ingestion_engine.System.Stall.{batch_tick_same}

rounds-Moves : (envs : List Env) (s : Engine) → Moves s [] (rounds envs s)
rounds-Moves [] s = Moves-same s s refl refl refl
rounds-Moves (env ∷ envs) s =
    Moves-trans (Moves-trans (worker_tick-Moves env s) (worker_release-Moves (worker_tick env s)))
      (rounds-Moves envs (round env s))

-- Where the pool is rested and the accounts hold, a tick and its
-- timeout for every 25 queued events, and then a tick of the batch ticker one flush window after the
-- last flush, leave nothing pending, and the flushed events are as many as were ever accepted.
pub all_delivered :
    (envs : List Env) (tested : ℕ) (env : Env) (s : Engine)
    → IsRested s
    → length s.pool.queue ≤ 25 * length envs
    → (rounds envs s).batch.last_flush_time + (rounds envs s).config.batch_flush_window_ms ≤ tested
    → IsConserved s
    → let u = batch_tick tested env (rounds envs s) in
      (pending u ≡ []) × (u.batch.total_events_flushed ≡ s.metrics.total_accepted)
all_delivered envs tested env s h k late c =
    let t = rounds envs s in
    let u = batch_tick tested env t in
    let due = le→leb (t.batch.last_flush_time + t.config.batch_flush_window_ms) tested late in
    let moves = Moves-trans (rounds-Moves envs s) (batch_tick-Moves tested env t) in
    let buffer : u.batch.batch_buffer ≡ [] = (batch_tick_window tested env t).0 ∙ rw due in
    let queue : u.pool.queue ≡ [] =
      ap (λ (p : Pool). p.queue) (batch_tick_same tested env t).pool ∙ rounds_drain envs s h k in
    (
      rw (buffer, queue),
      omega (
        arith,
        Moves-IsConserved moves c,
        ap length buffer,
        ap length queue,
        moves.accepted_count,
      ),
    )
