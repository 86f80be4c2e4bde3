-- ===== src/System/Recovery.antt =====
-- Exactly when one tick and its timeout stall the pool, and what sets it going again.
use ingestion_engine.Prelude.{
  ◌+◌, ◌-◌, ◌*◌, ◌<◌, ◌≡◌, ◌↔◌, arith, [], ◌∷◌, length, false, length-drop,
}
use ingestion_engine.State.{Engine, Env}
use ingestion_engine.Workers.{ceil_div, chunk_size, worker_tick, worker_release}
use ingestion_engine.Workers.Effect.{IsWorking, worker_tick_works}
use ingestion_engine.Tuning.{ConfigUpdate, update_config}
use ingestion_engine.System.{tick_workers, release_workers, step, run}
use ingestion_engine.System.Stall.{IsStalled, fire_release-pos}

-- A pool with no shutdown or pause on, no worker reserved and no timeout set, that meets a queue: after
-- one tick and its timeout it is stalled exactly if the queue held more than 75 events for each worker
-- less 50.
pub stalls_iff :
    (env env' : Env) (s : Engine)
    → IsWorking s
    → s.pool.active_workers ≡ 0
    → s.pool.releases ≡ 0
    → 0 < length s.pool.queue
    → IsStalled (run ((env, tick_workers) ∷ (env', release_workers) ∷ []) s)
      ↔ (75 * s.config.worker_count < length s.pool.queue + 50)
unfolding run step worker_release chunk_size ceil_div
stalls_iff env env' s w idle unset h =
    let t = worker_tick env s in
    let (config, pool) = worker_tick_works env s w h in
    let cut = length-drop (chunk_size s) s.pool.queue in
    let set : t.pool.releases ≡ 1 = rw pool (omega arith) in
    rw (fire_release-pos t.pool.releases t (omega arith), config, pool)
      (
        λ b. omega (arith, b.busy, cut, w.spare),
        λ m. record { busy = omega (arith, cut, m); unset = omega (arith, set) },
      )

-- A configuration with more workers sets a stalled pool going: where neither a shutdown nor a pause is
-- on and events wait, the next tick takes 25 of them for each worker more than those reserved, or all.
pub more_workers_recover :
    (env env' : Env) (u : ConfigUpdate) (s : Engine)
    → IsStalled s
    → s.pool.is_shutting_down ≡ false
    → s.pool.is_paused ≡ false
    → 0 < length s.pool.queue
    → s.pool.active_workers < (update_config env u s).config.worker_count
    → let t = update_config env u s in
      let v = worker_tick env' t in
      length v.pool.queue
      ≡ length s.pool.queue - (t.config.worker_count - s.pool.active_workers) * 25
unfolding update_config chunk_size
more_workers_recover env env' u s h running unpaused waiting more =
    let t = update_config env u s in
    let working : IsWorking t = record { running = running; unpaused = unpaused; spare = more } in
    let (_, pool) = worker_tick_works env' t working waiting in
    rw pool (omega (arith, length-drop (chunk_size t) s.pool.queue))
