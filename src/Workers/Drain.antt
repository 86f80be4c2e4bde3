-- ===== src/Workers/Drain.antt =====
-- The workers drain a queue that is not too long for them: at most 50 events for each worker but one.
use ingestion_engine.Prelude.{
  ◌+◌, ◌-◌, ◌*◌, ◌≤◌, ◌≡◌, refl, arith, List, [], ◌∷◌, length, false, inl, inr, length-drop,
  eq_nil_of_length, ltb, Bool-cases,
}
use ingestion_engine.State.{Engine, Env}
use ingestion_engine.Workers.{ceil_div, chunk_size, worker_tick, worker_release, is_idle}
use ingestion_engine.Workers.Effect.{IsWorking, worker_tick_works}

-- A tick and the timeout that it sets.
abbrev pub round : Env → Engine → Engine
round env s = worker_release (worker_tick env s)

abbrev pub rounds : List Env → Engine → Engine
rounds [] s = s
rounds (env ∷ envs) s = rounds envs (round env s)

-- The workers of the last tick are released, and the queue is not too long.
pub record IsRested (s : Engine) : Type 0 where
  pub running : s.pool.is_shutting_down ≡ false
  pub unpaused : s.pool.is_paused ≡ false
  pub released : s.pool.active_workers ≤ ceil_div (length s.pool.queue) 50
  pub short : length s.pool.queue + 50 ≤ 50 * s.config.worker_count

IsRested-IsWorking : (s : Engine) → IsRested s → IsWorking s
unfolding ceil_div
IsRested-IsWorking s h = record {
  running = h.running;
  unpaused = h.unpaused;
  spare = omega (arith, h.released, h.short);
}

worker_tick_empty : (env : Env) (s : Engine) → length s.pool.queue ≡ 0 → worker_tick env s ≡ s
unfolding worker_tick is_idle
worker_tick_empty env s h = ground arith

-- The timeout leaves the engine rested, if the tick left the flags and shortened the queue.
worker_release-IsRested :
    (s t : Engine)
    → IsRested s
    → t.config ≡ s.config
    → t.pool.is_shutting_down ≡ s.pool.is_shutting_down
    → t.pool.is_paused ≡ s.pool.is_paused
    → length t.pool.queue ≤ length s.pool.queue
    → IsRested (worker_release t)
unfolding worker_release
worker_release-IsRested s t h c r p q = record {
  running = ground (arith, h.running);
  unpaused = ground (arith, h.unpaused);
  released = omega arith;
  short = rw c (omega (arith, h.short));
}

worker_release-queue : (t : Engine) → (worker_release t).pool.queue ≡ t.pool.queue
unfolding worker_release
worker_release-queue t = refl

tick_shortens :
    (env : Env) (s : Engine)
    → IsRested s
    → let t = worker_tick env s in
      (t.config ≡ s.config)
      × (t.pool.is_shutting_down ≡ s.pool.is_shutting_down)
      × (t.pool.is_paused ≡ s.pool.is_paused)
      × (length t.pool.queue ≤ length s.pool.queue - 25)
unfolding chunk_size
tick_shortens env s h = elim (Bool-cases (ltb 0 (length s.pool.queue))) [
  | inr empty ↦
      let no_events : length s.pool.queue ≡ 0 = ground arith in
      rw (worker_tick_empty env s no_events) (refl, refl, refl, omega arith)
  | inl some ↦
      let working = IsRested-IsWorking s h in
      let (config, pool) = worker_tick_works env s working (ground arith) in
      (
        config,
        rw pool,
        rw pool,
        rw pool (omega (arith, length-drop (chunk_size s) s.pool.queue, working.spare)),
      )
]

round-IsRested :
    (env : Env) (s : Engine)
    → IsRested s
    → IsRested (round env s) × (length (round env s).pool.queue ≤ length s.pool.queue - 25)
round-IsRested env s h =
    let t = worker_tick env s in
    let (config, running, unpaused, shorter) = tick_shortens env s h in
    (
      worker_release-IsRested s t h config running unpaused (omega arith),
      rw (worker_release-queue t) shorter,
    )

-- Where no shutdown or pause is on, no more workers are reserved than the queue needs, and 50 events for
-- each worker but one wait at most, a tick and its timeout for every 25 events empty the queue.
pub rounds_drain :
    (envs : List Env) (s : Engine)
    → IsRested s
    → length s.pool.queue ≤ 25 * length envs
    → (rounds envs s).pool.queue ≡ []
rounds_drain [] s h k = eq_nil_of_length s.pool.queue (omega arith)
rounds_drain (env ∷ envs) s h k =
    let (rested, shorter) = round-IsRested env s h in
    rounds_drain envs (round env s) rested (omega arith)
