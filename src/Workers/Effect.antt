-- ===== src/Workers/Effect.antt =====
-- What a tick of the workers does to the pool, with and without work.
use ingestion_engine.Prelude.{◌+◌, ◌≤◌, ◌<◌, ◌≡◌, ap, arith, length, true, false, ltb, min, drop}
use ingestion_engine.State.{Pool, Engine, Env}
use ingestion_engine.Batch.{count_threshold}
use ingestion_engine.Batch.Flush.{trigger_flush-SamePipeline}
use ingestion_engine.Workers.{
  ceil_div, chunk_size, move_chunk, flush_if_full, schedule_release, process_chunk, is_idle,
  worker_tick,
}

-- With no worker to spare a tick does nothing.
pub worker_tick_busy :
    (env : Env) (s : Engine) → s.config.worker_count ≤ s.pool.active_workers → worker_tick env s ≡ s
unfolding worker_tick is_idle
worker_tick_busy env s h = ground arith

pub flush_if_full_keeps :
    (env : Env) (s : Engine)
    → let t = flush_if_full env s in
      (t.config ≡ s.config) × (t.pool ≡ s.pool) × (t.metrics ≡ s.metrics)
unfolding flush_if_full
flush_if_full_keeps env s =
    let same = trigger_flush-SamePipeline count_threshold env s in
    ground (arith, same.config, same.pool, same.metrics)

-- The pool is at work: nothing holds it up but an empty queue.
pub record IsWorking (s : Engine) : Type 0 where
  pub running : s.pool.is_shutting_down ≡ false
  pub unpaused : s.pool.is_paused ≡ false
  pub spare : s.pool.active_workers < s.config.worker_count

not_idle : (s : Engine) → IsWorking s → 0 < length s.pool.queue → is_idle s ≡ false
unfolding is_idle
not_idle s w h = ground arith

chunk_size-pos : (s : Engine) → IsWorking s → 0 < length s.pool.queue → ltb 0 (chunk_size s) ≡ true
unfolding chunk_size
chunk_size-pos s w h = ground arith

worker_tick-eq :
    (env : Env) (s : Engine)
    → IsWorking s
    → 0 < length s.pool.queue
    → worker_tick env s ≡ schedule_release (flush_if_full env (move_chunk (chunk_size s) s))
unfolding worker_tick process_chunk
worker_tick-eq env s w h = rw (not_idle s w h, chunk_size-pos s w h)

-- A working pool takes a chunk of the queue, and the workers for it, until the timeout.
pub worker_tick_works :
    (env : Env) (s : Engine)
    → IsWorking s
    → 0 < length s.pool.queue
    → let t = worker_tick env s in
      (t.config ≡ s.config)
      × (t.pool ≡ record s.pool {
        queue = drop (chunk_size s) s.pool.queue;
        active_workers = min s.config.worker_count (ceil_div (length s.pool.queue) 50 + 1);
        releases = s.pool.releases + 1;
      })
unfolding schedule_release move_chunk
worker_tick_works env s w h =
    let moved = move_chunk (chunk_size s) s in
    let (config, pool, _) = flush_if_full_keeps env moved in
    rw (worker_tick-eq env s w h)
      (config, ap (λ (p : Pool). record p { releases = p.releases + 1 }) pool)
