-- ===== src/Workers.antt =====
-- The worker pool of server.ts: the interval of `startWorkers`, and the timeout that releases the
-- workers of a tick.
use ingestion_engine.Prelude.{
  ℕ, ◌+◌, ◌-◌, ◌*◌, ◌/◌, min, max, Bool, ◌||◌, List, ◌++◌, if◌then◌else◌, leb, ltb, ◌==◌, length,
  take, drop,
}
use ingestion_engine.State.{Engine, Env}
use ingestion_engine.Batch.{count_threshold, trigger_flush}
pub mod Moves
pub mod Effect
pub mod Drain

-- `Math.ceil(a / b)`
unfoldable pub ceil_div : ℕ → ℕ → ℕ
ceil_div a b = (a + b - 1) / b

-- `Math.min(availableWorkers * 25, queue.length)`. A negative number of available workers stops the
-- tick before, as 0 does.
unfoldable pub chunk_size : Engine → ℕ
chunk_size s = min ((s.config.worker_count - s.pool.active_workers) * 25) (length s.pool.queue)

-- A chunk moves from the front of the queue to the end of the batch buffer.
unfoldable pub move_chunk : ℕ → Engine → Engine
unfolding ceil_div
move_chunk chunk s =
    let items = take chunk s.pool.queue in
    record s {
      pool = record s.pool {
        active_workers = min s.config.worker_count (ceil_div (length s.pool.queue) 50 + 1);
        queue = drop chunk s.pool.queue;
      };
      batch = record s.batch { batch_buffer = s.batch.batch_buffer ++ items };
      metrics = record s.metrics { total_processed = s.metrics.total_processed + length items };
    }

unfoldable pub flush_if_full : Env → Engine → Engine
flush_if_full env s =
    if leb s.config.batch_threshold (length s.batch.batch_buffer)
    then trigger_flush count_threshold env s
    else s

-- `setTimeout(…, 8)`
unfoldable pub schedule_release : Engine → Engine
schedule_release s = record s { pool = record s.pool { releases = s.pool.releases + 1 } }

unfoldable pub process_chunk : ℕ → Env → Engine → Engine
process_chunk chunk env s =
    if ltb 0 chunk then schedule_release (flush_if_full env (move_chunk chunk s)) else s

-- Why a tick returns without work: a shutdown or pause, no worker to spare, an empty queue.
unfoldable pub is_idle : Engine → Bool
is_idle s =
    (s.pool.is_shutting_down || s.pool.is_paused)
    || (leb s.config.worker_count s.pool.active_workers || length s.pool.queue == 0)

unfoldable pub worker_tick : Env → Engine → Engine
worker_tick env s = if is_idle s then s else process_chunk (chunk_size s) env s

-- The timeout that a tick has set: one less is to fire.
unfoldable pub worker_release : Engine → Engine
unfolding ceil_div
worker_release s = record s {
  pool = record s.pool {
    active_workers = max 0 (min s.config.worker_count (ceil_div (length s.pool.queue) 50));
    releases = s.pool.releases - 1;
  };
}
