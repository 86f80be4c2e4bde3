-- ===== src/Shutdown.antt =====
-- `simulateGracefulShutdown` of server.ts, and the timeout that ends the simulation.
use ingestion_engine.Prelude.{
  ℕ, ◌+◌, ◌-◌, Bool, true, false, none, some, [], ◌∷◌, ◌++◌, length, pos,
}
use ingestion_engine.Event.{info, warn, number, text}
use ingestion_engine.State.{Engine, Env}
use ingestion_engine.Logs.{add_log}
use ingestion_engine.Batch.{graceful_shutdown, trigger_flush, hundredths}
use ingestion_engine.LoadTest.{stop_load_test}
pub mod Drain
pub mod Open

pub record ShutdownReport : Type 0 where
  pub drained_queue : ℕ
  pub flushed_batch : ℕ
  pub shutdown_duration : ℕ
  pub exit_code : ℕ

-- The flag, the end of the load test and the first log line.
unfoldable pub begin_shutdown : Env → Engine → Engine
begin_shutdown env s =
    let stopped =
      stop_load_test env (record s { pool = record s.pool { is_shutting_down = true } }) in
    record stopped {
      logs =
          add_log env.log_time warn "Caught SIGTERM signal; beginning graceful channel draining"
            "main.SignalHandler"
            (("signal", text (some "SIGTERM"))
              ∷ ("queue_items_pending", number (pos (length stopped.pool.queue)))
              ∷ ("buffer_items_pending", number (pos (length stopped.batch.batch_buffer)))
              ∷ [])
            stopped.logs;
    }

-- Step A: the queue moves to the buffer.
unfoldable pub drain_queue : Engine → Engine
drain_queue s = record s {
  pool = record s.pool { queue = [] };
  batch = record s.batch { batch_buffer = s.batch.batch_buffer ++ s.pool.queue };
}

-- The last log line and the timeout of two seconds.
unfoldable pub end_shutdown : Env → Engine → Engine
end_shutdown env s = record s {
  pool = record s.pool { resets = s.pool.resets + 1 };
  logs =
      add_log env.log_time info "All worker routines flushed and decoupled safely. Exit code 0"
        "main.GracefulShutdown"
        (("duration_ms", number (pos (hundredths (env.shutdown_stop - env.shutdown_start))))
          ∷ ("packets_dropped", number (pos 0))
          ∷ [])
        s.logs;
}

unfoldable pub simulate_graceful_shutdown : Env → Engine → ShutdownReport × Engine
simulate_graceful_shutdown env s =
    let begun = begin_shutdown env s in
    let drained = drain_queue begun in
    let flushed = trigger_flush graceful_shutdown env drained in
    (
      record {
        drained_queue = length begun.pool.queue;
        flushed_batch = length drained.batch.batch_buffer;
        shutdown_duration = hundredths (env.shutdown_stop - env.shutdown_start);
        exit_code = 0;
      },
      end_shutdown env flushed,
    )

-- The timeout that a shutdown has set: one less is to fire.
unfoldable pub reset_shutdown : Engine → Engine
reset_shutdown s = record s {
  pool = record s.pool { is_shutting_down = false; resets = s.pool.resets - 1 };
}
