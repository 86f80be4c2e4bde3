-- ===== src/Workers/Moves.antt =====
-- A tick of the workers, as a move of the pipeline.
use ingestion_engine.Prelude.{
  ℕ, refl, ap, ◌∙◌, [], ◌++◌, length, ltb, leb, inl, inr, Bool-cases, take, drop, take-append-drop,
}
use mathlib.Core.List.{append_assoc}
use ingestion_engine.State.{Engine, Env}
use ingestion_engine.Pipeline.{Moves, Moves-same, Moves-trans}
use ingestion_engine.Batch.{count_threshold}
use ingestion_engine.Batch.Moves.{trigger_flush-Moves}
use ingestion_engine.Workers.{
  chunk_size, move_chunk, flush_if_full, schedule_release, process_chunk, is_idle, worker_tick,
  worker_release,
}

-- A chunk that goes from the queue to the buffer keeps its place in the line.
move_chunk-Moves : (chunk : ℕ) (s : Engine) → Moves s [] (move_chunk chunk s)
unfolding move_chunk
move_chunk-Moves chunk s =
    Moves-same s _
      (append_assoc s.batch.batch_buffer (take chunk s.pool.queue) (drop chunk s.pool.queue)
        ∙ ap (◌++◌ s.batch.batch_buffer) (take-append-drop chunk s.pool.queue))
      refl refl

flush_if_full-Moves : (env : Env) (s : Engine) → Moves s [] (flush_if_full env s)
unfolding flush_if_full
flush_if_full-Moves env s =
    elim (Bool-cases (leb s.config.batch_threshold (length s.batch.batch_buffer))) [
      | inl e ↦ rw e (trigger_flush-Moves count_threshold env s)
      | inr e ↦ rw e (Moves-same s s refl refl refl)
    ]

schedule_release-Moves : (s : Engine) → Moves s [] (schedule_release s)
unfolding schedule_release
schedule_release-Moves s = Moves-same s _ refl refl refl

process_chunk-Moves : (chunk : ℕ) (env : Env) (s : Engine) → Moves s [] (process_chunk chunk env s)
unfolding process_chunk
process_chunk-Moves chunk env s = elim (Bool-cases (ltb 0 chunk)) [
  | inl e ↦ rw e (
      Moves-trans (move_chunk-Moves chunk s) (
        Moves-trans (flush_if_full-Moves env (move_chunk chunk s))
          (schedule_release-Moves (flush_if_full env (move_chunk chunk s)))))
  | inr e ↦ rw e (Moves-same s s refl refl refl)
]

pub worker_tick-Moves : (env : Env) (s : Engine) → Moves s [] (worker_tick env s)
unfolding worker_tick
worker_tick-Moves env s = elim (Bool-cases (is_idle s)) [
  | inl e ↦ rw e (Moves-same s s refl refl refl)
  | inr e ↦ rw e (process_chunk-Moves (chunk_size s) env s)
]

pub worker_release-Moves : (s : Engine) → Moves s [] (worker_release s)
unfolding worker_release
worker_release-Moves s = Moves-same s _ refl refl refl
