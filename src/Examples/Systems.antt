-- ===== src/Examples/Systems.antt =====
-- The theorems on the engine as a whole at concrete histories.
use ingestion_engine.Prelude.{◌<◌, ◌≡◌, ◌↔◌, refl, arith, none, some, List, [], ◌∷◌, length, pos}
use ingestion_engine.State.{Engine, Env}
use ingestion_engine.Pipeline.{pending}
use ingestion_engine.Batch.{batch_tick, flush_events, trigger_flush}
use ingestion_engine.Workers.{
  worker_tick, worker_release, is_idle, chunk_size, process_chunk, move_chunk, flush_if_full,
  schedule_release,
}
use ingestion_engine.Workers.Drain.{rounds}
use ingestion_engine.LoadTest.{Draw, start_load_test}
use ingestion_engine.Tuning.{ConfigUpdate, update_config}
use ingestion_engine.System.{
  Action, single, stop, tick_workers, release_workers, tick_load, run, new_engine,
}
use ingestion_engine.System.Delivery.{all_delivered}
use ingestion_engine.System.Stall.{IsStalled}
use ingestion_engine.System.Recovery.{stalls_iff, more_workers_recover}
use ingestion_engine.System.Numbers.{IsNumbered, run-IsNumbered}
use ingestion_engine.System.Silence.{without_load, stopped_silent}
use ingestion_engine.Examples.Data.{small, env, at_time, login, copies, loaded, history}

-- 30 events that were accepted and wait.
abbrev waiting : Engine
waiting =
    let s = loaded (copies 30 login) [] in
    record s { metrics = record s.metrics { total_accepted = 30 } }

all_delivered_example :
    let t = rounds (at_time 1010 ∷ at_time 1020 ∷ []) waiting in
    let u = batch_tick 5000 (at_time 5001) t in
    (pending u ≡ []) × (u.batch.total_events_flushed ≡ 30)
unfolding worker_tick worker_release is_idle chunk_size process_chunk move_chunk flush_if_full
    schedule_release trigger_flush flush_events
all_delivered_example =
    all_delivered (at_time 1010 ∷ at_time 1020 ∷ []) 5000 (at_time 5001) waiting
      (record { running = refl; unpaused = refl; released = omega arith; short = omega arith })
      (omega arith) (omega arith) refl

-- 150 events for two workers.
abbrev overloaded : Engine
overloaded = loaded (copies 150 login) []

stalls_iff_example :
    IsStalled (run ((env, tick_workers) ∷ (at_time 1008, release_workers) ∷ []) overloaded)
    ↔ (150 < 200)
stalls_iff_example =
    stalls_iff env (at_time 1008) overloaded
      (record { running = refl; unpaused = refl; spare = omega arith }) refl refl (omega arith)

abbrev stalled : Engine
stalled =
    let s = loaded (copies 60 login) [] in record s { pool = record s.pool { active_workers = 2 } }

abbrev four_workers : ConfigUpdate
four_workers = record {
  worker_count = some (pos 4);
  channel_capacity = none;
  batch_threshold = none;
  batch_flush_window_ms = none;
  rate_limit_rps = none;
  rate_limit_burst = none;
}

more_workers_recover_example :
    length (worker_tick (at_time 1010) (update_config env four_workers stalled)).pool.queue ≡ 10
unfolding update_config
more_workers_recover_example =
    more_workers_recover env (at_time 1010) four_workers stalled
      (record { busy = omega arith; unset = refl }) refl refl (omega arith) (omega arith)

run-IsNumbered_example : IsNumbered (run history (new_engine env)).batch
run-IsNumbered_example = run-IsNumbered env history

abbrev draw : Draw
draw = record {
  random_text = "k2";
  service = 1;
  host_name = "node-3.prod";
  level = 2;
  iso = "2024-01-01T00:00:00.000Z";
  payload = "{}";
}

abbrev idle_ticks : List (Env × Action)
idle_ticks =
    (at_time 1000, single login)
    ∷ (at_time 1025, tick_load (λ i. draw) (pos 0))
    ∷ (at_time 1030, tick_workers)
    ∷ (at_time 1050, tick_load (λ i. draw) (pos 0))
    ∷ []

-- A load test runs.
abbrev tested : Engine
tested = start_load_test env 1000 "normal" small

stopped_silent_example :
    run ((env, stop) ∷ idle_ticks) tested ≡ run ((env, stop) ∷ without_load idle_ticks) tested
stopped_silent_example =
    stopped_silent env stop idle_ticks tested refl (refl, (refl, (refl, (refl, tt))))
