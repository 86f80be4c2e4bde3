-- ===== src/System/Order.antt =====
-- Over any history: first in, first out, and no accepted event is lost.
use ingestion_engine.Prelude.{
  ℕ, zero, suc, ◌≡◌, refl, sym, arith, List, [], ◌∷◌, ◌++◌, length, Bool, true, false, Option, none,
  some, if◌then◌else◌, ℤ,
}
use mathlib.Core.List.{append_assoc}
use ingestion_engine.Event.{TelemetryEvent}
use ingestion_engine.State.{Engine, Env}
use ingestion_engine.Pipeline.{
  Moves, Moves-keep, Moves-same, Moves-trans, IsConserved, Moves-IsConserved,
}
use ingestion_engine.Batch.Moves.{batch_tick-Moves}
use ingestion_engine.Workers.Moves.{worker_tick-Moves, worker_release-Moves}
use ingestion_engine.Ingest.{ingest_single, ingest_batch}
use ingestion_engine.Ingest.Admits.{Admits}
use ingestion_engine.Ingest.Single.{completed, admitted, ingest_single-Admits}
use ingestion_engine.Ingest.Many.{admitted_batch, ingest_batch-Admits}
use ingestion_engine.Tuning.{update_config}
use ingestion_engine.LoadTest.{
  Draw, start_load_test, stop_load_test, load_test_tick, load_test_fire, mock_batch,
  tick_batch_count,
}
use ingestion_engine.Shutdown.{reset_shutdown}
use ingestion_engine.Shutdown.Drain.{shutdown-Moves}
use ingestion_engine.Report.{get_metrics, metrics_tick}
use ingestion_engine.System.{
  Action, single, many, measure, configure, start, stop, shutdown, tick_workers, release_workers,
  tick_batch, tick_metrics, tick_load, end_shutdown, fire_release, fire_reset, step, run,
  new_engine,
}

-- The batch that a tick of the load generator sends.
abbrev pub load_batch : (ℕ → Draw) → ℤ → ℕ → Engine → List TelemetryEvent
load_batch draws wave per_tick s =
    mock_batch draws (tick_batch_count s.load.load_test_scenario wave per_tick) 0

abbrev pub admitted_load : Env → (ℕ → Draw) → ℤ → Option ℕ → Engine → List TelemetryEvent
admitted_load env draws wave none s = []
admitted_load env draws wave (some per_tick) s =
    if s.load.load_test_active then admitted_batch env (load_batch draws wave per_tick s) s else []

-- The events that an action gets into the queue.
abbrev pub admissions : Env → Action → Engine → List TelemetryEvent
admissions env (single ev) s = admitted (ingest_single env ev s).0.status (completed env ev)
admissions env (many evs) s = admitted_batch env evs s
admissions env (tick_load draws wave) s = admitted_load env draws wave s.load.load_test_timer s
admissions env _ s = []

abbrev pub all_admissions : List (Env × Action) → Engine → List TelemetryEvent
all_admissions [] s = []
all_admissions ((env, a) ∷ rest) s = admissions env a s ++ all_admissions rest (step env a s)

Admits-Moves : {s t : Engine} {ads : List TelemetryEvent} → Admits s ads t → Moves s ads t
Admits-Moves {s} {t} {ads} a =
    Moves-keep s t ads
      (rw (a.pool, a.batch) (sym (append_assoc s.batch.batch_buffer s.pool.queue ads))) (rw a.batch)
      a.accepted

load_test_tick-Moves :
    (env : Env) (draws : ℕ → Draw) (wave : ℤ) (s : Engine)
    → Moves s
        (admitted_load env draws wave s.load.load_test_timer s)
        (load_test_tick env draws wave s)
unfolding load_test_tick load_test_fire
load_test_tick-Moves env draws wave s = go s.load.load_test_timer
  where
    go :
        (timer : Option ℕ)
        → Moves s
            (admitted_load env draws wave timer s)
            (elim timer [ none ↦ s | some per_tick ↦ load_test_fire env draws wave per_tick s ])
    go none = Moves-same s s refl refl refl
    go (some per_tick) = sent s.load.load_test_active
      where
        batch : List TelemetryEvent
        batch = load_batch draws wave per_tick s

        sent :
            (active : Bool)
            → Moves s
                (if active then admitted_batch env batch s else [])
                (if active then (ingest_batch env batch s).1 else s)
        sent true = Admits-Moves (ingest_batch-Admits env batch s)
        sent false = Moves-same s s refl refl refl

fire_release-Moves : (n : ℕ) (s : Engine) → Moves s [] (fire_release n s)
unfolding fire_release
fire_release-Moves zero s = Moves-same s s refl refl refl
fire_release-Moves (suc n) s = worker_release-Moves s

fire_reset-Moves : (n : ℕ) (s : Engine) → Moves s [] (fire_reset n s)
unfolding fire_reset reset_shutdown
fire_reset-Moves zero s = Moves-same s s refl refl refl
fire_reset-Moves (suc n) s = Moves-same s _ refl refl refl

-- Every action moves events along the pipeline in their order, and loses none.
pub step-Moves : (env : Env) (a : Action) (s : Engine) → Moves s (admissions env a s) (step env a s)
unfolding step update_config start_load_test stop_load_test get_metrics metrics_tick
step-Moves env (single ev) s = Admits-Moves (ingest_single-Admits env ev s)
step-Moves env (many evs) s = Admits-Moves (ingest_batch-Admits env evs s)
step-Moves env measure s = Moves-same s _ refl refl refl
step-Moves env (configure u) s = Moves-same s _ refl refl refl
step-Moves env (start rps scenario) s = Moves-same s _ refl refl refl
step-Moves env stop s = Moves-same s _ refl refl refl
step-Moves env shutdown s = shutdown-Moves env s
step-Moves env tick_workers s = worker_tick-Moves env s
step-Moves env release_workers s = fire_release-Moves s.pool.releases s
step-Moves env (tick_batch tested) s = batch_tick-Moves tested env s
step-Moves env tick_metrics s = Moves-same s _ refl refl refl
step-Moves env (tick_load draws wave) s = load_test_tick-Moves env draws wave s
step-Moves env end_shutdown s = fire_reset-Moves s.pool.resets s

pub run-Moves :
    (actions : List (Env × Action)) (s : Engine)
    → Moves s (all_admissions actions s) (run actions s)
unfolding run
run-Moves [] s = Moves-same s s refl refl refl
run-Moves ((env, a) ∷ rest) s = Moves-trans (step-Moves env a s) (run-Moves rest (step env a s))

-- From a new engine, whatever requests come and timers fire: the accepted events, in the order in
-- which they were accepted, are those that were flushed, then those in the batch buffer, then those
-- in the queue; and the totals count the accepted and the flushed.
pub run_fifo :
    (env : Env) (actions : List (Env × Action))
    → let t = run actions (new_engine env) in
      let accepted = all_admissions actions (new_engine env) in
      (flushed : List TelemetryEvent) × (flushed ++ (t.batch.batch_buffer ++ t.pool.queue)
        ≡ accepted)
      × (t.batch.total_events_flushed ≡ length flushed)
      × (t.metrics.total_accepted ≡ length accepted)
unfolding new_engine
run_fifo env actions =
    let m = run-Moves actions (new_engine env) in
    (m.flushed, m.order, omega (arith, m.flushed_count), omega (arith, m.accepted_count))

-- So each accepted event is flushed, in the buffer or in the queue: the three numbers add up.
pub run-IsConserved :
    (env : Env) (actions : List (Env × Action)) → IsConserved (run actions (new_engine env))
unfolding new_engine
run-IsConserved env actions = Moves-IsConserved (run-Moves actions (new_engine env)) refl
