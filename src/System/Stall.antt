-- ===== src/System/Stall.antt =====
-- When the worker pool of server.ts stops for good. A tick reserves workers by the length of the queue,
-- the timeout after it recomputes that number, and both are capped by the number of workers: where
-- 50 or more events wait for each worker, the timeout leaves no worker to spare, and the next tick
-- returns before it sets another timeout.
use ingestion_engine.Prelude.{
  ℕ, zero, suc, ◌+◌, ◌*◌, ◌≤◌, ◌<◌, ◌≡◌, refl, ap, ◌∙◌, arith, List, [], ◌∷◌, ◌++◌, length, Bool,
  true, false, Option, none, some, length-drop, All, if◌then◌else◌, ℤ,
}
use mathlib.Core.List.{append-nil, append_assoc}
use ingestion_engine.Event.{TelemetryEvent}
use ingestion_engine.State.{Pool, Metrics, Engine, Env}
use ingestion_engine.Batch.{batch_tick, window_timeout}
use ingestion_engine.Workers.{ceil_div, chunk_size, worker_tick, worker_release}
use ingestion_engine.Workers.Effect.{IsWorking, worker_tick_works, worker_tick_busy}
use ingestion_engine.System.{
  Action, single, many, measure, configure, start, stop, shutdown, tick_workers, release_workers,
  tick_batch, tick_metrics, tick_load, end_shutdown, fire_release, fire_reset, step, run,
}
use ingestion_engine.System.Order.{admissions, all_admissions, admitted_load, load_batch}
use ingestion_engine.Batch.Flush.{SamePipeline, trigger_flush-SamePipeline}
use ingestion_engine.Ingest.{ingest_batch}
use ingestion_engine.Ingest.Admits.{Admits}
use ingestion_engine.Ingest.Single.{ingest_single-Admits}
use ingestion_engine.Ingest.Many.{admitted_batch, ingest_batch-Admits}
use ingestion_engine.LoadTest.{
  Draw, start_load_test, stop_load_test, load_test_tick, load_test_fire,
}
use ingestion_engine.Shutdown.{reset_shutdown}
use ingestion_engine.Report.{get_metrics, metrics_tick}

-- No worker is to spare, and no timeout is set that would release one.
pub record IsStalled (s : Engine) : Type 0 where
  pub busy : s.config.worker_count ≤ s.pool.active_workers
  pub unset : s.pool.releases ≡ 0

-- What happens without an operator: no new configuration and no simulated shutdown.
abbrev pub IsRoutine : Action → Type 0
IsRoutine (configure u) = ⊥
IsRoutine shutdown = ⊥
IsRoutine _ = Unit {0}

pub fire_release-pos : (n : ℕ) (s : Engine) → 0 < n → fire_release n s ≡ worker_release s
unfolding fire_release
fire_release-pos zero s h = absurd (omega arith)
fire_release-pos (suc n) s h = refl

fire_release-zero : (n : ℕ) (s : Engine) → n ≡ 0 → fire_release n s ≡ s
unfolding fire_release
fire_release-zero zero s h = refl
fire_release-zero (suc n) s h = absurd (omega arith)

-- A pool with no shutdown or pause on, no worker reserved and no timeout set, that meets 75 events
-- or more for each of its workers, is stalled after one tick and its timeout, with all but 25 events
-- for each worker still in the queue.
pub overload_stalls :
    (env env' : Env) (s : Engine)
    → IsWorking s
    → s.pool.active_workers ≡ 0
    → s.pool.releases ≡ 0
    → 75 * s.config.worker_count ≤ length s.pool.queue
    → let t = run ((env, tick_workers) ∷ (env', release_workers) ∷ []) s in
      IsStalled t × (length t.pool.queue + 25 * s.config.worker_count ≡ length s.pool.queue)
unfolding run step worker_release chunk_size ceil_div
overload_stalls env env' s w idle unset h =
    let t = worker_tick env s in
    let (config, pool) = worker_tick_works env s w (omega (arith, w.spare)) in
    let cut = length-drop (chunk_size s) s.pool.queue in
    let left : length t.pool.queue + 25 * s.config.worker_count ≡ length s.pool.queue =
      rw pool (omega arith) in
    let set : t.pool.releases ≡ 1 = rw pool (omega arith) in
    rw (fire_release-pos t.pool.releases t (omega arith))
      (record { busy = rw config (omega arith); unset = omega arith }, left)

-- A stalled engine: what is accepted joins the queue, and nothing leaves it.
abbrev pub Grows : Engine → List TelemetryEvent → Engine → Type 0
Grows s ads t =
    IsStalled t
    × (t.pool.queue ≡ s.pool.queue ++ ads)
    × (t.metrics.total_processed ≡ s.metrics.total_processed)

Admits-Grows :
    {s t : Engine} {ads : List TelemetryEvent} → IsStalled s → Admits s ads t → Grows s ads t
Admits-Grows {s} {t} {ads} h a = (
  record { busy = rw (a.config, a.pool) h.busy; unset = rw a.pool h.unset },
  rw a.pool,
  a.processed,
)

same-Grows :
    (s t : Engine)
    → IsStalled s
    → t.config ≡ s.config
    → t.pool.queue ≡ s.pool.queue
    → t.pool.active_workers ≡ s.pool.active_workers
    → t.pool.releases ≡ s.pool.releases
    → t.metrics.total_processed ≡ s.metrics.total_processed
    → Grows s [] t
same-Grows s t h c q a r p = (
  record { busy = rw c (omega (arith, h.busy)); unset = omega (arith, h.unset) },
  rw append-nil q,
  p,
)

pub batch_tick_same :
    (tested : ℕ) (env : Env) (s : Engine) → SamePipeline s (batch_tick tested env s)
unfolding batch_tick
batch_tick_same tested env s =
    let same = trigger_flush-SamePipeline window_timeout env s in
    ground (arith, same.config, same.limiter, same.pool, same.metrics, same.load)

load_test_tick-Grows :
    (env : Env) (draws : ℕ → Draw) (wave : ℤ) (s : Engine)
    → IsStalled s
    → Grows s (admissions env (tick_load draws wave) s) (step env (tick_load draws wave) s)
unfolding step load_test_tick load_test_fire
load_test_tick-Grows env draws wave s h = go s.load.load_test_timer
  where
    go :
        (timer : Option ℕ)
        → Grows s
            (admitted_load env draws wave timer s)
            (elim timer [ none ↦ s | some per_tick ↦ load_test_fire env draws wave per_tick s ])
    go none = same-Grows s s h refl refl refl refl refl
    go (some per_tick) = sent s.load.load_test_active
      where
        batch : List TelemetryEvent
        batch = load_batch draws wave per_tick s

        sent :
            (active : Bool)
            → Grows s
                (if active then admitted_batch env batch s else [])
                (if active then (ingest_batch env batch s).1 else s)
        sent true = Admits-Grows h (ingest_batch-Admits env batch s)
        sent false = same-Grows s s h refl refl refl refl refl

fire_reset-Grows : (n : ℕ) (s : Engine) → IsStalled s → Grows s [] (fire_reset n s)
unfolding fire_reset reset_shutdown
fire_reset-Grows zero s h = same-Grows s s h refl refl refl refl refl
fire_reset-Grows (suc n) s h = same-Grows s _ h refl refl refl refl refl

step-Grows :
    (env : Env) (a : Action) (s : Engine)
    → IsRoutine a
    → IsStalled s
    → Grows s (admissions env a s) (step env a s)
unfolding step get_metrics start_load_test stop_load_test metrics_tick
step-Grows env (single ev) s r h = Admits-Grows h (ingest_single-Admits env ev s)
step-Grows env (many evs) s r h = Admits-Grows h (ingest_batch-Admits env evs s)
step-Grows env measure s r h = same-Grows s _ h refl refl refl refl refl
step-Grows env (configure u) s r h = absurd r
step-Grows env (start rps scenario) s r h = same-Grows s _ h refl refl refl refl refl
step-Grows env stop s r h = same-Grows s _ h refl refl refl refl refl
step-Grows env shutdown s r h = absurd r
step-Grows env tick_workers s r h =
    rw (worker_tick_busy env s h.busy) (same-Grows s s h refl refl refl refl refl)
step-Grows env release_workers s r h =
    rw (fire_release-zero s.pool.releases s h.unset) (same-Grows s s h refl refl refl refl refl)
step-Grows env (tick_batch tested) s r h =
    let same = batch_tick_same tested env s in
    same-Grows s _ h same.config (ap (λ (p : Pool). p.queue) same.pool)
      (ap (λ (p : Pool). p.active_workers) same.pool) (ap (λ (p : Pool). p.releases) same.pool)
      (ap (λ (m : Metrics). m.total_processed) same.metrics)
step-Grows env tick_metrics s r h = same-Grows s _ h refl refl refl refl refl
step-Grows env (tick_load draws wave) s r h = load_test_tick-Grows env draws wave s h
step-Grows env end_shutdown s r h = fire_reset-Grows s.pool.resets s h

-- A stalled engine, with no worker to spare and no timeout set that would release one, stays so,
-- whatever requests come and timers fire, short of a new configuration or a simulated shutdown: no event leaves the queue, and each accepted event only makes it longer.
pub stall_lasts :
    (actions : List (Env × Action)) (s : Engine)
    → All (λ c. IsRoutine c.1) actions
    → IsStalled s
    → Grows s (all_admissions actions s) (run actions s)
unfolding run
stall_lasts [] s r h = same-Grows s s h refl refl refl refl refl
stall_lasts ((env, a) ∷ rest) s (r, rs) h =
    let t = step env a s in
    let (stalled, queue, processed) = step-Grows env a s r h in
    let (stalled', queue', processed') = stall_lasts rest t rs stalled in
    (
      stalled',
      queue'
          ∙ ap (λ (l : List TelemetryEvent). l ++ all_admissions rest t) queue
          ∙ append_assoc s.pool.queue (admissions env a s) (all_admissions rest t),
      processed' ∙ processed,
    )
