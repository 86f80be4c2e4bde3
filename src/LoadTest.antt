-- ===== src/LoadTest.antt =====
-- The load generator of server.ts: `startLoadTest`, `stopLoadTest` and the interval that it starts.
-- The interval's closure holds the events per tick: `load_test_timer` is that number while the
-- interval is set.
use Prim.Native.String.{◌++◌ as concat}
use package.text.Mathlib.Text.{◌==◌ as str_eq}
use ingestion_engine.Prelude.{
  ℕ, zero, suc, ◌+◌, ◌*◌, max, String, Bool, true, false, Option, none, some, List, [], ◌∷◌, ◌++◌,
  if◌then◌else◌, ℤ, pos, pos_part, ◌+ℤ◌, ◌*ℤ◌, floor_div, get_or,
}
use ingestion_engine.Event.{TelemetryEvent, Level, debug, info, warn, error, number, text}
use ingestion_engine.State.{Engine, Env}
use ingestion_engine.Logs.{add_log}
use ingestion_engine.Workers.{ceil_div}
use ingestion_engine.Ingest.{ingest_batch}
pub mod Dos
pub mod Cases
pub mod Waves

unfoldable pub stop_load_test : Env → Engine → Engine
stop_load_test env s = record s {
  load = record s.load { load_test_active = false; load_test_timer = none };
  logs =
      add_log env.log_time info "Companion Load Test Generator halted" "benchmarks.Stop" [] s.logs;
}

unfoldable pub start_load_test : Env → ℕ → String → Engine → Engine
unfolding ceil_div
start_load_test env target_rps scenario s =
    let stopped = stop_load_test env s in
    record stopped {
      load = record {
        load_test_active = true;
        load_test_timer = some (ceil_div target_rps 40);
        load_test_target_rps = target_rps;
        load_test_scenario = scenario;
      };
      logs =
          add_log env.log_time info "Companion Load Test Generator started" "benchmarks.Start"
            (("target_rps", number (pos target_rps))
              ∷ ("scenario", text (some scenario))
              ∷ ("client_count", number (pos 50))
              ∷ [])
            stopped.logs;
    }

-- The random choices of one mock event, and its texts.
pub record Draw : Type 0 where
  pub random_text : String
  pub service : ℕ
  pub host_name : String
  pub level : ℕ
  pub iso : String
  pub payload : String

unfoldable pub services : List String
services =
    "payment-svc" ∷ "auth-svc" ∷ "telemetry-collector" ∷ "order-orchestrator" ∷ "inventory-db" ∷ []

unfoldable pub levels : List Level
levels = info ∷ info ∷ info ∷ warn ∷ debug ∷ error ∷ []

unfoldable pub mock_event : Draw → TelemetryEvent
unfolding services levels
mock_event d = record {
  id = none;
  trace_id = some (concat "tr-" d.random_text);
  span_id = none;
  service = some (get_or services d.service "payment-svc");
  host = some d.host_name;
  level = some (get_or levels d.level info);
  message = some "High-velocity telemetry event ingested via benchmark worker";
  payload = some d.payload;
  timestamp = some d.iso;
  latency_ns = none;
}

-- The loop that makes events `i`, `i + 1`, …, as many as `left`.
unfoldable pub mock_batch : (ℕ → Draw) → ℕ → ℕ → List TelemetryEvent
mock_batch draws zero i = []
mock_batch draws (suc left) i = mock_event (draws i) ∷ mock_batch draws left (suc i)

-- The size of a tick's batch. `wave` is `Math.sin(Date.now() / 1500)` in millionths.
unfoldable pub tick_batch_count : String → ℤ → ℕ → ℕ
tick_batch_count scenario wave per_tick =
    if str_eq scenario "burst"
    then max 10
        (pos_part (floor_div (pos per_tick *ℤ (pos 10_000_000 +ℤ pos 9 *ℤ wave)) 10_000_000))
    else if str_eq scenario "dos_attack"
    then per_tick * 4
    else per_tick

-- The interval's closure.
unfoldable pub load_test_fire : Env → (ℕ → Draw) → ℤ → ℕ → Engine → Engine
unfolding mock_batch tick_batch_count
load_test_fire env draws wave per_tick s =
    if s.load.load_test_active
    then (ingest_batch env
        (mock_batch draws (tick_batch_count s.load.load_test_scenario wave per_tick) 0) s).1
    else s

-- It fires only while the interval is set.
unfoldable pub load_test_tick : Env → (ℕ → Draw) → ℤ → Engine → Engine
unfolding load_test_fire
load_test_tick env draws wave s = elim s.load.load_test_timer [
  | none ↦ s
  | some per_tick ↦ load_test_fire env draws wave per_tick s
]
