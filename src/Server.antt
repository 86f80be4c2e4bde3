-- ===== src/Server.antt =====
-- The REST routes of server.ts: each request as the engine sees it, with the response and the engine
-- that it leaves. Express, which parses requests and sends responses, is not modelled.
use ingestion_engine.Prelude.{
  ℕ, String, Bool, true, false, ◌&&◌, Option, none, some, List, [], ◌∷◌, if◌then◌else◌, ltb, ◌==◌,
  take, ℤ,
}
use ingestion_engine.Event.{TelemetryEvent, StructuredLog, PersistedRecord}
use ingestion_engine.State.{Engine, Env}
use ingestion_engine.Ingest.{
  IngestStatus, accepted, rate_limited, queue_saturated, invalid, SingleResult, BatchResult,
  ingest_single, ingest_batch,
}
use ingestion_engine.Tuning.{ConfigUpdate, update_config}
use ingestion_engine.LoadTest.{start_load_test, stop_load_test}
use ingestion_engine.Shutdown.{ShutdownReport, simulate_graceful_shutdown}
use ingestion_engine.Report.{EngineMetrics, get_metrics}
use ingestion_engine.GoFiles.{Entries, GoSourceFile, scan_dir}
pub mod Codes

pub data Request : Type 0 where
  post_single : TelemetryEvent → Request
  -- `events` may be no array
  post_batch : Option (List TelemetryEvent) → Request
  read_metrics read_health read_logs : Request
  post_start : Option ℕ → Option String → Request
  post_stop : Request
  post_config : ConfigUpdate → Request
  post_shutdown : Request
  read_go_code : Option Entries → Request

pub data Body : Type 0 where
  problem : String → Option String → Body
  single_accepted : String → Option String → String → Body
  batch_summary : String → ℕ → ℕ → ℕ → Body
  metrics_report : EngineMetrics → Body
  health : String → ℤ → ℕ → Body
  log_page : List StructuredLog → List PersistedRecord → Body
  started : String → ℕ → String → Body
  stopped : String → Body
  updated : String → ConfigUpdate → Body
  shut_down : String → ShutdownReport → Body
  sources : List GoSourceFile → Body

pub record Response : Type 0 where
  pub code : ℕ
  pub retry_after : Option String
  pub body : Body

unfoldable pub respond : ℕ → Body → Response
respond code body = record { code = code; retry_after = none; body = body }

-- `res.setHeader('Retry-After', '1')` with status 429
unfoldable pub too_many : Option String → Response
too_many message = record {
  code = 429;
  retry_after = some "1";
  body = problem "rate_limit_exceeded" message;
}

unfoldable pub single_response : SingleResult → Response
unfolding respond too_many
single_response r = elim r.status [
  | rate_limited ↦ too_many r.error
  | queue_saturated ↦ respond 503 (problem "queue_saturated" r.error)
  | invalid ↦ respond 400 (problem "validation_failed" r.error)
  | accepted ↦ respond 202 (single_accepted "accepted" r.trace_id "bounded_channel")
]

unfoldable pub batch_code : BatchResult → ℕ
batch_code r = if ltb 0 r.dropped && r.accepted == 0 then 503 else 202

unfoldable pub batch_response : BatchResult → Response
unfolding respond too_many batch_code
batch_response r =
    if r.rate_limited
    then too_many (some "Token bucket exhausted for batch submission")
    else respond (batch_code r) (
        batch_summary (if batch_code r == 202 then "accepted" else "partially_dropped") r.total
          r.accepted r.dropped)

-- More than 95 percent, in hundredths of a percent.
unfoldable pub health_body : EngineMetrics → Body
health_body m =
    health (if ltb 9500 m.queue_saturation_pct then "degraded" else "healthy") m.uptime_sec
      m.queue_saturation_pct

-- `value = fallback` in a destructuring
abbrev pub default {ℓ} : {A : Type ℓ} → Option A → A → A
default none d = d
default (some a) d = a

unfoldable pub handle : Env → Request → Engine → Response × Engine
unfolding respond single_response batch_response health_body
handle env (post_single ev) s = let (r, t) = ingest_single env ev s in (single_response r, t)
handle env (post_batch none) s =
    (respond 400 (problem "invalid_payload" (some "events array required")), s)
handle env (post_batch (some evs)) s = let (r, t) = ingest_batch env evs s in (batch_response r, t)
handle env read_metrics s = let (m, t) = get_metrics env s in (respond 200 (metrics_report m), t)
handle env read_health s = let (m, t) = get_metrics env s in (respond 200 (health_body m), t)
handle env read_logs s =
    (respond 200 (log_page s.logs.recent_logs (take 50 s.batch.persisted_time_series)), s)
handle env (post_start rps scenario) s =
    let target = default rps 2500 in
    let name = default scenario "steady" in
    (respond 200 (started "started" target name), start_load_test env target name s)
handle env post_stop s = (respond 200 (stopped "stopped"), stop_load_test env s)
handle env (post_config u) s = (respond 200 (updated "updated" u), update_config env u s)
handle env post_shutdown s =
    let (r, t) = simulate_graceful_shutdown env s in
    (respond 200 (shut_down "graceful_shutdown_complete" r), t)
handle env (read_go_code tree) s = (respond 200 (sources (scan_dir tree)), s)
