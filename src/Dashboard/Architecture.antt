-- ===== src/Dashboard/Architecture.antt =====
-- src/components/ArchitectureFlow.tsx: the six stages with what a report says of them, and the panel
-- on the stage that is selected.
use ingestion_engine.Prelude.{
  ℕ, ◌+◌, String, Bool, true, false, Option, none, some, List, [], ◌∷◌, ◌++◌, if◌then◌else◌, ltb,
  ◌==◌, ℤ, pos,
}
use ingestion_engine.Report.{EngineMetrics}
use ingestion_engine.Dashboard.View.{
  Part, lit, whole, grouped, scaled, Text, Item, label, button, View, line, lines, word, count,
  number,
}
use ingestion_engine.Dashboard.Stages.{
  Stage, router, ratelimit, channel, workers, batch, mongo, StageDetail, stage_details,
}
pub mod Guarantee

-- A stage without its icon and colours.
pub record StageInfo : Type 0 where
  pub id : Stage
  pub name : String
  pub sub : String
  pub metric : Text
  pub status : Text

-- The metrics and statuses of the stages. Before the first report each number is 0.
abbrev throttle_text : Option EngineMetrics → Text
throttle_text none = word "Nominal"
throttle_text (some m) =
    if ltb 0 m.rate_limited_requests then word "Throttling 429" else word "Nominal"

-- A number of the report, 0 before the first report.
abbrev reported : (EngineMetrics → ℕ) → Option EngineMetrics → ℕ
reported field none = 0
reported field (some m) = field m

abbrev reported_tokens : Option EngineMetrics → ℤ
reported_tokens none = pos 0
reported_tokens (some m) = m.available_tokens

unfoldable pub stages : Option EngineMetrics → List StageInfo
stages metrics =
    let now = λ (field : EngineMetrics → ℕ). reported field metrics in
    record {
      id = router;
      name = "HTTP Ingestion Router";
      sub = "Go 'net/http' non-blocking";
      metric = (number (now (λ m. m.current_rps)) ∷ lit " req/s" ∷ []);
      status = word "Non-blocking 202";
    }
    ∷ record {
      id = ratelimit;
      name = "Token Bucket Limiter";
      sub = "DDoS & burst mitigation";
      metric = (grouped (reported_tokens metrics) ∷ lit " tokens" ∷ []);
      status = throttle_text metrics;
    }
    ∷ record {
      id = channel;
      name = "Bounded Channel Queue";
      sub = "chan TelemetryEvent (50k cap)";
      metric =
          (count (now (λ m. m.queue_length))
            ∷ lit " / "
            ∷ count (now (λ m. m.queue_capacity))
            ∷ []);
      status = (scaled 2 (pos (now (λ m. m.queue_saturation_pct))) ∷ lit "% saturation" ∷ []);
    }
    ∷ record {
      id = workers;
      name = "Worker Pool Routines";
      sub = "Bounded Goroutines (sync.WaitGroup)";
      metric =
          (number (now (λ m. m.active_workers))
            ∷ lit " / "
            ∷ number (now (λ m. m.total_workers))
            ∷ lit " active"
            ∷ []);
      status = (scaled 1 (pos (now (λ m. m.worker_utilization_pct))) ∷ lit "% load" ∷ []);
    }
    ∷ record {
      id = batch;
      name = "Batch Processor";
      sub = "5k records or 500ms ticker";
      metric = (count (now (λ m. m.batch_buffer_length)) ∷ lit " in buffer" ∷ []);
      status = (count (now (λ m. m.total_batches_flushed)) ∷ lit " flushes" ∷ []);
    }
    ∷ record {
      id = mongo;
      name = "Persistence Storage";
      sub = "MongoDB / Time-Series index";
      metric = (count (now (λ m. m.total_events_flushed)) ∷ lit " stored" ∷ []);
      status = word "Compound index OK";
    }
    ∷ []

-- `metrics?.total_dropped === 0` fails without a report, and the other text then prints `undefined`.
unfoldable pub drop_text : Option EngineMetrics → Text
drop_text none = word "undefined drops"
drop_text (some m) =
    if m.total_dropped == 0
    then word "100% Guaranteed"
    else number m.total_dropped ∷ lit " drops" ∷ []

-- The number of a stage, from 0.
abbrev pub position : Stage → ℕ
position router = 0
position ratelimit = 1
position channel = 2
position workers = 3
position batch = 4
position mongo = 5

-- The stages are numbered from `i` on. A click on a stage selects it.
unfoldable pub stage_items : Stage → ℕ → List StageInfo → View Stage
stage_items selected i [] = []
stage_items selected i (stage ∷ rest) =
    button true (position selected == position stage.id)
      (lit "0" ∷ number (i + 1) ∷ lit stage.name ∷ lit stage.sub ∷ []
        ++ stage.metric
        ++ stage.status)
      stage.id
    ∷ stage_items selected (i + 1) rest

unfoldable pub detail_items : StageDetail → View Stage
detail_items d =
    line d.title
    ∷ line d.go_file
    ∷ line "✓"
    ∷ line d.concurrency_concept
    ∷ line d.summary
    ∷ line "Go Implementation Preview"
    ∷ line "Go 1.22+"
    ∷ lines d.code_snippet

unfoldable pub architecture_view : Option EngineMetrics → Stage → View Stage
unfolding stages stage_items detail_items stage_details drop_text
architecture_view metrics selected =
    line "CONCURRENCY & DATA PIPELINE SCHEMATIC"
      ∷ line
          "Interactive pipeline topology · Click any stage to inspect Go concurrency architecture"
      ∷ label (lit "Zero Dropped Packets: " ∷ drop_text metrics)
      ∷ stage_items selected 0 (stages metrics)
    ++ detail_items (stage_details selected)
