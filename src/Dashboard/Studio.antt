-- ===== src/Dashboard/Studio.antt =====
-- src/components/LoadTestStudio.tsx: the presets of the load test, the dial, and what they send.
use text.Mathlib.Text.{◌==◌ as str_eq}
use ingestion_engine.Prelude.{
  ℕ, pos, String, Bool, true, false, ◌&&◌, Option, none, some, List, [], ◌∷◌, ◌++◌, if◌then◌else◌,
}
use ingestion_engine.Report.{EngineMetrics}
use ingestion_engine.Server.{Request, post_stop}
use ingestion_engine.Dashboard.Home.{HistoricalDataPoint, start_benchmark}
use ingestion_engine.Dashboard.View.{
  Part, View, lit, scaled, label, button, slider, chart, line, word, count, number,
}
use ingestion_engine.Dashboard.Header.{is_active}

-- A preset without its colours.
pub record Preset : Type 0 where
  pub id : String
  pub name : String
  pub rps : ℕ
  pub badge : String
  pub description : String

abbrev pub steady_preset : Preset
steady_preset = record {
  id = "steady";
  name = "Steady Production Load";
  rps = 2500;
  badge = "Normal Load";
  description = "2,500 requests/sec with balanced 70% single events and 30% batches.";
}

abbrev pub high_preset : Preset
high_preset = record {
  id = "high";
  name = "High-Velocity Telemetry";
  rps = 8000;
  badge = "High Throughput";
  description = "8,000 requests/sec testing bounded channel queuing and concurrent workers.";
}

abbrev pub burst_preset : Preset
burst_preset = record {
  id = "burst";
  name = "Traffic Spike Burst";
  rps = 14_000;
  badge = "Spike Ingress";
  description =
      "Oscillating bursts up to 14,000 RPS testing channel absorption without packet drops.";
}

abbrev pub dos_preset : Preset
dos_preset = record {
  id = "dos_attack";
  name = "Token Bucket Rate Limit Test";
  rps = 22_000;
  badge = "DDoS Simulation";
  description = "Deliberately exceeds 20,000 token limit to trigger HTTP 429 Too Many Requests.";
}

unfoldable pub presets : List Preset
presets = steady_preset ∷ high_preset ∷ burst_preset ∷ dos_preset ∷ []

-- The state of the component.
pub record Studio : Type 0 where
  pub custom_rps : ℕ
  pub selected_scenario : String

unfoldable pub new_studio : Studio
new_studio = record { custom_rps = 3500; selected_scenario = "steady" }

-- What the handlers take from a click or a new value of the dial.
pub data StudioEvent : Type 0 where
  halt run_custom : StudioEvent
  launch : Preset → StudioEvent
  dial : ℕ → StudioEvent

unfoldable pub launch_preset : Preset → Studio → Request × Studio
launch_preset p s =
    (start_benchmark p.rps p.id, record s { selected_scenario = p.id; custom_rps = p.rps })

unfoldable pub on_studio : StudioEvent → Studio → Option Request × Studio
unfolding launch_preset
on_studio halt s = (some post_stop, s)
on_studio run_custom s = (some (start_benchmark s.custom_rps s.selected_scenario), s)
on_studio (launch p) s = let (r, t) = launch_preset p s in (some r, t)
on_studio (dial rps) s = (none, record s { custom_rps = rps })

-- Whether the engine runs the scenario of a preset.
unfoldable pub is_running : Option EngineMetrics → Preset → Bool
is_running none p = false
is_running (some m) p = m.load_test_active && str_eq m.load_test_scenario p.id

unfoldable pub run_button : Option EngineMetrics → Studio → View StudioEvent
run_button metrics s =
    if is_active metrics
    then button true false (word "HALT BENCHMARK") halt ∷ []
    else button true false (lit "RUN BENCHMARK (" ∷ count s.custom_rps ∷ lit " RPS)" ∷ [])
        run_custom
      ∷ []

unfoldable pub preset_cards : Option EngineMetrics → List Preset → View StudioEvent
unfolding is_running
preset_cards metrics [] = []
preset_cards metrics (p ∷ rest) =
    button true (is_running metrics p)
      (lit p.badge ∷ count p.rps ∷ lit " RPS" ∷ lit p.name ∷ lit p.description ∷ []) (launch p)
    ∷ preset_cards metrics rest

unfoldable pub dial_view : Studio → View StudioEvent
dial_view s =
    line "Custom Throughput Dial:"
    ∷ label (count s.custom_rps ∷ lit " requests/sec" ∷ [])
    ∷ slider 500 25_000 500 (pos s.custom_rps) dial
    ∷ line "500 RPS"
    ∷ line "5,000 RPS"
    ∷ line "15,000 RPS"
    ∷ line "25,000 RPS (Extreme)"
    ∷ line "Companion k6 script ready in /go-engine/benchmarks/k6_script.js"
    ∷ []

-- One value of the trend over its times.
abbrev trend : (HistoricalDataPoint → Part) → List HistoricalDataPoint → List (String × Part)
trend value [] = []
trend value (p ∷ rest) = (p.time, value p) ∷ trend value rest

unfoldable pub throughput_chart : List HistoricalDataPoint → View StudioEvent
throughput_chart history =
    line "THROUGHPUT TREND (RPS vs EVENTS/SEC)"
    ∷ line "Real-time requests and batched event absorption"
    ∷ line "RPS"
    ∷ line "Events/sec"
    ∷ chart (
        ("Requests/sec", trend (λ p. number p.rps) history)
        ∷ ("Events/sec", trend (λ p. number p.eps) history)
        ∷ [])
    ∷ []

-- The latency is in microseconds, the saturation in hundredths of a percent.
unfoldable pub latency_chart : List HistoricalDataPoint → View StudioEvent
latency_chart history =
    line "LATENCY (P95 MS) & BUFFER SATURATION (%)"
    ∷ line "Evaluates zero packet drop threshold under load"
    ∷ line "p95 (ms)"
    ∷ line "Queue Saturation %"
    ∷ chart (
        ("p95 Latency (ms)", trend (λ p. scaled 3 (pos p.p95_latency)) history)
        ∷ ("Queue Saturation %", trend (λ p. scaled 2 (pos p.queue_pct)) history)
        ∷ [])
    ∷ []

unfoldable pub commands : View StudioEvent
commands =
    line "WEEK 1 LOAD TESTING SUITE EXECUTABLE COMMANDS"
    ∷ line "Go & k6 compatible"
    ∷ line "# 1. Run Go Built-in Parallel Benchmarks:"
    ∷ line "go test -bench=BenchmarkIngestionThroughput -benchmem -benchtime=10s ./benchmarks/..."
    ∷ line "# 2. Run Companion k6 High-Throughput Script:"
    ∷ line "k6 run benchmarks/k6_script.js"
    ∷ []

unfoldable pub studio_view :
    Option EngineMetrics → List HistoricalDataPoint → Studio → View StudioEvent
unfolding run_button preset_cards presets dial_view throughput_chart latency_chart commands
studio_view metrics history s =
    line "Ingestion Load Testing & Benchmarking Suite"
      ∷ line "k6 & Go Parallel Tested"
      ∷ line
          "Simulate high-velocity telemetry traffic to evaluate channel queue absorption, token bucket rate limiting, and zero-drop batch flushes."
      ∷ run_button metrics s
    ++ preset_cards metrics presets
    ++ dial_view s
    ++ throughput_chart history
    ++ latency_chart history
    ++ commands
