-- ===== src/Dashboard/Header.antt =====
-- src/components/Header.tsx and src/components/ShutdownSimulationBanner.tsx: what they show of the
-- dashboard's state, and what App.tsx does when their controls are used.
use text.Mathlib.Text.{◌==◌ as str_eq}
use ingestion_engine.Prelude.{
  ◌≡◌, arith, String, Bool, true, false, not, Option, none, some, List, [], ◌∷◌, if◌then◌else◌, ltb,
  pos,
}
use ingestion_engine.Report.{EngineMetrics}
use ingestion_engine.Shutdown.{ShutdownReport}
use ingestion_engine.Server.{Request, health, health_body}
use ingestion_engine.Dashboard.View.{lit, scaled, Text, label, button, View, line, word, number}
use ingestion_engine.Dashboard.Home.{App, toggle_benchmark, simulate_shutdown}

pub data HomeEvent : Type 0 where
  toggle open_modal close_modal sigterm dismiss : HomeEvent
  tab : String → HomeEvent

-- The header's `isHealthy`, of a saturation in hundredths of a percent.
unfoldable pub is_healthy : Option EngineMetrics → Bool
is_healthy none = true
is_healthy (some m) = ltb m.queue_saturation_pct 8500

abbrev pub is_active : Option EngineMetrics → Bool
is_active none = false
is_active (some m) = m.load_test_active

abbrev pub is_draining : Option EngineMetrics → Bool
is_draining none = false
is_draining (some m) = m.is_shutting_down

-- The text of the load test's switch.
abbrev pub toggle_text : Option EngineMetrics → Text
toggle_text none = word "Start Load Test"
toggle_text (some m) =
    if m.load_test_active
    then lit "Stop Load Test (" ∷ number m.current_rps ∷ lit " RPS)" ∷ []
    else word "Start Load Test"

-- The five tabs: their names in the state, and their labels.
abbrev pub tabs : List (String × String)
tabs =
    ("dashboard", "Telemetry Pipeline")
    ∷ ("loadtest", "Load Testing Suite (k6/Go)")
    ∷ ("config", "Concurrency Tuning")
    ∷ ("logs", "Structured Logs (slog)")
    ∷ ("code", "Go Source Code (.go)")
    ∷ []

unfoldable pub tab_buttons : String → List (String × String) → View HomeEvent
tab_buttons active [] = []
tab_buttons active ((id, text) ∷ rest) =
    button true (str_eq active id) (word text) (tab id) ∷ tab_buttons active rest

unfoldable pub header_view : App → View HomeEvent
unfolding tab_buttons
header_view app =
    line "GO INGESTION ENGINE"
    ∷ line "Week 1 MVP"
    ∷ line (if is_draining app.metrics then "SIGTERM DRAINING" else "LIVE")
    ∷ line "Distributed High-Throughput Telemetry Pipeline (Go · Redis · MongoDB)"
    ∷ button true (is_active app.metrics) (toggle_text app.metrics) toggle
    ∷ button true false (word "Send Test Event") open_modal
    ∷ button (not app.shutdown_simulating) false (word "Simulate SIGTERM") sigterm
    ∷ tab_buttons app.active_tab tabs

unfoldable pub banner_view : Option ShutdownReport → View HomeEvent
banner_view none = []
banner_view (some r) =
    line "SIGTERM GRACEFUL SHUTDOWN SEQUENCE COMPLETED"
    ∷ line "Exit Code 0"
    ∷ line
        "Active OS signal received: Worker channel was closed, in-flight channel events were drained, and pending memory batches were flushed to storage before termination."
    ∷ label (lit "Channel Drained: " ∷ number r.drained_queue ∷ lit " items" ∷ [])
    ∷ label (lit "Final Bulk Flush: " ∷ number r.flushed_batch ∷ lit " records" ∷ [])
    ∷ label (lit "Drain Duration: " ∷ scaled 2 (pos r.shutdown_duration) ∷ lit " ms" ∷ [])
    ∷ line "Packets Dropped: 0 (Zero Drop Guarantee)"
    ∷ button true false (word "Dismiss") dismiss
    ∷ []

-- The handlers that App.tsx passes to the header, the banner and the modal.
unfoldable pub on_home : HomeEvent → App → Option Request × App
on_home toggle app = (some (toggle_benchmark app), app)
on_home open_modal app = (none, record app { is_send_modal_open = true })
on_home close_modal app = (none, record app { is_send_modal_open = false })
on_home sigterm app = let (r, waiting) = simulate_shutdown app in (some r, waiting)
on_home dismiss app = (none, record app { shutdown_report = none })
on_home (tab id) app = (none, record app { active_tab = id })

-- Where the header takes the engine for healthy, the health route says healthy.
pub healthy_header :
    (m : EngineMetrics)
    → is_healthy (some m) ≡ true
    → health_body m ≡ health "healthy" m.uptime_sec m.queue_saturation_pct
unfolding is_healthy health_body
healthy_header m h = ground arith
