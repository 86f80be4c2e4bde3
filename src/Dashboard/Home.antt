-- ===== src/Dashboard/Home.antt =====
-- src/App.tsx: what the dashboard keeps of the server's answers, and its controls.
-- The requests of a dashboard are asynchronous: sending one and getting its answer are two steps.
use ingestion_engine.Prelude.{
  ℕ, ◌-◌, ◌≤◌, ◌≡◌, sym, ap, ◌∙◌, arith, String, Bool, true, false, not, Option, none, some, List,
  [], ◌∷◌, ◌++◌, if◌then◌else◌, ltb, length, drop, drop_first, length-append, length-drop,
  length-drop_first, drop-append, drop-drop, drop_one, drop_none, Bool-cases, inl, inr,
}
use mathlib.Core.List.{append-nil, append_assoc}
use ingestion_engine.Event.{StructuredLog, PersistedRecord}
use ingestion_engine.State.{Engine, Env}
use ingestion_engine.LoadTest.{start_load_test, stop_load_test}
use ingestion_engine.Workers.{ceil_div}
use ingestion_engine.Shutdown.{ShutdownReport}
use ingestion_engine.Tuning.{ConfigUpdate}
use ingestion_engine.Report.{EngineMetrics}
use ingestion_engine.Server.{
  Request, read_metrics, read_logs, post_start, post_stop, post_config, post_shutdown, handle,
  default,
}

pub record HistoricalDataPoint : Type 0 where
  pub time : String
  pub rps : ℕ
  pub eps : ℕ
  pub queue_pct : ℕ
  pub p95_latency : ℕ
  pub active_workers : ℕ

-- The state of the component. The report is `null` before the first answer.
pub record App : Type 0 where
  pub metrics : Option EngineMetrics
  pub logs : List StructuredLog
  pub persisted_records : List PersistedRecord
  pub history : List HistoricalDataPoint
  pub active_tab : String
  pub is_send_modal_open : Bool
  pub shutdown_simulating : Bool
  pub shutdown_report : Option ShutdownReport

unfoldable pub new_app : App
new_app = record {
  metrics = none;
  logs = [];
  persisted_records = [];
  history = [];
  active_tab = "dashboard";
  is_send_modal_open = false;
  shutdown_simulating = false;
  shutdown_report = none;
}

unfoldable pub new_point : String → EngineMetrics → HistoricalDataPoint
new_point now m = record {
  time = now;
  rps = m.current_rps;
  eps = m.current_eps;
  queue_pct = m.queue_saturation_pct;
  p95_latency = m.latency_p95;
  active_workers = m.active_workers;
}

-- The rolling trend.
unfoldable pub add_point : HistoricalDataPoint → List HistoricalDataPoint → List HistoricalDataPoint
add_point p prev =
    let updated = prev ++ p ∷ [] in if ltb 25 (length updated) then drop_first updated else updated

-- The answer of `fetchMetrics` at a local time; `none` if the request failed.
unfoldable pub metrics_arrive : String → Option EngineMetrics → App → App
unfolding new_point add_point
metrics_arrive now none app = app
metrics_arrive now (some m) app = record app {
  metrics = some m;
  history = add_point (new_point now m) app.history;
}

-- The answer of `fetchLogs`. Either part may be missing from it.
unfoldable pub logs_arrive :
    Option (Option (List StructuredLog) × Option (List PersistedRecord)) → App → App
logs_arrive none app = app
logs_arrive (some (logs, records)) app = record app {
  logs = default logs [];
  persisted_records = default records [];
}

-- What the component asks for when it appears, and each second from then on.
abbrev pub poll : List Request
poll = read_metrics ∷ read_logs ∷ []

abbrev pub start_benchmark : ℕ → String → Request
start_benchmark rps scenario = post_start (some rps) (some scenario)

unfoldable pub toggle_benchmark : App → Request
toggle_benchmark app = elim app.metrics [
  | none ↦ start_benchmark 3500 "steady"
  | some m ↦ if m.load_test_active then post_stop else start_benchmark 3500 "steady"
]

unfoldable pub simulate_shutdown : App → Request × App
simulate_shutdown app = (post_shutdown, record app { shutdown_simulating = true })

-- The answer of the shutdown request; `none` if it failed.
unfoldable pub shutdown_arrive : Option ShutdownReport → App → App
shutdown_arrive none app = record app { shutdown_simulating = false }
shutdown_arrive (some r) app = record app { shutdown_report = some r; shutdown_simulating = false }

abbrev pub send_config : ConfigUpdate → Request
send_config u = post_config u

-- A series of answers to the polling of metrics.
abbrev pub polls : List (String × Option EngineMetrics) → App → App
polls [] app = app
polls ((now, answer) ∷ rest) app = polls rest (metrics_arrive now answer app)

abbrev pub points : List (String × Option EngineMetrics) → List HistoricalDataPoint
points [] = []
points ((now, none) ∷ rest) = points rest
points ((now, some m) ∷ rest) = new_point now m ∷ points rest

-- The last 25 entries.
abbrev pub last_25 : List HistoricalDataPoint → List HistoricalDataPoint
last_25 l = drop (length l - 25) l

add_point-last_25 :
    (p : HistoricalDataPoint) (h : List HistoricalDataPoint)
    → length h ≤ 25
    → (add_point p h ≡ last_25 (h ++ p ∷ [])) × (length (add_point p h) ≤ 25)
unfolding add_point
add_point-last_25 p h k =
    let longer = h ++ p ∷ [] in
    let n = length-append h (p ∷ []) in
    elim (Bool-cases (ltb 25 (length longer))) [
      | inl more ↦
          rw more (drop_one longer (ground (arith, n)), ground (arith, n, length-drop_first longer))
      | inr fits ↦ rw fits (drop_none longer (ground (arith, n)), ground (arith, n))
    ]

-- Dropping from a list that is cut already.
last_25-append : (l r : List HistoricalDataPoint) → last_25 (last_25 l ++ r) ≡ last_25 (l ++ r)
last_25-append l r =
    let a = length l - 25 in
    let kept = sym (drop-append a l r (omega arith)) in
    ap last_25 kept
    ∙ drop-drop (length (l ++ r) - 25) (length (drop a (l ++ r)) - 25) a (l ++ r)
        (omega (arith, length-append l r, length-drop a (l ++ r)))

-- After any series of answers, failed ones among them, the trend shows the last 25 of the points it
-- had and of those that arrived, in their order, for a trend of at most 25 points before.
pub polls_history :
    (answers : List (String × Option EngineMetrics)) (app : App)
    → length app.history ≤ 25
    → (polls answers app).history ≡ last_25 (app.history ++ points answers)
unfolding metrics_arrive
polls_history [] app k =
    drop_none app.history (omega arith) ∙ ap last_25 (sym (append-nil app.history))
polls_history ((now, none) ∷ rest) app k = polls_history rest app k
polls_history ((now, some m) ∷ rest) app k =
    let p = new_point now m in
    let (e, short) = add_point-last_25 p app.history k in
    let ih = polls_history rest (metrics_arrive now (some m) app) short in
    ih
    ∙ rw e (last_25-append (app.history ++ p ∷ []) (points rest))
    ∙ ap last_25 (append_assoc app.history (p ∷ []) (points rest))

-- The switch of the header turns the load test of the engine on or off, if the report that the
-- dashboard has agrees with the engine on it. Turned on, the test fires 88 events per tick.
pub toggle_flips :
    (env : Env) (app : App) (m : EngineMetrics) (s : Engine)
    → app.metrics ≡ some m
    → m.load_test_active ≡ s.load.load_test_active
    → let t = (handle env (toggle_benchmark app) s).1 in
      (t.load.load_test_active ≡ not s.load.load_test_active)
      × (t.load.load_test_timer ≡ (if s.load.load_test_active then none else some 88))
unfolding toggle_benchmark handle start_load_test stop_load_test ceil_div
toggle_flips env app m s e h = rw (e, h) (ground arith)
