-- ===== src/Dashboard/Page/Titles.antt =====
-- The components that src/App.tsx shows in each tab, by their titles.
use text.Mathlib.Text.{◌==◌ as str_eq}
use ingestion_engine.Prelude.{◌≡◌, String, Option, none, some, List, [], ◌∷◌, ◌++◌, if◌then◌else◌}
use ingestion_engine.Dashboard.View.{lit, label, View}
use ingestion_engine.Dashboard.Page.{PageEvent}

-- The titles of the components in the tab of an id.
abbrev pub titles : String → List String
titles id =
    if str_eq id "dashboard"
    then "CONCURRENCY & DATA PIPELINE SCHEMATIC" ∷ "Ingestion Load Testing & Benchmarking Suite"
      ∷ "Structured Telemetry Logs (log/slog JSON format)" ∷ []
    else if str_eq id "loadtest"
    then "Ingestion Load Testing & Benchmarking Suite" ∷ []
    else if str_eq id "config"
    then "Runtime Concurrency & Buffer Capacity Tuning" ∷ []
    else if str_eq id "logs"
    then "Structured Telemetry Logs (log/slog JSON format)" ∷ []
    else if str_eq id "code"
    then "Production Go Concurrency Engine Source Code" ∷ []
    else []

abbrev pub first_line : View PageEvent → Option String
first_line (label (lit s ∷ []) ∷ rest) = some s
first_line _ = none

-- A view made of one part for each title, in their order, that begins with it, and of nothing else.
abbrev pub Headed : List String → View PageEvent → Type 0
Headed [] v = v ≡ []
Headed (t ∷ ts) v = (w b : View PageEvent) × (v ≡ w ++ b) × (first_line w ≡ some t) × Headed ts b
