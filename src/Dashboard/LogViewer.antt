-- ===== src/Dashboard/LogViewer.antt =====
-- src/components/StructuredLogViewer.tsx: its state, the lines it prints of the logs and of the stored
-- records, and its controls. What JavaScript does with strings, dates and JSON is a parameter.
use package.text.Mathlib.Text.{◌==◌ as str_eq}
use ingestion_engine.Prelude.{
  pos, String, Bool, true, false, Option, none, some, List, [], ◌∷◌, ◌++◌, length,
}
use ingestion_engine.Event.{
  Level, debug, info, warn, error, fatal, FieldValue, number, text, texts, Fields, StructuredLog,
  PersistedRecord,
}
use ingestion_engine.Dashboard.LogFilter.{level_text, filtered_logs}
use ingestion_engine.Dashboard.View.{
  Part, lit, whole, Text, View, label, button, entry, line, lines, word,
}

pub data ActiveView : Type 0 where
  logs timeseries : ActiveView

-- The state of the component.
pub record Viewer : Type 0 where
  pub level_filter : String
  pub search_query : String
  pub active_view : ActiveView

unfoldable pub new_viewer : Viewer
new_viewer = record { level_filter = "ALL"; search_query = ""; active_view = logs }

pub data ViewerEvent : Type 0 where
  show_view : ActiveView → ViewerEvent
  filter_level search : String → ViewerEvent

unfoldable pub on_viewer : ViewerEvent → Viewer → Viewer
on_viewer (show_view v) s = record s { active_view = v }
on_viewer (filter_level l) s = record s { level_filter = l }
on_viewer (search q) s = record s { search_query = q }

-- The functions of JavaScript that the component uses: `trim`, `toLowerCase` and `includes`,
-- `JSON.stringify` of fields and of a list, the local time of a date and its padded milliseconds.
pub record Strings : Type 0 where
  pub trim : String → String
  pub to_lower_case : String → String
  pub includes : String → String → Bool
  pub stringify : Fields → String
  pub stringify_list : List String → String
  pub local_time : String → String
  pub millis : String → String

-- The default of the switch covers every other level.
unfoldable pub level_badge : Level → String
level_badge error = "ERROR"
level_badge warn = "WARN"
level_badge debug = "DEBUG"
level_badge info = "INFO"
level_badge fatal = "INFO"

-- A cell of a value that is missing is empty.
abbrev cell : Option String → Text
cell none = []
cell (some s) = word s

module _ (js : Strings) where
  -- `typeof v === 'object' ? JSON.stringify(v) : String(v)`
  unfoldable pub value_part : FieldValue → Option Part
  value_part (number n) = some (whole n)
  value_part (text none) = none
  value_part (text (some s)) = some (lit s)
  value_part (texts l) = some (lit (js.stringify_list l))

  -- The entries of the fields. A field without a value is not in the JSON that the dashboard reads.
  unfoldable pub field_items : Fields → View ViewerEvent
  unfolding value_part
  field_items [] = []
  field_items ((k, v) ∷ rest) =
      let later = field_items rest in
      elim (value_part v) [ none ↦ later | some p ↦ label (lit k ∷ lit ": " ∷ p ∷ []) ∷ later ]

  unfoldable pub log_items : List StructuredLog → View ViewerEvent
  unfolding level_badge field_items
  log_items [] = []
  log_items (log ∷ rest) =
      line (level_badge log.level)
        ∷ label (lit (js.local_time log.time) ∷ lit "." ∷ lit (js.millis log.time) ∷ [])
        ∷ line log.caller
        ∷ line log.msg
        ∷ field_items log.fields
      ++ log_items rest

  unfoldable pub record_items : List PersistedRecord → View ViewerEvent
  unfolding level_text
  record_items [] = []
  record_items (r ∷ rest) =
      line r.id
      ∷ label (cell r.service)
      ∷ label (elim r.level [ none ↦ [] | some l ↦ word (level_text l) ])
      ∷ label (cell r.trace_id)
      ∷ label (lit "#" ∷ whole (pos r.batch_id) ∷ [])
      ∷ label (elim r.timestamp [ none ↦ word "Invalid Date" | some t ↦ word (js.local_time t) ])
      ∷ record_items rest

  unfoldable pub level_buttons : Viewer → List String → View ViewerEvent
  level_buttons s [] = []
  level_buttons s (l ∷ rest) =
      button true (str_eq s.level_filter l) (word l) (filter_level l) ∷ level_buttons s rest

  -- The lines that pass the filters, or a notice.
  unfoldable pub terminal_view : Viewer → List StructuredLog → View ViewerEvent
  unfolding filtered_logs log_items
  terminal_view s all =
      let kept =
        filtered_logs js.trim js.to_lower_case js.includes js.stringify s.level_filter
          s.search_query all in
      elim kept [
        | [] ↦ line "No logs matching filter criteria" ∷ []
        | first ∷ rest ↦ log_items (first ∷ rest)
      ]

  unfoldable pub table_view : List PersistedRecord → View ViewerEvent
  unfolding record_items
  table_view records =
      line "Compound Index: { service: 1, timestamp: -1, level: 1 }"
        ∷ line "Unordered BulkWrite Active"
        ∷ lines ("EVENT ID" ∷ "SERVICE" ∷ "LEVEL" ∷ "TRACE ID" ∷ "BATCH ID" ∷ "TIMESTAMP" ∷ [])
      ++ elim records [
        | [] ↦ line "No bulk writes committed yet. Send events or start load test!" ∷ []
        | first ∷ rest ↦ record_items (first ∷ rest)
      ]

  unfoldable pub body_view : Viewer → List StructuredLog → List PersistedRecord → View ViewerEvent
  unfolding level_buttons terminal_view table_view
  body_view s all records = elim s.active_view [
    | logs ↦
        level_buttons s ("ALL" ∷ "INFO" ∷ "WARN" ∷ "ERROR" ∷ [])
        ++ entry "Search trace_id, caller, msg..." s.search_query search ∷ terminal_view s all
    | timeseries ↦ table_view records
  ]

  abbrev is_logs : ActiveView → Bool
  is_logs logs = true
  is_logs timeseries = false

  abbrev is_timeseries : ActiveView → Bool
  is_timeseries logs = false
  is_timeseries timeseries = true

  unfoldable pub viewer_view : Viewer → List StructuredLog → List PersistedRecord → View ViewerEvent
  unfolding body_view
  viewer_view s all records =
      line "Structured Telemetry Logs (log/slog JSON format)"
      ∷ line
          "Zero-allocation structured log stream tracking worker routines, queue saturation, and batch flushes."
      ∷ button true (is_logs s.active_view)
          (lit "slog Output (" ∷ whole (pos (length all)) ∷ lit ")" ∷ []) (show_view logs)
      ∷ button true (is_timeseries s.active_view)
          (lit "MongoDB Time-Series (" ∷ whole (pos (length records)) ∷ lit ")" ∷ [])
          (show_view timeseries)
      ∷ body_view s all records
