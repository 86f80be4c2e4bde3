-- ===== src/Event.antt =====
-- The data types of server.ts (and of src/types.ts, which repeats two of them for the dashboard):
-- telemetry events, structured log lines, records of the time-series collection.
-- A field that a JSON body may leave out is an `Option`. A `payload` is the text of its JSON, which
-- no code reads.
use Prim.Native.String.{◌++◌ as concat}
use ingestion_engine.Prelude.{
  ℕ, String, Bool, true, false, Option, none, some, List, if◌then◌else◌, ℤ,
}

pub data Level : Type 0 where
  debug info warn error fatal : Level

pub record TelemetryEvent : Type 0 where
  pub id : Option String
  pub trace_id : Option String
  pub span_id : Option String
  pub service : Option String
  pub host : Option String
  pub level : Option Level
  pub message : Option String
  pub payload : Option String
  pub timestamp : Option String
  pub latency_ns : Option ℕ

-- A value of `fields`: the engine writes numbers, texts and lists of texts.
pub data FieldValue : Type 0 where
  number : ℤ → FieldValue
  text : Option String → FieldValue
  texts : List String → FieldValue

abbrev pub Fields : Type 0
Fields = List (String × FieldValue)

pub record StructuredLog : Type 0 where
  pub time : String
  pub level : Level
  pub msg : String
  pub caller : String
  pub fields : Fields

pub record PersistedRecord : Type 0 where
  pub id : String
  pub service : Option String
  pub level : Option Level
  pub trace_id : Option String
  pub timestamp : Option String
  pub batch_id : ℕ

-- `!s` for a text that may be missing: missing and empty texts are falsy.
abbrev pub falsy : Option String → Bool
falsy none = true
falsy (some String.[]) = true
falsy (some (String.◌∷◌ c s)) = false

-- `s || other`
abbrev pub text_or : Option String → String → String
text_or none other = other
text_or (some String.[]) other = other
text_or (some (String.◌∷◌ c s)) other = String.◌∷◌ c s

-- `if (!event.timestamp) event.timestamp = …`
unfoldable pub default_timestamp : String → TelemetryEvent → TelemetryEvent
default_timestamp iso e = if falsy e.timestamp then record e { timestamp = some iso } else e

-- `if (!event.level) event.level = 'INFO'`
unfoldable pub default_level : TelemetryEvent → TelemetryEvent
default_level e = elim e.level [ none ↦ record e { level = some info } | some l ↦ e ]

-- `if (!event.trace_id) event.trace_id = `tr-${…}``, over the random part of the name
unfoldable pub default_trace : String → TelemetryEvent → TelemetryEvent
default_trace random e =
    if falsy e.trace_id then record e { trace_id = some (concat "tr-" random) } else e

-- The three defaults, in the order of `ingestSingle`. `ingestBatch` sets them in another order:
-- they touch three different fields.
unfoldable pub fill_defaults : String → String → TelemetryEvent → TelemetryEvent
unfolding default_timestamp default_level default_trace
fill_defaults iso random e = default_trace random (default_level (default_timestamp iso e))

unfoldable pub fill_batch_defaults : String → String → TelemetryEvent → TelemetryEvent
unfolding default_timestamp default_level default_trace
fill_batch_defaults iso random e = default_level (default_trace random (default_timestamp iso e))
