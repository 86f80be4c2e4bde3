-- ===== src/Ingest/Complete.antt =====
-- The events in the queue are complete: ingestion fills what a client left out.
use Prim.Native.String.append
use Prim.Native.String.{◌++◌ as concat}
use ingestion_engine.Prelude.{◌≡◌, ◌≢◌, refl, arith, String, false, none, some}
use ingestion_engine.Event.{
  TelemetryEvent, falsy, default_timestamp, default_level, default_trace, fill_defaults,
  fill_batch_defaults,
}

-- An event that has a time, a severity and a trace id.
pub record IsComplete (ev : TelemetryEvent) : Type 0 where
  pub timed : falsy ev.timestamp ≡ false
  pub levelled : ev.level ≢ none
  pub traced : falsy ev.trace_id ≡ false

trace_name : (random : String) → falsy (some (concat "tr-" random)) ≡ false
trace_name random = rw (append.cons "t" "r-" random) refl

-- The defaults of ingestion leave an event with a time, a severity and a trace id that are neither
-- missing nor empty, given that the date prints as some text.
pub fill_defaults-IsComplete :
    (iso random : String) (ev : TelemetryEvent)
    → falsy (some iso) ≡ false
    → IsComplete (fill_defaults iso random ev)
unfolding fill_defaults default_timestamp default_level default_trace
fill_defaults-IsComplete iso random ev h = record {
  timed = ground (arith, h, trace_name random);
  levelled = ground (arith, h, trace_name random);
  traced = ground (arith, h, trace_name random);
}

pub fill_batch_defaults-eq :
    (iso random : String) (ev : TelemetryEvent)
    → fill_batch_defaults iso random ev ≡ fill_defaults iso random ev
unfolding fill_batch_defaults fill_defaults
fill_batch_defaults-eq iso random ev = ground arith
