-- ===== src/Dashboard/Architecture/Guarantee.antt =====
-- What the architecture panel promises about dropped events.
use ingestion_engine.Prelude.{◌≡◌, arith, true, false, some, List, [], length}
use ingestion_engine.Event.{TelemetryEvent}
use ingestion_engine.State.{Engine, Env}
use ingestion_engine.Batch.{FlushReason, trigger_flush}
use ingestion_engine.Batch.Flush.{trigger_flush-SamePipeline, trigger_flush-empties}
use ingestion_engine.Ingest.{ingest_batch}
use ingestion_engine.Ingest.Many.{granted_batch, ingest_batch_effect}
use ingestion_engine.Report.{report}
use ingestion_engine.Dashboard.View.{Text, word}
use ingestion_engine.Dashboard.Architecture.{drop_text}

abbrev pub guaranteed : Text
guaranteed = word "100% Guaranteed"

module _ (env seen : Env) (s : Engine) where
  -- The panel that says "100% Guaranteed" still says so after a flush whose write failed, although the
  -- events of the buffer are gone from it, and after a batch that was refused for want of tokens,
  -- although none of its events was accepted.
  pub guarantee_hides_losses :
      (reason : FlushReason) (evs : List TelemetryEvent)
      → drop_text (some (report seen s)) ≡ guaranteed
      → granted_batch env evs s ≡ false
      → let failed = trigger_flush reason (record env { write_fails = true }) s in
        let (r, refused) = ingest_batch env evs s in
        (drop_text (some (report seen failed)) ≡ guaranteed)
        × (failed.batch.batch_buffer ≡ [])
        × (drop_text (some (report seen refused)) ≡ guaranteed)
        × (r.dropped ≡ length evs)
  unfolding drop_text report
  guarantee_hides_losses reason evs h k =
      let failing = record env { write_fails = true } in
      let same = trigger_flush-SamePipeline reason failing s in
      let e = ingest_batch_effect env evs s in
      (
        rw same.metrics h,
        (trigger_flush-empties reason failing s).0,
        ground (arith, h, k, e.0, e.1, e.2, e.3, e.6),
        ground (arith, k, e.0, e.1, e.2, e.3),
      )
