-- ===== src/Logs.antt =====
-- `addLog` of server.ts: the newest line first, and a cap on their number.
use ingestion_engine.Prelude.{ltb, if◌then◌else◌, length, drop_last, String, ◌∷◌}
use ingestion_engine.Event.{Level, Fields, StructuredLog}
use ingestion_engine.State.{Logs}
pub mod Cap

unfoldable pub add_log : String → Level → String → String → Fields → Logs → Logs
add_log time level msg caller fields l =
    let entry : StructuredLog = record {
      time = time;
      level = level;
      msg = msg;
      caller = caller;
      fields = fields;
    } in
    let longer = entry ∷ l.recent_logs in
    record l { recent_logs = if ltb l.max_logs (length longer) then drop_last longer else longer }
