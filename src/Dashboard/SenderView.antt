-- ===== src/Dashboard/SenderView.antt =====
-- src/components/EventSenderModal.tsx: what the modal shows, and its controls.
use text.Mathlib.Text.{◌==◌ as str_eq}
use ingestion_engine.Prelude.{
  ℕ, pos, String, Bool, true, false, not, Option, none, some, [], ◌∷◌, ◌++◌, if◌then◌else◌,
}
use ingestion_engine.Event.{Level, debug, info, warn, error}
use ingestion_engine.Server.{Request, Body}
use ingestion_engine.Dashboard.LogFilter.{level_text}
use ingestion_engine.Dashboard.Sender.{
  Mode, one, batch, Outcome, answered, failed, Modal, Texts, send,
}
use ingestion_engine.Dashboard.View.{
  lit, View, label, button, slider, entry, choice, line, word, number,
}

pub data SenderEvent : Type 0 where
  close ingest : SenderEvent
  set_mode : Mode → SenderEvent
  set_service set_level set_message : String → SenderEvent
  set_batch_count : ℕ → SenderEvent

abbrev is_one : Mode → Bool
is_one one = true
is_one batch = false

-- The level that an option of the list names; the list has no other option.
unfoldable pub level_of : String → Option Level
level_of s =
    if str_eq s "INFO"
    then some info
    else if str_eq s "WARN"
    then some warn
    else if str_eq s "ERROR"
    then some error
    else if str_eq s "DEBUG"
    then some debug
    else none

-- `onClose` is for the page around the modal.
unfoldable pub on_sender : Texts → SenderEvent → Modal → Option Request × Modal
unfolding send level_of
on_sender texts close m = (none, m)
on_sender texts ingest m = let (r, waiting) = send texts m in (some r, waiting)
on_sender texts (set_mode mode) m = (none, record m { mode = mode })
on_sender texts (set_service s) m = (none, record m { service = s })
on_sender texts (set_level s) m =
    (none, elim (level_of s) [ none ↦ m | some l ↦ record m { level = l } ])
on_sender texts (set_message s) m = (none, record m { message = s })
on_sender texts (set_batch_count n) m = (none, record m { batch_count = n })

unfoldable pub batch_slider : Modal → View SenderEvent
batch_slider m = elim m.mode [
  | one ↦ []
  | batch ↦
      label (lit "Batch Size (" ∷ number m.batch_count ∷ lit " records)" ∷ [])
      ∷ slider 5 500 5 (pos m.batch_count) set_batch_count
      ∷ []
]

-- `JSON.stringify` of a body or a message is a parameter.
module _ (stringify : Body → String) (quote : String → String) where
  unfoldable pub feedback : Option Outcome → View SenderEvent
  feedback none = []
  feedback (some (answered code body)) =
      line "HTTP Response" ∷ label (lit "HTTP " ∷ number code ∷ []) ∷ line (stringify body) ∷ []
  feedback (some (failed message)) =
      line "HTTP Response" ∷ label (lit "HTTP " ∷ number 500 ∷ []) ∷ line (quote message) ∷ []

  unfoldable pub sender_view : Bool → Modal → View SenderEvent
  unfolding batch_slider feedback level_text
  sender_view false m = []
  sender_view true m =
      button true false [] close
        ∷ line "Manual Ingestion Event Dispatcher"
        ∷ line "Dispatches strict JSON telemetry payloads to the HTTP Ingestion Router"
        ∷ button true (is_one m.mode) (word "Single Event (POST /events/single)") (set_mode one)
        ∷ button true (not (is_one m.mode)) (word "Batch Array (POST /events/batch)")
            (set_mode batch)
        ∷ line "Service Name"
        ∷ choice
            ("payment-gateway" ∷ "auth-service" ∷ "telemetry-agent" ∷ "order-router"
              ∷ "database-cluster" ∷ [])
            m.service set_service
        ∷ line "Severity Level"
        ∷ choice ("INFO" ∷ "WARN" ∷ "ERROR" ∷ "DEBUG" ∷ []) (level_text m.level) set_level
        ∷ line "Message Payload"
        ∷ entry "" m.message set_message
        ∷ batch_slider m
      ++ button (not m.loading) false
          (word (if m.loading then "TRANSMITTING..." else "INGEST EVENT (NON-BLOCKING)")) ingest
        ∷ feedback m.response_result
