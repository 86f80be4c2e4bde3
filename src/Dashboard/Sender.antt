-- ===== src/Dashboard/Sender.antt =====
-- src/components/EventSenderModal.tsx: the form that sends one event or a batch of them.
use Prim.Native.String.{◌++◌ as concat}
use ingestion_engine.Prelude.{
  ℕ, zero, suc, ◌+◌, ◌%◌, ◌≡◌, refl, ap, String, Bool, true, false, Option, none, some, List, [],
  ◌∷◌, length,
}
use ingestion_engine.Event.{TelemetryEvent, Level, info}
use ingestion_engine.Server.{Request, post_single, post_batch, Response, Body}
pub mod Answers

pub data Mode : Type 0 where
  one batch : Mode

-- The answer to a request, or the message of what went wrong with it.
pub data Outcome : Type 0 where
  answered : ℕ → Body → Outcome
  failed : String → Outcome

-- What the user has entered, and what came of the last request.
pub record Modal : Type 0 where
  pub mode : Mode
  pub service : String
  pub level : Level
  pub message : String
  pub batch_count : ℕ
  pub loading : Bool
  pub response_result : Option Outcome

unfoldable pub new_modal : Modal
new_modal = record {
  mode = one;
  service = "payment-gateway";
  level = info;
  message = "Payment intent authorized successfully via Stripe";
  batch_count = 25;
  loading = false;
  response_result = none;
}

-- The texts that a request is made of: the date for each event, the random payload, and the decimals of a number.
pub record Texts : Type 0 where
  pub iso : ℕ → String
  pub payload : String
  pub decimal : ℕ → String

unfoldable pub single_payload : Texts → Modal → TelemetryEvent
single_payload texts m = record {
  id = none;
  trace_id = none;
  span_id = none;
  service = some m.service;
  host = some "prod-api-01.us-east";
  level = some m.level;
  message = some m.message;
  payload = some texts.payload;
  timestamp = some (texts.iso 0);
  latency_ns = none;
}

unfoldable pub batch_item : Texts → Modal → ℕ → TelemetryEvent
batch_item texts m i = record {
  id = none;
  trace_id = none;
  span_id = none;
  service = some m.service;
  host = some (concat "node-" (concat (texts.decimal (i % 8 + 1)) ".internal"));
  level = some m.level;
  message = some (concat m.message (concat " [item #" (concat (texts.decimal (i + 1)) "]")));
  payload = none;
  timestamp = some (texts.iso i);
  latency_ns = none;
}

-- The loop that makes items `i`, `i + 1`, …, as many as `left`.
unfoldable pub batch_items : Texts → Modal → ℕ → ℕ → List TelemetryEvent
batch_items texts m zero i = []
batch_items texts m (suc left) i = batch_item texts m i ∷ batch_items texts m left (suc i)

unfoldable pub send : Texts → Modal → Request × Modal
unfolding single_payload batch_items
send texts m =
    let waiting = record m { loading = true; response_result = none } in
    elim m.mode [
      | one ↦ (post_single (single_payload texts m), waiting)
      | batch ↦ (post_batch (some (batch_items texts m m.batch_count 0)), waiting)
    ]

unfoldable pub answer_arrives : Response → Modal → Modal
answer_arrives r m = record m { loading = false; response_result = some (answered r.code r.body) }

-- The handler of an exception.
unfoldable pub send_fails : String → Modal → Modal
send_fails message m = record m { loading = false; response_result = some (failed message) }

pub length-batch_items :
    (texts : Texts) (m : Modal) (left i : ℕ) → length (batch_items texts m left i) ≡ left
unfolding batch_items
length-batch_items texts m zero i = refl
length-batch_items texts m (suc left) i = ap suc (length-batch_items texts m left (suc i))
