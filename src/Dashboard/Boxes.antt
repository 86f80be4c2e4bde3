-- ===== src/Dashboard/Boxes.antt =====
-- src/components/ConfigPanel.tsx: the boxes of the six sliders.
use ingestion_engine.Prelude.{ℕ, ℤ, String, List, [], ◌∷◌}
use ingestion_engine.Dashboard.View.{Part, whole, grouped}

-- The six settings that a slider moves.
pub data Setting : Type 0 where
  workers capacity threshold window rate burst : Setting

-- What a slider's box says: its title, unit and whether its number is grouped, the least and greatest
-- number and the step, three marks and a text.
pub record SliderBox : Type 0 where
  pub title : String
  pub shown : ℤ → Part
  pub unit : String
  pub least : ℕ
  pub greatest : ℕ
  pub step : ℕ
  pub marks : List String
  pub text : String

abbrev pub workers_box : SliderBox
workers_box = record {
  title = "Worker Pool Size";
  shown = whole;
  unit = " goroutines";
  least = 4;
  greatest = 128;
  step = 4;
  marks = ("4 routines" ∷ "32 routines" ∷ "128 routines" ∷ []);
  text =
      "Number of concurrent Go worker routines pulling from the bounded task channel simultaneously.";
}

abbrev pub capacity_box : SliderBox
capacity_box = record {
  title = "Channel Buffer Capacity";
  shown = grouped;
  unit = " items";
  least = 1000;
  greatest = 100_000;
  step = 1000;
  marks = ("1k" ∷ "50k (Production)" ∷ "100k" ∷ []);
  text =
      "Length of bounded Go channel (`chan TelemetryEvent`) to absorb traffic surges without dropping.";
}

abbrev pub threshold_box : SliderBox
threshold_box = record {
  title = "Batch Count Threshold";
  shown = grouped;
  unit = " records";
  least = 500;
  greatest = 15_000;
  step = 500;
  marks = ("500" ∷ "5,000 (Target)" ∷ "15,000" ∷ []);
  text = "Immediate MongoDB bulk write trigger once in-memory event accumulator reaches this size.";
}

abbrev pub window_box : SliderBox
window_box = record {
  title = "Batch Flush Window (ms)";
  shown = whole;
  unit = " ms";
  least = 50;
  greatest = 2000;
  step = 50;
  marks = ("50 ms" ∷ "500 ms (Target)" ∷ "2,000 ms" ∷ []);
  text =
      "Maximum dwell time in memory before flushing, preventing stale data under sparse ingestion.";
}

abbrev pub rate_box : SliderBox
rate_box = record {
  title = "Token Refill Rate";
  shown = grouped;
  unit = " tokens/s";
  least = 1000;
  greatest = 50_000;
  step = 1000;
  marks = ("1,000" ∷ "10,000" ∷ "50,000" ∷ []);
  text = "Tokens replenished per second into the rate limiter to throttle abusive IPs or clients.";
}

abbrev pub burst_box : SliderBox
burst_box = record {
  title = "Burst Capacity";
  shown = grouped;
  unit = " burst tokens";
  least = 2000;
  greatest = 100_000;
  step = 2000;
  marks = ("2,000" ∷ "20,000" ∷ "100,000" ∷ []);
  text =
      "Maximum instantaneous burst tokens permitted before generating HTTP 429 Too Many Requests.";
}

unfoldable pub slider_box : Setting → SliderBox
slider_box workers = workers_box
slider_box capacity = capacity_box
slider_box threshold = threshold_box
slider_box window = window_box
slider_box rate = rate_box
slider_box burst = burst_box
