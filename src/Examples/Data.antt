-- ===== src/Examples/Data.antt =====
-- The data of the examples.
use ingestion_engine.Prelude.{ℕ, zero, suc, false, none, some, List, [], ◌∷◌, pos}
use ingestion_engine.Event.{TelemetryEvent, warn}
use ingestion_engine.State.{Config, Engine, Env}
use ingestion_engine.System.{Action, single, many, tick_workers, release_workers, tick_batch}

abbrev pub env : Env
env = record {
  now = 1000;
  perf_start = 10;
  perf_stop = 60_010;
  log_time = "12:00:00";
  iso = λ i. "2024-01-01T00:00:00.000Z";
  random_text = λ i. "x7f3";
  write_fails = false;
  sampled_latency = 250_000;
  shutdown_start = 5;
  shutdown_stop = 90_005;
  tie_up = λ a b. false;
}

abbrev pub at_time : ℕ → Env
at_time t = record env { now = t }

abbrev pub login : TelemetryEvent
login = record {
  id = some "e1";
  trace_id = none;
  span_id = none;
  service = some "auth-svc";
  host = none;
  level = none;
  message = some "login";
  payload = none;
  timestamp = none;
  latency_ns = none;
}

abbrev pub payment : TelemetryEvent
payment = record login {
  id = none;
  trace_id = some "tr-1";
  service = some "payment-svc";
  level = some warn;
  message = some "paid";
}

-- An event without a message.
abbrev pub mute : TelemetryEvent
mute = record login { message = none }

abbrev pub copies : ℕ → TelemetryEvent → List TelemetryEvent
copies zero ev = []
copies (suc n) ev = ev ∷ copies n ev

-- A small engine: 2 workers, 3 places in the queue.
abbrev pub small_config : Config
small_config = record {
  worker_count = 2;
  channel_capacity = 3;
  batch_threshold = 4;
  batch_flush_window_ms = 500;
  rate_limit_rps = pos 10;
  rate_limit_burst = pos 5;
}

abbrev pub small : Engine
small = record {
  config = small_config;
  limiter = record {
    available_tokens = pos 5000;
    last_refill_time = 1000;
    rate_limited_requests = 0;
  };
  pool = record {
    queue = [];
    active_workers = 0;
    is_shutting_down = false;
    is_paused = false;
    releases = 0;
    resets = 0;
  };
  batch = record {
    batch_buffer = [];
    last_flush_time = 1000;
    total_batches_flushed = 0;
    total_events_flushed = 0;
    total_batch_errors = 0;
    last_flush_duration = 0;
    persisted_time_series = [];
  };
  metrics = record {
    total_accepted = 0;
    total_dropped = 0;
    total_processed = 0;
    latencies = [];
    rps_counter = 0;
    eps_counter = 0;
    current_rps = 0;
    current_eps = 0;
    start_time = 0;
  };
  logs = record { recent_logs = []; max_logs = 200 };
  load = record {
    load_test_active = false;
    load_test_timer = none;
    load_test_target_rps = 2500;
    load_test_scenario = "steady";
  };
}

-- The same with `queue` waiting and `buffer` in the batch.
abbrev pub loaded : List TelemetryEvent → List TelemetryEvent → Engine
loaded queue buffer = record small {
  pool = record small.pool { queue = queue };
  batch = record small.batch { batch_buffer = buffer };
}

-- Two events come alone and two together, then the workers and the batch ticker fire.
abbrev pub history : List (Env × Action)
history =
    (at_time 1000, single login)
    ∷ (at_time 1010, single mute)
    ∷ (at_time 1020, many (payment ∷ login ∷ []))
    ∷ (at_time 1030, tick_workers)
    ∷ (at_time 1038, release_workers)
    ∷ (at_time 1600, tick_batch 1600)
    ∷ (at_time 1610, single payment)
    ∷ []
