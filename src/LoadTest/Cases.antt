-- ===== src/LoadTest/Cases.antt =====
-- A tick of the load generator changes nothing, or sends one batch.
use ingestion_engine.Prelude.{ℕ, Bool, true, false, Option, none, some, List, ℤ, if◌then◌else◌}
use ingestion_engine.Event.{TelemetryEvent}
use ingestion_engine.State.{Engine, Env}
use ingestion_engine.Ingest.{ingest_batch}
use ingestion_engine.LoadTest.{Draw, mock_batch, tick_batch_count, load_test_tick, load_test_fire}

pub load_test_tick_elim {ℓ} :
    (P : Engine → Type ℓ) (env : Env) (draws : ℕ → Draw) (wave : ℤ) (s : Engine)
    → P s
    → ((evs : List TelemetryEvent) → P (ingest_batch env evs s).1)
    → P (load_test_tick env draws wave s)
unfolding load_test_tick load_test_fire
load_test_tick_elim P env draws wave s kept sent = go s.load.load_test_timer
  where
    fired :
        (active : Bool) (evs : List TelemetryEvent)
        → P (if active then (ingest_batch env evs s).1 else s)
    fired true evs = sent evs
    fired false evs = kept

    go :
        (timer : Option ℕ)
        → P (elim timer [ none ↦ s | some per_tick ↦ load_test_fire env draws wave per_tick s ])
    go none = kept
    go (some per_tick) =
        fired s.load.load_test_active
          (mock_batch draws (tick_batch_count s.load.load_test_scenario wave per_tick) 0)
