-- ===== src/Batch/Persist.antt =====
-- The stored records: the newest first, of the first 50 events of each batch, 300 at most.
use mathlib.Core.List.{append_assoc, reverse-cons}
use ingestion_engine.Prelude.{
  ℕ, suc, ◌≤◌, ◌≡◌, refl, String, List, [], ◌∷◌, ◌++◌, reverse, take, length, length-take,
  take_if_longer, arith,
}
use ingestion_engine.Event.{TelemetryEvent, PersistedRecord}
use ingestion_engine.Batch.{persisted_record, persist_from, persist}

module _ (random : ℕ → String) (batch_id : ℕ) where
  -- The records of a list of events, in the events' order, numbered from `i`.
  abbrev pub records_from : ℕ → List TelemetryEvent → List PersistedRecord
  records_from i [] = []
  records_from i (ev ∷ evs) = persisted_record batch_id (random i) ev ∷ records_from (suc i) evs

  persist_from-reverse :
      (i : ℕ) (evs : List TelemetryEvent) (stored : List PersistedRecord)
      → persist_from random batch_id i evs stored ≡ reverse (records_from i evs) ++ stored
  unfolding persist_from
  persist_from-reverse i [] stored = refl
  persist_from-reverse i (ev ∷ evs) stored =
      let r = persisted_record batch_id (random i) ev in
      rw (reverse-cons r (records_from (suc i) evs), append_assoc)
        (persist_from-reverse (suc i) evs (r ∷ stored))

  -- The collection after a batch: the records of the batch's first 50 events, the last of them
  -- first, then what was stored before, cut to the first 300.
  pub persist_lem :
      (evs : List TelemetryEvent) (stored : List PersistedRecord)
      → persist random batch_id evs stored
        ≡ take 300 (reverse (records_from 0 (take 50 evs)) ++ stored)
  unfolding persist
  persist_lem evs stored =
      let all = reverse (records_from 0 (take 50 evs)) ++ stored in
      rw (persist_from-reverse 0 (take 50 evs) stored) (take_if_longer 300 all)

  pub persist-length :
      (evs : List TelemetryEvent) (stored : List PersistedRecord)
      → length (persist random batch_id evs stored) ≤ 300
  persist-length evs stored =
      let all = reverse (records_from 0 (take 50 evs)) ++ stored in
      rw (persist_lem evs stored) (omega (arith, length-take 300 all))
