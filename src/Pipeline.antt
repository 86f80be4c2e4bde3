-- ===== src/Pipeline.antt =====
-- The way of an event through server.ts, seen from outside: accepted events wait in the queue, then in
-- the batch buffer, and leave by a flush. This is the specification that the operations refine:
-- one line, first in, first out.
use mathlib.Core.List.{append-nil, append_assoc}
use ingestion_engine.Prelude.{◌+◌, ◌≡◌, sym, ap, ◌∙◌, arith, List, [], ◌++◌, length, length-append}
use ingestion_engine.Event.{TelemetryEvent}
use ingestion_engine.State.{Engine}

-- The events that are accepted and not yet flushed, the oldest first.
abbrev pub pending : Engine → List TelemetryEvent
pending s = s.batch.batch_buffer ++ s.pool.queue

-- From `s` to `t` the events `ads` were accepted, and some others were flushed: those that were
-- pending longest. The engine's totals count both.
pub record Moves (s : Engine) (ads : List TelemetryEvent) (t : Engine) : Type 0 where
  pub flushed : List TelemetryEvent
  pub order : flushed ++ pending t ≡ pending s ++ ads
  pub flushed_count : t.batch.total_events_flushed ≡ s.batch.total_events_flushed + length flushed
  pub accepted_count : t.metrics.total_accepted ≡ s.metrics.total_accepted + length ads

-- Nothing is flushed, and the totals follow what is accepted.
pub Moves-keep :
    (s t : Engine) (ads : List TelemetryEvent)
    → pending t ≡ pending s ++ ads
    → t.batch.total_events_flushed ≡ s.batch.total_events_flushed
    → t.metrics.total_accepted ≡ s.metrics.total_accepted + length ads
    → Moves s ads t
Moves-keep s t ads p f a = record {
  flushed = [];
  order = p;
  flushed_count = omega arith;
  accepted_count = a;
}

pub Moves-same :
    (s t : Engine)
    → pending t ≡ pending s
    → t.batch.total_events_flushed ≡ s.batch.total_events_flushed
    → t.metrics.total_accepted ≡ s.metrics.total_accepted
    → Moves s [] t
Moves-same s t p f a = Moves-keep s t [] (p ∙ sym (append-nil (pending s))) f (omega arith)

pub Moves-trans :
    {s t u : Engine} {xs ys : List TelemetryEvent}
    → Moves s xs t
    → Moves t ys u
    → Moves s (xs ++ ys) u
Moves-trans {s} {t} {u} {xs} {ys} p q = record {
  flushed = p.flushed ++ q.flushed;
  order =
      append_assoc p.flushed q.flushed (pending u)
      ∙ ap (◌++◌ p.flushed) q.order
      ∙ sym (append_assoc p.flushed (pending t) ys)
      ∙ ap (λ (l : List TelemetryEvent). l ++ ys) p.order
      ∙ append_assoc (pending s) xs ys;
  flushed_count =
      omega (arith, p.flushed_count, q.flushed_count, length-append p.flushed q.flushed);
  accepted_count = omega (arith, p.accepted_count, q.accepted_count, length-append xs ys);
}

-- The accounts of an engine: each accepted event is pending or flushed, and just one of these.
abbrev pub IsConserved : Engine → Type 0
IsConserved s =
    s.metrics.total_accepted
    ≡ s.batch.total_events_flushed + length s.batch.batch_buffer + length s.pool.queue

pub Moves-IsConserved :
    {s t : Engine} {ads : List TelemetryEvent} → Moves s ads t → IsConserved s → IsConserved t
Moves-IsConserved {s} {t} {ads} m h = omega (
  arith,
  m.flushed_count,
  m.accepted_count,
  ap length m.order,
  length-append m.flushed (pending t),
  length-append (pending s) ads,
  length-append s.batch.batch_buffer s.pool.queue,
  length-append t.batch.batch_buffer t.pool.queue,
)
