-- ===== src/Examples/Routes.antt =====
-- The theorems on ingestion and on the routes at concrete requests.
use ingestion_engine.Prelude.{
  ◌≡◌, ◌+◌, ◌-◌, ◌++◌, ◌&&◌, refl, arith, not, none, some, List, [], ◌∷◌, length, ltb, ◌==◌,
  if◌then◌else◌, pos,
}
use ingestion_engine.Event.{TelemetryEvent}
use ingestion_engine.State.{Engine}
use ingestion_engine.Prelude.Int.{◌*ℤ◌, ◌+ℤ◌}
use ingestion_engine.Limiter.{refill_tokens, take_tokens, allow_rate_limit}
use ingestion_engine.Workers.{ceil_div}
use ingestion_engine.Ingest.{
  batch_cost, accepted, rate_limited, queue_saturated, ingest_single, ingest_batch, is_valid,
}
use ingestion_engine.Ingest.Single.{
  verdict, granted_one, has_room, admitted, completed, ingest_single-verdict, ingest_single_effect,
}
use ingestion_engine.Ingest.Many.{
  granted_batch, admitted_batch, ingest_batch_effect, refused_batch_counts,
}
use ingestion_engine.Report.{get_metrics}
use ingestion_engine.Server.{handle, post_single, post_batch, read_health, batch_summary, health}
use ingestion_engine.Server.Codes.{
  code_of, post_single_code, post_batch_code, post_batch_label, health_threshold,
}
use ingestion_engine.GoFiles.{Entries, file, dir, end, entry, scan_dir}
use ingestion_engine.GoFiles.Listing.{HasNames, AreNamed, entry_leaves, listed, scan_dir-listed}
use ingestion_engine.Examples.Data.{env, login, payment, mute, copies, loaded}

abbrev waiting : Engine
waiting = loaded (payment ∷ []) []

ingest_single-verdict_example :
    (ingest_single env login waiting).0.status
    ≡ verdict (granted_one env waiting) (is_valid login) (has_room env login waiting)
ingest_single-verdict_example = ingest_single-verdict env login waiting

ingest_single_effect_example :
    let (r, t) = ingest_single env login waiting in
    let ads = admitted r.status (completed env login) in
    (t.pool.queue ≡ (payment ∷ []) ++ ads)
    × (t.metrics.total_accepted ≡ 0 + length ads)
    × (t.metrics.total_dropped ≡ 0 + (elim r.status [ queue_saturated ↦ 1 | _ ↦ 0 ]))
    × (r.trace_id ≡ (elim r.status [ accepted ↦ (completed env login).trace_id | _ ↦ none ]))
ingest_single_effect_example = ingest_single_effect env login waiting

abbrev three : List TelemetryEvent
three = login ∷ mute ∷ payment ∷ []

ingest_batch_effect_example :
    let (r, t) = ingest_batch env three waiting in
    let ads = admitted_batch env three waiting in
    (r.total ≡ 3)
    × (r.accepted ≡ length ads)
    × (r.accepted + r.dropped ≡ r.total)
    × (r.rate_limited ≡ not (granted_batch env three waiting))
    × (t.pool.queue ≡ (payment ∷ []) ++ ads)
    × (t.metrics.total_accepted ≡ 0 + r.accepted)
    × (t.metrics.total_dropped ≡ 0 + (if r.rate_limited then 0 else r.dropped))
ingest_batch_effect_example = ingest_batch_effect env three waiting

-- No token is left.
abbrev exhausted : Engine
exhausted = record waiting { limiter = record waiting.limiter { available_tokens = pos 0 } }

refused_batch_counts_example :
    (ingest_batch env three exhausted).1.limiter.rate_limited_requests ≡ 4
unfolding allow_rate_limit take_tokens refill_tokens batch_cost ceil_div ◌*ℤ◌ ◌+ℤ◌
refused_batch_counts_example = refused_batch_counts env three exhausted refl

post_single_code_example :
    let (r, t) = handle env (post_single login) waiting in
    let status = verdict (granted_one env waiting) (is_valid login) (has_room env login waiting) in
    (r.code ≡ code_of status)
    × (r.retry_after ≡ (elim status [ rate_limited ↦ some "1" | _ ↦ none ]))
    × (t.pool.queue ≡ (payment ∷ []) ++ admitted status (completed env login))
post_single_code_example = post_single_code env login waiting

post_batch_code_example :
    let (r, t) = handle env (post_batch (some three)) waiting in
    let ads = admitted_batch env three waiting in
    (r.code ≡ (
      if granted_batch env three waiting
      then (if ltb 0 3 then (if length ads == 0 then 503 else 202) else 202)
      else 429))
    × (t.pool.queue ≡ (payment ∷ []) ++ ads)
post_batch_code_example = post_batch_code env three waiting

post_batch_label_example :
    let ads = length (admitted_batch env three waiting) in
    (handle env (post_batch (some three)) waiting).0.body
    ≡ batch_summary
        (if ltb 0 3 && ads == 0 then "partially_dropped" else "accepted")
        3
        ads
        (3 - ads)
unfolding allow_rate_limit take_tokens refill_tokens batch_cost ceil_div ◌*ℤ◌ ◌+ℤ◌
post_batch_label_example = post_batch_label env three waiting refl

health_threshold_example :
    (handle env read_health (loaded (copies 3 login) [])).0.body
    ≡ health "degraded"
        (get_metrics env (loaded (copies 3 login) [])).0.uptime_sec
        (get_metrics env (loaded (copies 3 login) [])).0.queue_saturation_pct
health_threshold_example =
    health_threshold env (loaded (copies 3 login) []) (omega arith) (λ e. omega (arith, e))

abbrev tree : Entries
tree =
    entry "cmd" (dir (entry "main.go" (file "package main") end))
      (entry "Dockerfile" (file "FROM go") end)

scan_dir-listed_example : scan_dir (some tree) ≡ listed (entry_leaves tree [])
unfolding AreNamed HasNames
scan_dir-listed_example = scan_dir-listed tree (tt, (tt, tt, tt), (tt, tt, tt))
