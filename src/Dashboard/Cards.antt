-- ===== src/Dashboard/Cards.antt =====
-- src/components/MetricsCards.tsx: the six cards on a report, and the colours of the queue's card. The
-- saturation of the queue is in hundredths of a percent.
use ingestion_engine.Prelude.{
  ℕ, String, [], ◌∷◌, Option, none, some, if◌then◌else◌, ltb, min, max, pos,
}
use ingestion_engine.Report.{EngineMetrics}
use ingestion_engine.Dashboard.View.{
  lit, grouped, scaled, Text, label, View, line, word, count, number,
}

unfoldable pub queue_color : EngineMetrics → String
queue_color m =
    if ltb 8000 m.queue_saturation_pct
    then "text-rose-400"
    else if ltb 4000 m.queue_saturation_pct
    then "text-amber-400"
    else "text-emerald-400"

unfoldable pub queue_bar_color : EngineMetrics → String
queue_bar_color m =
    if ltb 8000 m.queue_saturation_pct
    then "bg-rose-500"
    else if ltb 4000 m.queue_saturation_pct
    then "bg-amber-500"
    else "bg-emerald-500"

-- The width of the bar, in hundredths of a percent.
unfoldable pub bar_width : EngineMetrics → ℕ
bar_width m = min 10_000 (max 200 m.queue_saturation_pct)

abbrev pub throttled : ℕ → Text
throttled n = if ltb 0 n then count n ∷ lit " throttled (429)" ∷ [] else word "0 throttled requests"

-- Before the first report there are six empty cards.
unfoldable pub cards_view : {A : Type 0} → Option EngineMetrics → View A
cards_view none = []
cards_view (some m) =
    line "Throughput"
    ∷ label (count m.current_rps ∷ lit " RPS" ∷ [])
    ∷ label (count m.current_eps ∷ lit " events/sec" ∷ [])
    ∷ line "Queue Buffer"
    ∷ label (scaled 2 (pos m.queue_saturation_pct) ∷ lit "%" ∷ [])
    ∷ label (lit "(" ∷ count m.queue_length ∷ lit ")" ∷ [])
    ∷ line "Worker Pool"
    ∷ label (number m.active_workers ∷ lit " / " ∷ number m.total_workers ∷ [])
    ∷ label (scaled 1 (pos m.worker_utilization_pct) ∷ lit "% goroutines active" ∷ [])
    ∷ line "Latency (p95)"
    ∷ label (scaled 3 (pos m.latency_p95) ∷ lit " ms" ∷ [])
    ∷ label (
        lit "p50: "
        ∷ scaled 3 (pos m.latency_p50)
        ∷ lit "ms · p99: "
        ∷ scaled 3 (pos m.latency_p99)
        ∷ lit "ms"
        ∷ [])
    ∷ line "Batch Flush"
    ∷ label (count m.batch_buffer_length ∷ lit " / " ∷ count m.batch_threshold ∷ [])
    ∷ label (
        count m.total_batches_flushed
        ∷ lit " flushed ("
        ∷ number m.batch_flush_window_ms
        ∷ lit "ms window)"
        ∷ [])
    ∷ line "Token Bucket"
    ∷ label (grouped m.available_tokens ∷ lit " tkns" ∷ [])
    ∷ label (throttled m.rate_limited_requests)
    ∷ []
