-- ===== src/Dashboard/Stages.antt =====
-- src/components/ArchitectureFlow.tsx: what the panel says of each stage. A code snippet is the list of
-- its lines.
use ingestion_engine.Prelude.{String, List, [], ◌∷◌}

pub data Stage : Type 0 where
  router ratelimit channel workers batch mongo : Stage

pub record StageDetail : Type 0 where
  pub title : String
  pub go_file : String
  pub summary : String
  pub code_snippet : List String
  pub concurrency_concept : String

abbrev router_detail : StageDetail
router_detail = record {
  title = "HTTP Ingestion Server (net/http)";
  go_file = "internal/router/router.go";
  summary =
      "A lightweight non-blocking HTTP router exposing strict JSON payload endpoints (/api/v1/events/single and /api/v1/events/batch). Accepts payloads up to 10MB, verifies schema integrity, and responds immediately with HTTP 202 Accepted, decoupling network socket handling from disk latency.";
  code_snippet =
      ("// Non-blocking 202 Accepted handler in Go"
        ∷ "func (s *Server) handleSingleEvent(w http.ResponseWriter, r *http.Request) {"
        ∷ "    ev, err := event.ParseEvent(body)" ∷ "    if err != nil {"
        ∷ "        http.Error(w, \"invalid payload\", 400)" ∷ "        return" ∷ "    }"
        ∷ "    // Enqueue without blocking the HTTP listener"
        ∷ "    if err := s.pool.Enqueue(*ev); err != nil {"
        ∷ "        http.Error(w, \"queue_saturated\", 503)" ∷ "        return" ∷ "    }"
        ∷ "    w.WriteHeader(http.StatusAccepted)"
        ∷ "    json.NewEncoder(w).Encode(map[string]string{\"status\": \"accepted\", \"trace_id\": ev.TraceID})"
        ∷ "}" ∷ []);
  concurrency_concept = "Decoupled socket I/O with zero blocking writes to disk.";
}

abbrev ratelimit_detail : StageDetail
ratelimit_detail = record {
  title = "Token Bucket Rate Limiting Middleware";
  go_file = "internal/ratelimit/token_bucket.go";
  summary =
      "Guards the ingestion engine against runaway client loops and denial-of-service spikes. Dynamically refills tokens at a defined rate per second while providing an elastic burst capacity. Rejects surplus requests with HTTP 429 and Retry-After headers.";
  code_snippet =
      ("// Thread-safe Token Bucket Refill in Go"
        ∷ "func (tb *TokenBucket) AllowN(n float64) bool {" ∷ "    tb.mu.Lock()"
        ∷ "    defer tb.mu.Unlock()" ∷ "" ∷ "    now := time.Now()"
        ∷ "    elapsed := now.Sub(tb.lastRefill).Seconds()" ∷ "    tb.lastRefill = now" ∷ ""
        ∷ "    tb.tokens = math.Min(tb.capacity, tb.tokens + elapsed * tb.refillRate)"
        ∷ "    if tb.tokens >= n {" ∷ "        tb.tokens -= n" ∷ "        return true" ∷ "    }"
        ∷ "    return false // Trigger HTTP 429" ∷ "}" ∷ []);
  concurrency_concept = "sync.Mutex protected token replenishment with sub-microsecond evaluation.";
}

abbrev channel_detail : StageDetail
channel_detail = record {
  title = "Bounded Channel Queue (chan TelemetryEvent)";
  go_file = "internal/worker/pool.go";
  summary =
      "Core Go channel with a strictly bounded buffer capacity (e.g. 50,000 items). Protects memory against out-of-memory crashes during extreme traffic spikes. Utilizes non-blocking select statements to engage graceful backpressure when full.";
  code_snippet =
      ("// Non-blocking channel enqueue in Go" ∷ "select {" ∷ "case p.taskCh <- ev:"
        ∷ "    atomic.AddUint64(&p.accepted, 1)" ∷ "    return nil" ∷ "default:"
        ∷ "    // Backpressure triggered: drop packet safely without blocking"
        ∷ "    atomic.AddUint64(&p.dropped, 1)" ∷ "    return ErrQueueFull" ∷ "}" ∷ []);
  concurrency_concept =
      "CSP (Communicating Sequential Processes) channel buffering without OS lock contention.";
}

abbrev workers_detail : StageDetail
workers_detail = record {
  title = "Worker Pool (Goroutines & sync.WaitGroup)";
  go_file = "internal/worker/pool.go";
  summary =
      "A fixed pool of worker goroutines (e.g. 32-64 workers) continuously pulling from the ingestion channel and passing records to the batch processor. On OS signal (SIGINT/SIGTERM), coordinates graceful draining via context cancellation and wait groups.";
  code_snippet =
      ("// Bounded worker routine with graceful drain" ∷ "func (p *Pool) workerRoutine(id int) {"
        ∷ "    defer p.wg.Done()" ∷ "    for {" ∷ "        select {"
        ∷ "        case <-p.ctx.Done():"
        ∷ "            for ev := range p.taskCh { // Drain in-flight"
        ∷ "                p.batchProc.Submit(ev)" ∷ "            }" ∷ "            return"
        ∷ "        case ev, ok := <-p.taskCh:" ∷ "            if !ok { return }"
        ∷ "            p.batchProc.Submit(ev)" ∷ "        }" ∷ "    }" ∷ "}" ∷ []);
  concurrency_concept = "sync.WaitGroup synchronization with atomic thread-safe state counters.";
}

abbrev batch_detail : StageDetail
batch_detail = record {
  title = "Batch Processor (Dual-Trigger Accumulator)";
  go_file = "internal/batch/processor.go";
  summary =
      "Accumulates incoming events in an in-memory buffer. Triggers bulk writes whenever the buffer reaches the count threshold (e.g. 5,000 records) OR when the time ticker ticks (e.g. 500ms window), whichever occurs first.";
  code_snippet =
      ("// Dual-trigger flushing logic in Go" ∷ "select {" ∷ "case ev := <-p.inCh:"
        ∷ "    p.buffer = append(p.buffer, ev)" ∷ "    if len(p.buffer) >= p.threshold {"
        ∷ "        p.doFlush(p.buffer, \"count_threshold\")"
        ∷ "        p.buffer = make([]event.TelemetryEvent, 0, p.threshold)" ∷ "    }"
        ∷ "case <-ticker.C:" ∷ "    if len(p.buffer) > 0 {"
        ∷ "        p.doFlush(p.buffer, \"window_timeout\")"
        ∷ "        p.buffer = make([]event.TelemetryEvent, 0, p.threshold)" ∷ "    }" ∷ "}" ∷ []);
  concurrency_concept = "Threshold slicing with time.Ticker dual-trigger multiplexing.";
}

abbrev mongo_detail : StageDetail
mongo_detail = record {
  title = "Persistence Layer (MongoDB Driver & Compound Indexes)";
  go_file = "internal/storage/mongo.go";
  summary =
      "Executes unordered BulkWrite operations against MongoDB using connection pooling. Configured with optimized compound indexes (service: 1, timestamp: -1, level: 1 and trace_id: 1, timestamp: -1) for sub-millisecond time-series and trace queries.";
  code_snippet =
      ("// High-velocity unordered BulkWrite in Go"
        ∷ "models := make([]mongo.WriteModel, len(events))" ∷ "for i, ev := range events {"
        ∷ "    models[i] = mongo.NewInsertOneModel().SetDocument(ev)" ∷ "}"
        ∷ "// SetOrdered(false) enables multi-shard parallel insertion"
        ∷ "opts := options.BulkWrite().SetOrdered(false)"
        ∷ "res, err := ms.collection.BulkWrite(ctx, models, opts)" ∷ []);
  concurrency_concept =
      "Unordered bulk insert pipeline with connection pool tuning (Min/Max pool).";
}

unfoldable pub stage_details : Stage → StageDetail
stage_details router = router_detail
stage_details ratelimit = ratelimit_detail
stage_details channel = channel_detail
stage_details workers = workers_detail
stage_details batch = batch_detail
stage_details mongo = mongo_detail
