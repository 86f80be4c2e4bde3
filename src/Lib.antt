-- ===== src/Lib.antt =====
-- Verification of the ingestion engine: the telemetry server of server.ts and the dashboard of
-- src/App.tsx and src/components.
--
-- The program. Events arrive alone (`ingestSingle`) or in batches (`ingestBatch`), pass a token bucket,
-- are checked and completed, and wait in a bounded queue. A pool of workers, a tick each 10 ms, moves
-- chunks of the queue to a batch buffer; the buffer is flushed when it is full, when the flush window
-- has passed, or at a simulated shutdown. Around this stand a log, latency samples, a metrics report,
-- settings that a request changes, a load generator, and the REST routes that call all of it. The
-- dashboard polls the routes and sends requests.
--
-- The files.
--   Prelude: shared names, tests, lists over native numbers, integers.
--   Event, State: the data types of server.ts and the fields of `class IngestionEngine`, grouped in
--     records as the class's comments group them (`Config`, `Limiter`, `Pool`, `Batch`, `Metrics`,
--     `Logs`, `LoadTest`, together `Engine`); `Env` is what one call reads of clocks and chance.
--   Pipeline: the specification of the way of an event, one line, first in, first out.
--   Logs: `addLog`. Limiter: `refillTokens`, `allowRateLimit`. Latency: `recordLatency`,
--     `getPercentiles`. Batch: `triggerFlush` and the batch ticker. Workers: the tick and the timeout
--     of `startWorkers`. Ingest: `ingestSingle`, `ingestBatch`. Tuning: `updateConfig`. LoadTest:
--     `startLoadTest`, `stopLoadTest` and the interval. Shutdown: `simulateGracefulShutdown`. Report:
--     `getMetrics` and the metrics ticker. GoFiles: `scanDir`. Server: the routes of `startServer`.
--   System: the engine as a whole. `Action` has a constructor for each request and each timer, `step`
--     runs one, `run` a list of them in any order: the event loop runs one callback at a time, so
--     every execution is such a list. An action that stands for a timeout does nothing unless the
--     timeout was set.
--     Serve relates the requests and timers of a history to its actions.
--   Dashboard: the components of src/components and src/App.tsx. View has the texts, charts and controls
--     that a component shows; Home the state of `App`, Header, Cards, Stages and Architecture what is
--     printed of a report, ConfigForm, Boxes and Sliders the form, Studio the load tests, LogFilter and
--     LogViewer the logs, Sender and SenderView the modal, Explorer and ExplorerView the source files.
--     Page is `App` with the components of its open tab: `press` is a user's event, `arrive` an answer or
--     a timeout, `page_view` what is shown.
--   Site: one dashboard, the engine, and the requests and answers between them, as a step relation: they
--     arrive in any order, and any of them may be lost. A user presses what does not send a request of a
--     kind that the page waits for, as the enabled buttons do. An answer to a component that is gone
--     reaches the one that was made in its place when its tab was opened again.
--   Examples: the theorems at concrete data.
--
-- How the code is modelled. Each method is a function from the engine to the engine, with its result.
-- Tokens are exact integers in thousandths, so a refill of `elapsed / 1000 * rps` is `elapsed * rps`;
-- settings are integers. Latencies are nanoseconds, and a number that the code rounds by `toFixed` is
-- the integer of its last digit. Where a percentage of the report lies exactly between two, its double
-- is a little off and decides: `Env.tie_up` says for each such fraction whether it goes up. Latencies
-- and durations are whole nanoseconds here, rounded with ties up. Bodies of requests have integers
-- where the code takes numbers, and the rate of a load test is a natural number. `clearInterval` is the
-- timer's field becoming `none`: a tick without an interval does nothing.
-- `Math.floor(length * 0.95)` is an integer division, with the same value for the at most 500 samples
-- there are. The phase of a ticker is arbitrary. Every loop is structural recursion on a list or a
-- count; there is no fuel.
--
-- Not modelled: floating-point rounding of tokens, request bodies with fractions or with values that are
-- no numbers, the stack limit of `push(...queue)`, Express and Vite, errors of the file system, the
-- layout, colours and icons of the dashboard, how numbers are printed (a number is shown as its value
-- and the way to print it), and the Go engine under go-engine, which is another implementation that the
-- server only lists as text.
pub mod Prelude
pub mod Event
pub mod State
pub mod Pipeline
pub mod Logs
pub mod Limiter
pub mod Latency
pub mod Batch
pub mod Workers
pub mod Ingest
pub mod Tuning
pub mod LoadTest
pub mod Shutdown
pub mod Report
pub mod GoFiles
pub mod Server
pub mod System
pub mod Site
pub mod Dashboard
pub mod Examples
