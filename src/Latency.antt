-- ===== src/Latency.antt =====
-- The sample of latencies in server.ts: `recordLatency` and `getPercentiles`. Samples are whole
-- nanoseconds, percentiles the microseconds that `toFixed(3)` leaves of milliseconds.
use ingestion_engine.Prelude.{
  ℕ, ◌+◌, ◌*◌, ◌/◌, if◌then◌else◌, ltb, leb, List, [], ◌∷◌, ◌++◌, length, drop_first, get_or,
}
pub mod Sorting
pub mod Ranks

unfoldable pub record_latency : ℕ → List ℕ → List ℕ
record_latency ns latencies =
    let longer = latencies ++ ns ∷ [] in
    if ltb 500 (length longer) then drop_first longer else longer

insert_sorted : ℕ → List ℕ → List ℕ
insert_sorted x [] = x ∷ []
insert_sorted x (y ∷ ys) = if leb x y then x ∷ y ∷ ys else y ∷ insert_sorted x ys

-- `[...latencies].sort((a, b) => a - b)`
unfoldable pub sort : List ℕ → List ℕ
unfolding insert_sorted
sort [] = []
sort (x ∷ xs) = insert_sorted x (sort xs)

-- `sorted[Math.floor(sorted.length * q)] || 0`, with `q` in hundredths
unfoldable pub at_rank : ℕ → List ℕ → ℕ
at_rank q sorted = get_or sorted (length sorted * q / 100) 0

-- `parseFloat(ms.toFixed(3))`
unfoldable pub to_micros : ℕ → ℕ
to_micros ns = (ns + 500) / 1000

pub record Percentiles : Type 0 where
  pub p50 : ℕ
  pub p95 : ℕ
  pub p99 : ℕ

unfoldable pub get_percentiles : List ℕ → Percentiles
get_percentiles [] = record { p50 = 120; p95 = 450; p99 = 1200 }
get_percentiles (x ∷ xs) =
    let sorted = sort (x ∷ xs) in
    record {
      p50 = to_micros (at_rank 50 sorted);
      p95 = to_micros (at_rank 95 sorted);
      p99 = to_micros (at_rank 99 sorted);
    }
