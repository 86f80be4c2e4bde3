-- ===== src/Latency/Ranks.antt =====
-- What the percentiles say of the samples, and the bound on the sample.
use ingestion_engine.Prelude.{
  ℕ, ◌+◌, ◌*◌, ◌/◌, ◌≤◌, ◌<◌, arith, List, [], ◌∷◌, ◌++◌, length, get_or, length-append,
  length-drop_first,
}
use ingestion_engine.Latency.{record_latency, sort, at_rank, to_micros, get_percentiles}
use ingestion_engine.Latency.Sorting.{
  count_le, count_ge, sort-IsSorted, count_le-sort, count_ge-sort, length-sort, get_or_mono,
  count_le-get_or, count_ge-get_or,
}

pub record_latency-length :
    (ns : ℕ) (latencies : List ℕ)
    → length latencies ≤ 500
    → length (record_latency ns latencies) ≤ 500
unfolding record_latency
record_latency-length ns latencies h =
    ground (arith, length-append latencies (ns ∷ []), length-drop_first (latencies ++ ns ∷ []))

-- The rank `n * q / 100` of a list of `n` entries is in range for `q` below 100.
rank-lt : (n q : ℕ) → 0 < n → q < 100 → n * q / 100 < n
rank-lt n q hn hq = grind arith

-- Of `n` samples, 1 or more, and for `q` below 100, more than `n * q / 100` are at most the value at
-- rank `q` of the sorted samples, and at least `n - n * q / 100` are at least that value.
pub at_rank_counts :
    (q : ℕ) (samples : List ℕ)
    → 0 < length samples
    → q < 100
    → let v = at_rank q (sort samples) in
      let i = length samples * q / 100 in
      (i < count_le v samples) × (length samples ≤ i + count_ge v samples)
unfolding at_rank
at_rank_counts q samples hn hq =
    let sorted = sort samples in
    let i = length samples * q / 100 in
    let v = get_or sorted i 0 in
    let count = length-sort samples in
    let inside : i < length sorted = omega (arith, rank-lt (length samples) q hn hq, count) in
    rw count (
      omega
          (arith, count_le-get_or i sorted (sort-IsSorted samples) inside, count_le-sort v samples),
      omega (
        arith,
        count_ge-get_or i sorted (sort-IsSorted samples) inside,
        count_ge-sort v samples,
        count,
      ),
    )

-- The three percentiles ascend, also those of an empty sample.
pub get_percentiles_ascend :
    (latencies : List ℕ) → let p = get_percentiles latencies in (p.p50 ≤ p.p95) × (p.p95 ≤ p.p99)
unfolding get_percentiles at_rank to_micros
get_percentiles_ascend [] = omega arith
get_percentiles_ascend (x ∷ xs) =
    let sorted = sort (x ∷ xs) in
    let n = length sorted in
    let s = sort-IsSorted (x ∷ xs) in
    let inside = rank-lt n 99 (omega (arith, length-sort (x ∷ xs))) (omega arith) in
    omega (
      arith,
      get_or_mono (n * 50 / 100) (n * 95 / 100) sorted s (omega arith) (omega arith),
      get_or_mono (n * 95 / 100) (n * 99 / 100) sorted s (omega arith) inside,
    )
