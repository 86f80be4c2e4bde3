-- ===== src/LoadTest/Waves.antt =====
-- The size of the batches of the oscillating scenario.
use native.Mathlib.Nat.{mul-le-mul}
use ingestion_engine.Prelude.{
  ℕ, ◌+◌, ◌-◌, ◌*◌, ◌/◌, ◌≤◌, ◌≡◌, arith, max, ℤ, pos, negsuc, pos_part, ◌≤ℤ◌,
}
use ingestion_engine.Prelude.Int.{◌+ℤ◌, ◌*ℤ◌, floor_div}
use ingestion_engine.LoadTest.{tick_batch_count}

-- Ten times a tick's factor, in millionths, for a wave within -1 and 1.
factor :
    (wave : ℤ)
    → negsuc 999_999 ≤ℤ wave
    → wave ≤ℤ pos 1_000_000
    → (q : ℕ) × (pos 10_000_000 +ℤ pos 9 *ℤ wave ≡ pos q) × (1_000_000 ≤ q) × (q ≤ 19_000_000)
unfolding ◌+ℤ◌ ◌*ℤ◌
factor (pos n) h k = (10_000_000 + 9 * n, ground arith, omega arith, omega arith)
factor (negsuc n) h k = (10_000_000 - 9 * (n + 1), ground arith, omega arith, omega arith)

floor_product : (p q : ℕ) → pos_part (floor_div (pos p *ℤ pos q) 10_000_000) ≡ p * q / 10_000_000
unfolding floor_div ◌*ℤ◌
floor_product p q = ground arith

-- Each batch of the scenario "burst" has at least 10 events, at least a tenth of the events per tick, and at
-- most 1.9 times as many (or 10), the sine being between -1 and 1.
pub burst_bounds :
    (wave : ℤ) (per_tick : ℕ)
    → negsuc 999_999 ≤ℤ wave
    → wave ≤ℤ pos 1_000_000
    → let n = tick_batch_count "burst" wave per_tick in
      (10 ≤ n) × (per_tick / 10 ≤ n) × (n ≤ max 10 (19 * per_tick / 10))
unfolding tick_batch_count
burst_bounds wave per_tick h k =
    let (q, e, lo, hi) = factor wave h k in
    let least : per_tick * 1_000_000 ≤ per_tick * q = mul-le-mul (omega arith) lo in
    let most : per_tick * q ≤ per_tick * 19_000_000 = mul-le-mul (omega arith) hi in
    rw (e, floor_product per_tick q) (omega arith, omega arith, omega arith)
