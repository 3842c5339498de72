-- ===== src/LatencyLogger/Stats.antt =====
-- What the statistics of src/libs/telemetry/latency-logger.service.ts say of the latencies.
use starsyncbackend.Prelude.{
  ℕ, suc, ◌*◌, ◌/◌, ◌≤◌, ◌<◌, String, not, List, [], ◌∷◌, ◌≡◌, refl, arith, length, count, All, sym,
  ap, subst,
}
use starsyncbackend.Prelude.Int.{ℤ, ltb_ℤ, ◌≤ℤ◌}
use starsyncbackend.LatencyLogger.{
  LatencyLogger, LatencyStats, sort, at, stats_of, latencies_of, get_latency_stats,
}
use starsyncbackend.LatencyLogger.Sorting.{
  Sorted, count-sort, length-sort, sort-All, sort-Sorted, at-mono, count-at,
}

-- The statistics describe the numbers: how many there are, an order of the extremes and the
-- percentiles, bounds on every number, and the share of the numbers that a percentile bounds.
pub record Describes (t : LatencyStats) (xs : List ℤ) : Type 0 where
  pub number : t.count ≡ length xs
  pub ordered : (t.min ≤ℤ t.p95) × (t.p95 ≤ℤ t.p99) × (t.p99 ≤ℤ t.max)
  pub within : All (λ x. (t.min ≤ℤ x) × (x ≤ℤ t.max)) xs
  pub share95 : length xs * 95 ≤ 100 * count (λ x. not (ltb_ℤ t.p95 x)) xs
  pub share99 : length xs * 99 ≤ 100 * count (λ x. not (ltb_ℤ t.p99 x)) xs

-- Every number lies between the first and the last.
Sorted-All :
    (xs : List ℤ) (low high : ℤ)
    → Sorted xs
    → ((i : ℕ) → i < length xs → (low ≤ℤ at xs i) × (at xs i ≤ℤ high))
    → All (λ x. (low ≤ℤ x) × (x ≤ℤ high)) xs
unfolding at
Sorted-All [] low high s h = tt
Sorted-All (x ∷ xs) low high s h =
    (h 0 (omega arith), Sorted-All xs low high s.1 (λ i k. h (suc i) (omega (arith, k))))

stats_of-Describes :
    (x : ℤ) (xs : List ℤ) → Sorted (x ∷ xs) → Describes (stats_of (x ∷ xs)) (x ∷ xs)
unfolding stats_of
stats_of-Describes x xs s =
    let ys = x ∷ xs in
    let n = length xs in
    let k95 : suc n * 95 / 100 < suc n = omega arith in
    let k99 : suc n * 99 / 100 < suc n = omega arith in
    record {
      number = refl;
      ordered = (
        at-mono ys 0 (suc n * 95 / 100) s (omega arith) k95,
        at-mono ys (suc n * 95 / 100) (suc n * 99 / 100) s (omega arith) k99,
        at-mono ys (suc n * 99 / 100) n s (omega (arith, k99)) (omega arith),
      );
      within = Sorted-All ys (at ys 0) (at ys n) s (λ i h.
          (at-mono ys 0 i s (omega arith) h, at-mono ys i n s (omega (arith, h)) (omega arith)));
      share95 = omega (arith, count-at ys (suc n * 95 / 100) s k95);
      share99 = omega (arith, count-at ys (suc n * 99 / 100) s k99);
    }

Describes-sort : (t : LatencyStats) (xs : List ℤ) → Describes t (sort xs) → Describes t xs
Describes-sort t xs d = record {
  number = rw (sym (length-sort xs)) d.number;
  ordered = d.ordered;
  within = sort-All (λ x. (t.min ≤ℤ x) × (x ≤ℤ t.max)) xs d.within;
  share95 = omega (arith, d.share95, length-sort xs, count-sort (λ x. not (ltb_ℤ t.p95 x)) xs);
  share99 = omega (arith, d.share99, length-sort xs, count-sort (λ x. not (ltb_ℤ t.p99 x)) xs);
}

-- Where an operation has a measurement, its statistics count its latencies; the minimum, the 95th
-- percentile, the 99th percentile and the maximum ascend in this order; every latency lies between
-- the minimum and the maximum; and at least 95 (99) in a hundred of the latencies are not above the
-- 95th (99th) percentile.
pub get_latency_stats-Describes :
    (operation : String) (s : LatencyLogger)
    → 0 < length (latencies_of operation s)
    → Describes (get_latency_stats operation s) (latencies_of operation s)
unfolding get_latency_stats
get_latency_stats-Describes operation s some_there = go (sort (latencies_of operation s)) refl
  where
    go :
        (ys : List ℤ)
        → sort (latencies_of operation s) ≡ ys
        → Describes (get_latency_stats operation s) (latencies_of operation s)
    go [] e =
        absurd (
          omega (arith, some_there, length-sort (latencies_of operation s), ap (λ ys. length ys) e))
    go (y ∷ ys) e =
        let sorted = subst (λ zs. Sorted zs) e (sort-Sorted (latencies_of operation s)) in
        let there =
          subst (λ zs. Describes (stats_of zs) zs) (sym e) (stats_of-Describes y ys sorted) in
        Describes-sort _ (latencies_of operation s) there
