-- ===== src/P2/StreamWorker/Clock.antt =====
-- `calibrate_clock` is the median of the deltas.
use netperf.Prelude.{ℕ, suc, ◌/◌, ◌≤◌, ◌<◌, ◌≡◌, refl, ap, List, [], ◌∷◌, length, arith}
use netperf.Core.Sort.{sort_unstable, sort_unstable-IsSorted, count_le, count_lt}
use netperf.Core.Sort.Counts.{length-sort_unstable, count_le-sort_unstable, count_lt-sort_unstable}
use netperf.Core.Sort.Ranks.{count_le-get_or, count_lt-get_or}
use netperf.P2.StreamWorker.{deltas, calibrate_clock}

length-deltas : (prev : ℕ) (reads : List ℕ) → length (deltas prev reads) ≡ length reads
length-deltas prev [] = refl
length-deltas prev (now ∷ reads) = ap suc (length-deltas now reads)

-- For at least one clock read behind the first, more than half of the deltas are at most the
-- result of `calibrate_clock`, and at most half of them are below it.
pub calibrate_clock-median :
    (first : ℕ) (reads : List ℕ)
    → 0 < length reads
    → let m = calibrate_clock first reads in
      (length reads / 2 < count_le m (deltas first reads))
      × (count_lt m (deltas first reads) ≤ length reads / 2)
unfolding calibrate_clock
calibrate_clock-median first reads h =
    let ds = deltas first reads in
    let sorted = sort_unstable ds in
    let size = length-sort_unstable ds in
    let same = length-deltas first reads in
    let ordered = sort_unstable-IsSorted ds in
    let i = length sorted / 2 in
    (
      omega (
        arith,
        count_le-get_or sorted i 0 ordered (omega arith),
        count_le-sort_unstable (calibrate_clock first reads) ds,
      ),
      omega (
        arith,
        count_lt-get_or sorted i 0 ordered (omega arith),
        count_lt-sort_unstable (calibrate_clock first reads) ds,
      ),
    )
