-- ===== src/Core/Dist.antt =====
-- `Dist::from_samples` of crates/netperf-core/src/stats.rs: exact nearest-rank percentiles.
pub mod Rank
pub mod Bounds
use Prim.Native.Nat.{min}
use netperf.Prelude.{ℕ, ◌+◌, ◌-◌, ◌*◌, ◌/◌, List, [], ◌∷◌, length, get_or, usize, u64, u128}
use netperf.Core.Stats.{Dist}
use netperf.Core.Sort.{sort_unstable, sum}

-- `usize::div_ceil`
abbrev pub div_ceil : ℕ → ℕ → ℕ
div_ceil a b = (a + (b - 1)) / b

-- `p as usize * n` wraps at 32 bits, as a release build does on the target.
abbrev pub rank : ℕ → ℕ → ℕ
rank p n = div_ceil (usize (p * n)) 100

-- `rank.saturating_sub(1).min(n - 1)`, for 0 < n
abbrev pub pct_index : ℕ → ℕ → ℕ
pct_index p n = min (rank p n - 1) (n - 1)

-- The closure `pct` over the sorted samples. The index is in range, so 0 is never read.
abbrev pub pct : List ℕ → ℕ → ℕ
pct v p = get_or v (pct_index p (length v)) 0

abbrev pub default : Dist
default = record { count = 0; min = 0; p50 = 0; p90 = 0; p99 = 0; p100 = 0; mean = 0 }

-- The body after `v.sort_unstable()`, for a nonempty `v`.
pub of_sorted : List ℕ → Dist
of_sorted v =
    let n = length v in
    record {
      count = u64 n;
      min = get_or v 0 0;
      p50 = pct v 50;
      p90 = pct v 90;
      p99 = pct v 99;
      p100 = get_or v (n - 1) 0;
      mean = u64 (u128 (sum v) / n);
    }

unfoldable pub from_samples : List ℕ → Dist
unfolding of_sorted
from_samples [] = default
from_samples (x ∷ xs) = of_sorted (sort_unstable (x ∷ xs))
