-- ===== src/Tests/Core.antt =====
-- Percentiles of a few samples, and the theorems about them there.
use mathlib.Core.List.Perm
use netperf.Prelude.{ℕ, suc, ◌*◌, ◌<◌, ◌≡◌, refl, List, [], ◌∷◌, arith}
use netperf.Core.Sort.{sort_unstable}
use netperf.Core.Dist.{from_samples, default, pct_index}
use netperf.Core.Dist.Rank.{NearestRank, from_samples-NearestRank, pct_index-short}
use netperf.Core.Dist.Bounds.{Ascending, from_samples-Ascending, from_samples-perm}

abbrev samples : List ℕ
samples = 50 ∷ 10 ∷ 40 ∷ 20 ∷ 30 ∷ []

from_samples-samples :
    from_samples samples
    ≡ record { count = 5; min = 10; p50 = 30; p90 = 50; p99 = 50; p100 = 50; mean = 30 }
unfolding from_samples sort_unstable
from_samples-samples = refl

from_samples-nil : from_samples [] ≡ default
unfolding from_samples
from_samples-nil = refl

from_samples-NearestRank_example :
    NearestRank 50 samples (from_samples samples).p50
    × NearestRank 90 samples (from_samples samples).p90
    × NearestRank 99 samples (from_samples samples).p99
from_samples-NearestRank_example = from_samples-NearestRank samples (omega arith) (omega arith)

from_samples-Ascending_example : Ascending (from_samples samples)
from_samples-Ascending_example =
    from_samples-Ascending samples (omega arith) (omega arith) (omega arith)

from_samples-perm_example : from_samples (50 ∷ 10 ∷ 40 ∷ []) ≡ from_samples (10 ∷ 50 ∷ 40 ∷ [])
from_samples-perm_example = from_samples-perm (Perm.swap 10 50 (40 ∷ []))

pct_index-short_example : 100 * suc (pct_index 99 50_000_000) < 99 * 50_000_000
pct_index-short_example = pct_index-short 50_000_000 (omega arith) (omega arith)
