-- ===== src/Core/Dist/Rank.antt =====
-- The percentiles of `from_samples` are nearest ranks, as long as no product wraps.
use netperf.Prelude.{ℕ, suc, ◌*◌, ◌^◌, ◌≤◌, ◌<◌, ap, List, [], ◌∷◌, arith, length}
use netperf.Core.Sort.{sort_unstable, sort_unstable-IsSorted, count_le, count_lt, IsSorted}
use netperf.Core.Sort.Counts.{length-sort_unstable, count_le-sort_unstable, count_lt-sort_unstable}
use netperf.Core.Sort.Ranks.{count_le-get_or, count_lt-get_or}
use netperf.Core.Dist.{pct_index, pct, from_samples}

-- `q` is the smallest value whose rank covers p% of the samples.
pub record NearestRank (p : ℕ) (samples : List ℕ) (q : ℕ) : Type 0 where
  pub covers : p * length samples ≤ 100 * count_le q samples
  pub smallest : 100 * count_lt q samples < p * length samples

pct_index_range :
    (p n : ℕ)
    → 0 < p
    → p < 100
    → 0 < n
    → 100 * n < 2 ^ 32
    → (pct_index p n < n) × (p * n ≤ 100 * suc (pct_index p n)) × (100 * pct_index p n < p * n)
pct_index_range p n hp lp hn h = grind arith

pct-NearestRank :
    (v : List ℕ) (p : ℕ)
    → IsSorted v
    → 0 < p
    → p < 100
    → 0 < length v
    → 100 * length v < 2 ^ 32
    → NearestRank p v (pct v p)
pct-NearestRank v p s hp lp hn h =
    let (in_range, enough, short) = pct_index_range p (length v) hp lp hn h in
    record {
      covers = omega (arith, count_le-get_or v (pct_index p (length v)) 0 s in_range);
      smallest = omega (arith, count_lt-get_or v (pct_index p (length v)) 0 s in_range);
    }

NearestRank-sort_unstable :
    (p : ℕ) (xs : List ℕ) (q : ℕ) → NearestRank p (sort_unstable xs) q → NearestRank p xs q
NearestRank-sort_unstable p xs q r = record {
  covers = omega (
    arith,
    r.covers,
    ap (λ (n : ℕ). p * n) (length-sort_unstable xs),
    count_le-sort_unstable q xs,
  );
  smallest = omega (
    arith,
    r.smallest,
    ap (λ (n : ℕ). p * n) (length-sort_unstable xs),
    count_lt-sort_unstable q xs,
  );
}

-- For a nonempty list of samples with 100 times its length below 2^32, the fields p50, p90 and p99
-- of `from_samples` are nearest ranks: at least p% of the samples are at most the value, and fewer
-- than p% of them are below it.
pub from_samples-NearestRank :
    (xs : List ℕ)
    → 0 < length xs
    → 100 * length xs < 2 ^ 32
    → NearestRank 50 xs (from_samples xs).p50
      × NearestRank 90 xs (from_samples xs).p90
      × NearestRank 99 xs (from_samples xs).p99
unfolding from_samples
from_samples-NearestRank [] h k = absurd (omega arith)
from_samples-NearestRank (x ∷ xs) h k = (
  at 50 (omega arith) (omega arith),
  at 90 (omega arith) (omega arith),
  at 99 (omega arith) (omega arith),
)
  where
    at : (p : ℕ) → 0 < p → p < 100 → NearestRank p (x ∷ xs) (pct (sort_unstable (x ∷ xs)) p)
    at p a b =
        let len = length-sort_unstable (x ∷ xs) in
        NearestRank-sort_unstable p (x ∷ xs) _ (
          pct-NearestRank (sort_unstable (x ∷ xs)) p (sort_unstable-IsSorted (x ∷ xs)) a b
            (omega arith) (omega arith))

-- For fewer than 2^29 samples, once 99 times their number reaches 2^32, the position that p99 is
-- read from has fewer than 99% of the samples up to it.
pub pct_index-short : (n : ℕ) → 2 ^ 32 ≤ 99 * n → n < 2 ^ 29 → 100 * suc (pct_index 99 n) < 99 * n
pct_index-short n h k = omega arith
