-- ===== src/Core/Dist/Bounds.antt =====
-- The fields of `from_samples` against one another, against the samples, and under rearrangement.
use mathlib.Core.List.{Perm}
use netperf.Prelude.{
  ℕ, ◌-◌, ◌*◌, ◌/◌, ◌^◌, ◌≤◌, ◌<◌, ◌≡◌, refl, sym, ap, ◌∙◌, List, [], ◌∷◌, arith, length, get_or,
  u64, u128, All, All-get_or, get_or-All,
}
use netperf.Core.Stats.{Dist}
use netperf.Core.Sort.{sort_unstable, sort_unstable-IsSorted, IsSorted, sum}
use netperf.Core.Sort.Counts.{length-sort_unstable, sort_unstable-perm, All-sort_unstable}
use netperf.Core.Sort.Ranks.{get_or_mono, sum-ge-first, sum-le-bound}
use netperf.Core.Dist.{pct_index, pct, from_samples, of_sorted}

pct_index_mono :
    (p q n : ℕ)
    → p ≤ q
    → 0 < n
    → q * n < 2 ^ 32
    → (pct_index p n ≤ pct_index q n) × (pct_index q n < n)
pct_index_mono p q n h k l = grind arith

pub record Ascending (d : Dist) : Type 0 where
  pub min-p50 : d.min ≤ d.p50
  pub p50-p90 : d.p50 ≤ d.p90
  pub p90-p99 : d.p90 ≤ d.p99
  pub p99-p100 : d.p99 ≤ d.p100
  pub min-mean : d.min ≤ d.mean
  pub mean-p100 : d.mean ≤ d.p100

product_fits : (n s m : ℕ) → n < 2 ^ 32 → m < 2 ^ 64 → s ≤ n * m → s < 2 ^ 96
product_fits n s m k l h = grind arith

quotient_between : (n s a m : ℕ) → 0 < n → n * a ≤ s → s ≤ n * m → (a ≤ s / n) × (s / n ≤ m)
quotient_between n s a m h p q = grind arith

-- The mean of a sorted list, as the code computes it, lies between its ends.
mean_between :
    (v : List ℕ)
    → IsSorted v
    → 0 < length v
    → length v < 2 ^ 32
    → get_or v (length v - 1) 0 < 2 ^ 64
    → (get_or v 0 0 ≤ u64 (u128 (sum v) / length v))
      × (u64 (u128 (sum v) / length v) ≤ get_or v (length v - 1) 0)
mean_between v s h k m =
    let top = get_or v (length v - 1) 0 in
    let upper =
      sum-le-bound v top (λ i l. get_or_mono v i (length v - 1) 0 s (omega arith) (omega arith)) in
    let fits = product_fits (length v) (sum v) top k m upper in
    let whole : u128 (sum v) ≡ sum v = omega arith in
    rw whole (
      omega (
        arith,
        quotient_between (length v) (sum v) (get_or v 0 0) top h (sum-ge-first v 0 s) upper,
      ))

pct_mono :
    (v : List ℕ) (p q : ℕ)
    → IsSorted v
    → p ≤ q
    → 0 < length v
    → q * length v < 2 ^ 32
    → pct v p ≤ pct v q
pct_mono v p q s h k l =
    let (le, in_range) = pct_index_mono p q (length v) h k l in get_or_mono v _ _ 0 s le in_range

of_sorted-Ascending :
    (v : List ℕ)
    → IsSorted v
    → 0 < length v
    → 100 * length v < 2 ^ 32
    → get_or v (length v - 1) 0 < 2 ^ 64
    → Ascending (of_sorted v)
unfolding of_sorted
of_sorted-Ascending v s h k m = record {
  min-p50 =
      get_or_mono v 0 _ 0 s (omega arith)
        (pct_index_mono 50 50 (length v) (omega arith) h (omega arith)).1;
  p50-p90 = pct_mono v 50 90 s (omega arith) h (omega arith);
  p90-p99 = pct_mono v 90 99 s (omega arith) h (omega arith);
  p99-p100 = get_or_mono v _ _ 0 s (omega arith) (omega arith);
  min-mean = (mean_between v s h (omega arith) m).0;
  mean-p100 = (mean_between v s h (omega arith) m).1;
}

-- The empty case is no exception: the general body gives the default there.
pub from_samples_lem : (xs : List ℕ) → from_samples xs ≡ of_sorted (sort_unstable xs)
unfolding from_samples sort_unstable of_sorted
from_samples_lem [] = refl
from_samples_lem (x ∷ xs) = refl

of_sorted-All :
    (P : ℕ → Type 0) (v : List ℕ)
    → 0 < length v
    → 100 * length v < 2 ^ 32
    → All P v
    → P (of_sorted v).min
      × P (of_sorted v).p50
      × P (of_sorted v).p90
      × P (of_sorted v).p99
      × P (of_sorted v).p100
unfolding of_sorted
of_sorted-All P v h k a = (
  All-get_or P v 0 0 h a,
  All-get_or P v _ 0 (pct_index_mono 50 50 (length v) (omega arith) h (omega arith)).1 a,
  All-get_or P v _ 0 (pct_index_mono 90 90 (length v) (omega arith) h (omega arith)).1 a,
  All-get_or P v _ 0 (pct_index_mono 99 99 (length v) (omega arith) h (omega arith)).1 a,
  All-get_or P v _ 0 (omega arith) a,
)

-- What holds of every sample of a nonempty list with 100 times its length below 2^32 holds of min,
-- p50, p90, p99 and p100.
from_samples-All :
    (P : ℕ → Type 0) (xs : List ℕ)
    → 0 < length xs
    → 100 * length xs < 2 ^ 32
    → All P xs
    → let d = from_samples xs in P d.min × P d.p50 × P d.p90 × P d.p99 × P d.p100
from_samples-All P xs h k a =
    let len = length-sort_unstable xs in
    rw (from_samples_lem xs) (
      of_sorted-All P (sort_unstable xs) (omega arith) (omega arith) ((All-sort_unstable P xs).1 a))

of_sorted-extremes :
    (v : List ℕ) → IsSorted v → All (λ x. ((of_sorted v).min ≤ x) × (x ≤ (of_sorted v).p100)) v
unfolding of_sorted
of_sorted-extremes v s = get_or-All _ v 0 (λ i l. (
  get_or_mono v 0 i 0 s (omega arith) l,
  get_or_mono v i (length v - 1) 0 s (omega arith) (omega arith),
))

-- Every sample lies between the min and the p100 of `from_samples`.
pub from_samples-extremes :
    (xs : List ℕ) → All (λ x. ((from_samples xs).min ≤ x) × (x ≤ (from_samples xs).p100)) xs
from_samples-extremes xs =
    rw (from_samples_lem xs) (
      (All-sort_unstable _ xs).0
        (of_sorted-extremes (sort_unstable xs) (sort_unstable-IsSorted xs)))

abbrev pub IsU64 : ℕ → Type 0
IsU64 x = x < 2 ^ 64

-- For a nonempty list of 64-bit samples with 100 times its length below 2^32, min, p50, p90, p99
-- and p100 ascend, and the mean lies between min and p100.
pub from_samples-Ascending :
    (xs : List ℕ)
    → 0 < length xs
    → 100 * length xs < 2 ^ 32
    → All IsU64 xs
    → Ascending (from_samples xs)
from_samples-Ascending xs h k a =
    let len = length-sort_unstable xs in
    rw (from_samples_lem xs) (
      of_sorted-Ascending (sort_unstable xs) (sort_unstable-IsSorted xs) (omega arith) (omega arith)
        (All-get_or IsU64 (sort_unstable xs) _ 0 (omega arith) ((All-sort_unstable IsU64 xs).1 a)))

-- The distribution does not depend on the order of the samples: a permutation of them gives the
-- same result.
pub from_samples-perm : {xs ys : List ℕ} → Perm xs ys → from_samples xs ≡ from_samples ys
from_samples-perm {xs} {ys} p =
    from_samples_lem xs ∙ ap of_sorted (sort_unstable-perm p) ∙ sym (from_samples_lem ys)

-- `count` is the number of samples.
pub from_samples-count : (xs : List ℕ) → (from_samples xs).count ≡ u64 (length xs)
unfolding of_sorted
from_samples-count xs =
    ap (λ (d : Dist). d.count) (from_samples_lem xs) ∙ ap (λ n. u64 n) (length-sort_unstable xs)
