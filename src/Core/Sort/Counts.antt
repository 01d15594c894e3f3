-- ===== src/Core/Sort/Counts.antt =====
-- Sorting keeps length, counts and sum, and does not depend on the order of its input.
use mathlib.Core.Path.{ap₂}
use mathlib.Core.List.{Perm, Permᴰ}
use mathlib.Core.Logic.{∥∥₁_elim}
use netperf.Prelude.{
  ℕ, suc, ◌+◌, ◌≡◌, refl, ◌∙◌, List, [], ◌∷◌, arith, leb, length, All, Bool-cases, ◌↔◌, inl, inr,
}
use netperf.Core.Sort.{insert, sort_unstable, count_le, count_lt, sum}

length-insert : (x : ℕ) (xs : List ℕ) → length (insert x xs) ≡ suc (length xs)
unfolding insert
length-insert x [] = refl
length-insert x (y ∷ ys) = ground (arith, length-insert x ys)

pub length-sort_unstable : (xs : List ℕ) → length (sort_unstable xs) ≡ length xs
unfolding sort_unstable
length-sort_unstable [] = refl
length-sort_unstable (x ∷ xs) =
    omega (arith, length-insert x (sort_unstable xs), length-sort_unstable xs)

count_le-insert : (a x : ℕ) (xs : List ℕ) → count_le a (insert x xs) ≡ count_le a (x ∷ xs)
unfolding insert
count_le-insert a x [] = refl
count_le-insert a x (y ∷ ys) = ground (arith, count_le-insert a x ys)

pub count_le-sort_unstable : (a : ℕ) (xs : List ℕ) → count_le a (sort_unstable xs) ≡ count_le a xs
unfolding sort_unstable
count_le-sort_unstable a [] = refl
count_le-sort_unstable a (x ∷ xs) =
    omega (arith, count_le-insert a x (sort_unstable xs), count_le-sort_unstable a xs)

count_lt-insert : (a x : ℕ) (xs : List ℕ) → count_lt a (insert x xs) ≡ count_lt a (x ∷ xs)
unfolding insert
count_lt-insert a x [] = refl
count_lt-insert a x (y ∷ ys) = ground (arith, count_lt-insert a x ys)

pub count_lt-sort_unstable : (a : ℕ) (xs : List ℕ) → count_lt a (sort_unstable xs) ≡ count_lt a xs
unfolding sort_unstable
count_lt-sort_unstable a [] = refl
count_lt-sort_unstable a (x ∷ xs) =
    omega (arith, count_lt-insert a x (sort_unstable xs), count_lt-sort_unstable a xs)

sum-insert : (x : ℕ) (xs : List ℕ) → sum (insert x xs) ≡ x + sum xs
unfolding insert
sum-insert x [] = refl
sum-insert x (y ∷ ys) = ground (arith, sum-insert x ys)

pub sum-sort_unstable : (xs : List ℕ) → sum (sort_unstable xs) ≡ sum xs
unfolding sort_unstable
sum-sort_unstable [] = refl
sum-sort_unstable (x ∷ xs) = omega (arith, sum-insert x (sort_unstable xs), sum-sort_unstable xs)

insert_comm : (x y : ℕ) (l : List ℕ) → insert x (insert y l) ≡ insert y (insert x l)
unfolding insert
insert_comm x y [] = ground arith
insert_comm x y (z ∷ l) = ground (arith, insert_comm x y l)

sort_unstable-permᴰ : {xs ys : List ℕ} → Permᴰ xs ys → sort_unstable xs ≡ sort_unstable ys
unfolding sort_unstable
sort_unstable-permᴰ Permᴰ.nil = refl
sort_unstable-permᴰ (Permᴰ.cons e p) = ap₂ insert e (sort_unstable-permᴰ p)
sort_unstable-permᴰ (Permᴰ.swap {a = x} {b = y} {l = l} e f) =
    cc (insert_comm x y (sort_unstable l))
sort_unstable-permᴰ (Permᴰ.trans p q) = sort_unstable-permᴰ p ∙ sort_unstable-permᴰ q

List-set : IsSet (List ℕ)
List-set = hlevel

pub sort_unstable-perm : {xs ys : List ℕ} → Perm xs ys → sort_unstable xs ≡ sort_unstable ys
sort_unstable-perm p = ∥∥₁_elim p (List-set _ _) sort_unstable-permᴰ

module _ (P : ℕ → Type 0) where
  All-insert : (x : ℕ) (xs : List ℕ) → All P (insert x xs) ↔ (P x × All P xs)
  unfolding insert
  All-insert x [] = (λ a. a, λ a. a)
  All-insert x (y ∷ ys) =
      let (there, back) = All-insert x ys in
      elim (Bool-cases (leb x y)) [
        | inl small ↦ rw small (λ a. a, λ a. a)
        | inr large ↦
            rw large (λ a. ((there a.1).0, (a.0, (there a.1).1)), λ a. (a.1.0, back (a.0, a.1.1)))
      ]

  pub All-sort_unstable : (xs : List ℕ) → All P (sort_unstable xs) ↔ All P xs
  unfolding sort_unstable
  All-sort_unstable [] = (λ a. a, λ a. a)
  All-sort_unstable (x ∷ xs) =
      let (there, back) = All-insert x (sort_unstable xs) in
      let (forth, again) = All-sort_unstable xs in
      (λ a. ((there a).0, forth (there a).1), λ a. back (a.0, again a.1))
