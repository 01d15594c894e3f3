-- ===== src/Core/Sort.antt =====
-- `slice::sort_unstable` on integers: the ascending rearrangement of a list, and what order
-- statistics need to know of it.

pub mod Counts
pub mod Ranks
use netperf.Prelude.{
  ℕ, zero, suc, ◌+◌, ◌≤◌, ◌<◌, ◌≡◌, refl, ap, ◌∙◌, Bool, true, false, List, [], ◌∷◌, arith, leb,
  ltb, if◌then◌else◌, length, get_or,
}

insert : ℕ → List ℕ → List ℕ
insert x [] = x ∷ []
insert x (y ∷ ys) = if leb x y then x ∷ y ∷ ys else y ∷ insert x ys

unfoldable pub sort_unstable : List ℕ → List ℕ
unfolding insert
sort_unstable [] = []
sort_unstable (x ∷ xs) = insert x (sort_unstable xs)

abbrev pub IsBelow : ℕ → List ℕ → Type 0
IsBelow x [] = Unit
IsBelow x (y ∷ ys) = (x ≤ y) × IsBelow x ys

abbrev pub IsSorted : List ℕ → Type 0
IsSorted [] = Unit
IsSorted (x ∷ xs) = IsBelow x xs × IsSorted xs

-- How many elements are at most `x`.
abbrev pub count_le : ℕ → List ℕ → ℕ
count_le x [] = 0
count_le x (y ∷ ys) = (if leb y x then 1 else 0) + count_le x ys

-- How many elements are below `x`.
abbrev pub count_lt : ℕ → List ℕ → ℕ
count_lt x [] = 0
count_lt x (y ∷ ys) = (if ltb y x then 1 else 0) + count_lt x ys

abbrev pub sum : List ℕ → ℕ
sum [] = 0
sum (x ∷ xs) = x + sum xs

insert-IsBelow : (a x : ℕ) (xs : List ℕ) → a ≤ x → IsBelow a xs → IsBelow a (insert x xs)
unfolding insert
insert-IsBelow a x [] h b = (h, tt)
insert-IsBelow a x (y ∷ ys) h b = ground (arith, insert-IsBelow a x ys h b.1)

IsBelow-trans : (a x : ℕ) (xs : List ℕ) → a ≤ x → IsBelow x xs → IsBelow a xs
IsBelow-trans a x [] h b = tt
IsBelow-trans a x (y ∷ ys) h b = (omega arith, IsBelow-trans a x ys h b.1)

insert-IsSorted : (x : ℕ) (xs : List ℕ) → IsSorted xs → IsSorted (insert x xs)
unfolding insert
insert-IsSorted x [] s = (tt, tt)
insert-IsSorted x (y ∷ ys) s =
    ground (arith, insert-IsSorted x ys s.1, insert-IsBelow y x ys, IsBelow-trans x y ys)

pub sort_unstable-IsSorted : (xs : List ℕ) → IsSorted (sort_unstable xs)
unfolding sort_unstable
sort_unstable-IsSorted [] = tt
sort_unstable-IsSorted (x ∷ xs) = insert-IsSorted x (sort_unstable xs) (sort_unstable-IsSorted xs)
