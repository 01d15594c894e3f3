-- ===== src/Core/Sort/Ranks.antt =====
-- The element at a position of a sorted list, and how many elements are at most that.
use netperf.Prelude.{ℕ, zero, suc, ◌*◌, ◌≤◌, ◌<◌, ◌≡◌, refl, List, [], ◌∷◌, arith, length, get_or}
use netperf.Core.Sort.{IsBelow, IsSorted, count_le, count_lt, sum}

IsBelow-get_or : (a : ℕ) (xs : List ℕ) (i d : ℕ) → i < length xs → IsBelow a xs → a ≤ get_or xs i d
IsBelow-get_or a [] i d h b = elim h [ ]
IsBelow-get_or a (x ∷ xs) zero d h b = b.0
IsBelow-get_or a (x ∷ xs) (suc i) d h b = IsBelow-get_or a xs i d (omega arith) b.1

-- Positions are monotone.
pub get_or_mono :
    (xs : List ℕ) (i j d : ℕ) → IsSorted xs → i ≤ j → j < length xs → get_or xs i d ≤ get_or xs j d
get_or_mono [] i j d s h k = elim k [ ]
get_or_mono (x ∷ xs) zero zero d s h k = omega arith
get_or_mono (x ∷ xs) zero (suc j) d s h k = IsBelow-get_or x xs j d (omega arith) s.0
get_or_mono (x ∷ xs) (suc i) zero d s h k = absurd (omega arith)
get_or_mono (x ∷ xs) (suc i) (suc j) d s h k = get_or_mono xs i j d s.1 (omega arith) (omega arith)

-- Position `i` holds a value that at least `i + 1` elements do not exceed.
pub count_le-get_or :
    (xs : List ℕ) (i d : ℕ) → IsSorted xs → i < length xs → i < count_le (get_or xs i d) xs
count_le-get_or [] i d s h = elim h [ ]
count_le-get_or (x ∷ xs) zero d s h = ground arith
count_le-get_or (x ∷ xs) (suc i) d s h =
    ground (arith, count_le-get_or xs i d s.1, IsBelow-get_or x xs i d)

count_lt_of_IsBelow : (a x : ℕ) (xs : List ℕ) → a ≤ x → IsBelow x xs → count_lt a xs ≡ 0
count_lt_of_IsBelow a x [] h b = refl
count_lt_of_IsBelow a x (y ∷ ys) h b = ground (arith, count_lt_of_IsBelow a x ys h b.1)

-- At most `i` elements are below the one at position `i`.
pub count_lt-get_or :
    (xs : List ℕ) (i d : ℕ) → IsSorted xs → i < length xs → count_lt (get_or xs i d) xs ≤ i
count_lt-get_or [] i d s h = elim h [ ]
count_lt-get_or (x ∷ xs) zero d s h = ground (arith, count_lt_of_IsBelow x x xs)
count_lt-get_or (x ∷ xs) (suc i) d s h = ground (arith, count_lt-get_or xs i d s.1)

-- The sum lies between its length's multiples of the ends.
sum_lower : (x : ℕ) (xs : List ℕ) → IsBelow x xs → length xs * x ≤ sum xs
sum_lower x [] b = omega arith
sum_lower x (y ∷ ys) b = grind (arith, sum_lower x ys b.1)

pub sum-ge-first : (xs : List ℕ) (d : ℕ) → IsSorted xs → length xs * get_or xs 0 d ≤ sum xs
sum-ge-first [] d s = omega arith
sum-ge-first (x ∷ xs) d s = omega (arith, sum_lower x xs s.0)

pub sum-le-bound :
    (xs : List ℕ) (m : ℕ) → ((i : ℕ) → i < length xs → get_or xs i 0 ≤ m) → sum xs ≤ length xs * m
sum-le-bound [] m h = omega arith
sum-le-bound (x ∷ xs) m h =
    let rest = sum-le-bound xs m (λ i k. h (suc i) (omega arith)) in
    let first = h 0 (omega arith) in omega arith
