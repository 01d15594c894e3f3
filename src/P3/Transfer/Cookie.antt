-- ===== src/P3/Transfer/Cookie.antt =====
-- The cookie of a data connection.
use mathlib.Core.List.{append_assoc, append-nil}
use netperf.Prelude.{
  ℕ, zero, suc, ◌≤◌, ◌<◌, ◌≡◌, ◌≢◌, refl, ap, ◌∙◌, true, false, inl, inr, Bool-cases, some, List,
  [], ◌∷◌, ◌++◌, map, length, length-append, concat, take, ltb, arith,
}
use netperf.P3.Frames.{Chunk, complete, ended}
use netperf.P3.Transfer.{cookie_len, cookie_loop, same_bytes}

pub same_bytes_refl : (l : List ℕ) → same_bytes l l ≡ true
same_bytes_refl [] = refl
same_bytes_refl (a ∷ l) = ground (arith, same_bytes_refl l)

eq_of_same_bytes : (l m : List ℕ) → same_bytes l m ≡ true → l ≡ m
eq_of_same_bytes [] [] h = refl
eq_of_same_bytes [] (b ∷ m) h = cc
eq_of_same_bytes (a ∷ l) [] h = cc
eq_of_same_bytes (a ∷ l) (b ∷ m) h = ground (arith, eq_of_same_bytes l m)

pub same_bytes_ne : (l m : List ℕ) → l ≢ m → same_bytes l m ≡ false
same_bytes_ne l m n = elim (Bool-cases (same_bytes l m)) [
  | inl e ↦ absurd (n (eq_of_same_bytes l m e))
  | inr e ↦ e
]

pub take_append : (n : ℕ) (l xs : List ℕ) → n ≤ length l → take n (l ++ xs) ≡ take n l
take_append zero l xs h = refl
take_append (suc n) [] xs h = absurd (omega arith)
take_append (suc n) (a ∷ l) xs h = ap (λ r. a ∷ r) (take_append n l xs (omega arith))

-- The loop with enough bytes to come: it stops at the end of a portion.
pub record Found (bs : List (List ℕ)) (rest : List Chunk) (acc : List ℕ) : Type 0 where
  pub left : List (List ℕ)
  pub head : List ℕ
  pub result :
      cookie_loop (map complete bs ++ ended ∷ rest) acc
      ≡ some (head, map complete left ++ ended ∷ rest)
  pub whole : head ++ concat left ≡ acc ++ concat bs
  pub enough : cookie_len ≤ length head

cookie_loop-stop :
    (chunks : List Chunk) (acc : List ℕ)
    → cookie_len ≤ length acc
    → cookie_loop chunks acc ≡ some (acc, chunks)
unfolding cookie_loop
cookie_loop-stop [] acc h = ground arith
cookie_loop-stop (ended ∷ chunks) acc h = ground arith
cookie_loop-stop (complete b ∷ chunks) acc h = ground arith

cookie_loop-more :
    (b : List ℕ) (chunks : List Chunk) (acc : List ℕ)
    → length acc < cookie_len
    → cookie_loop (complete b ∷ chunks) acc ≡ cookie_loop chunks (acc ++ b)
unfolding cookie_loop
cookie_loop-more b chunks acc h = ground arith

pub cookie_loop-Found :
    (bs : List (List ℕ)) (rest : List Chunk) (acc : List ℕ)
    → cookie_len ≤ length (acc ++ concat bs)
    → Found bs rest acc
cookie_loop-Found [] rest acc h =
    let enough : cookie_len ≤ length acc = omega (arith, length-append acc []) in
    record {
      left = [];
      head = acc;
      result = cookie_loop-stop (ended ∷ rest) acc enough;
      whole = refl;
      enough = enough;
    }
cookie_loop-Found (b ∷ bs) rest acc h = elim (Bool-cases (ltb (length acc) cookie_len)) [
  | inl short ↦
      let f =
        cookie_loop-Found bs rest (acc ++ b)
          (omega (arith, ap length (append_assoc acc b (concat bs)))) in
      record {
        left = f.left;
        head = f.head;
        result = cookie_loop-more b (map complete bs ++ ended ∷ rest) acc (ground arith) ∙ f.result;
        whole = f.whole ∙ append_assoc acc b (concat bs);
        enough = f.enough;
      }
  | inr long ↦ record {
    left = b ∷ bs;
    head = acc;
    result = cookie_loop-stop (map complete (b ∷ bs) ++ ended ∷ rest) acc (ground arith);
    whole = refl;
    enough = ground arith;
  }
]

-- A stream that ends too early leaves the loop with all that it held.
pub cookie_loop-short :
    (bs : List (List ℕ)) (rest : List Chunk) (acc : List ℕ)
    → length (acc ++ concat bs) < cookie_len
    → cookie_loop (map complete bs ++ ended ∷ rest) acc ≡ some (acc ++ concat bs, rest)
unfolding cookie_loop
cookie_loop-short [] rest acc h = rw (append-nil) (ground (arith, length-append acc []))
cookie_loop-short (b ∷ bs) rest acc h =
    let size = length-append acc (concat (b ∷ bs)) in
    let same = append_assoc acc b (concat bs) in
    cookie_loop-more b (map complete bs ++ ended ∷ rest) acc (omega arith)
    ∙ cookie_loop-short bs rest (acc ++ b) (omega (arith, ap length same))
    ∙ ap (λ l. some (l, rest)) same
