-- ===== src/P3/Frames.antt =====
-- crates/netperf-p3/src/lib.rs: frames with a little-endian length, read from a stream of portions.
use netperf.Prelude.{
  ℕ, ◌+◌, ◌-◌, ◌^◌, ◌/◌, ◌%◌, ◌≤◌, ◌<◌, ◌≡◌, refl, ap, ◌∙◌, Option, none, some, List, [], ◌∷◌, ◌++◌,
  length, concat, take, take_prefix, map, leb, if◌then◌else◌, usize, u32, arith, Bool, true, false,
  Bool-cases, inl, inr, length-append,
}
use mathlib.Core.List.{append_assoc}
use netperf.Prelude.Bytes.{le_bytes, from_le_bytes, from_le_bytes-le_bytes}

-- What `send_msg` writes for a JSON text. An error of the JSON library leaves an empty text, and one
-- of the stream is ignored.
unfoldable pub framed : Option (List ℕ) → List ℕ
framed (some json) = le_bytes (u32 (length json)) ++ json
framed none = le_bytes 0

-- A read of the stream: a portion, or any other status.
pub data Chunk : Type 0 where
  complete : List ℕ → Chunk
  ended : Chunk

-- What the head of the loop finds in `acc`: a whole message, a slice out of range, or too little.
pub data Attempt (A : Type 0) : Type 0 where
  done : Option A → Attempt A
  slice_panic : Attempt A
  more : Attempt A

-- `waits` is no result of the code: no portion is left.
pub data Received (A : Type 0) : Type 0 where
  value : Option A → Received A
  panics : Received A
  waits : Received A

module _ {A : Type 0} (from_slice : List ℕ → Option A) where
  -- `acc.len() >= 4 + len`, where the sum wraps at 32 bits, and then `acc[4..4 + len]`.
  attempt : List ℕ → Attempt A
  attempt (a ∷ b ∷ c ∷ d ∷ l) =
      let len = from_le_bytes a b c d in
      let end = usize (4 + len) in
      if leb end (4 + length l)
      then (if leb 4 end then done (from_slice (take (end - 4) l)) else slice_panic)
      else more
  attempt _ = more

  settle : Attempt A → Received A → Received A
  settle (done r) rest = value r
  settle slice_panic rest = panics
  settle more rest = rest

  recv_loop : List ℕ → List Chunk → Received A
  unfolding attempt settle
  recv_loop acc [] = settle (attempt acc) waits
  recv_loop acc (ended ∷ chunks) = settle (attempt acc) (value none)
  recv_loop acc (complete b ∷ chunks) = settle (attempt acc) (recv_loop (acc ++ b) chunks)

  unfoldable pub recv_msg : List Chunk → Received A
  unfolding recv_loop
  recv_msg chunks = recv_loop [] chunks

  from_bytes :
      (a b c d n : ℕ)
      → a ≡ n % 256
      → b ≡ n / 2 ^ 8 % 256
      → c ≡ n / 2 ^ 16 % 256
      → d ≡ n / 2 ^ 24 % 256
      → n < 2 ^ 32
      → from_le_bytes a b c d ≡ n
  from_bytes a b c d n ha hb hc hd h = omega arith

  attempt-length :
      (a b c d n : ℕ) (l : List ℕ)
      → from_le_bytes a b c d ≡ n
      → n < 2 ^ 32 - 4
      → attempt (a ∷ b ∷ c ∷ d ∷ l)
        ≡ (if leb (4 + n) (4 + length l) then done (from_slice (take n l)) else more)
  unfolding attempt
  attempt-length a b c d n l e h = rw e (ground arith)

  attempt-prefix :
      (payload rest acc xs : List ℕ)
      → length payload < 2 ^ 32 - 4
      → acc ++ xs ≡ le_bytes (length payload) ++ payload ++ rest
      → attempt acc
        ≡ (if leb (4 + length payload) (length acc) then done (from_slice payload) else more)
  unfolding attempt
  attempt-prefix payload rest [] xs h e = ground arith
  attempt-prefix payload rest (a ∷ []) xs h e = ground arith
  attempt-prefix payload rest (a ∷ b ∷ []) xs h e = ground arith
  attempt-prefix payload rest (a ∷ b ∷ c ∷ []) xs h e = ground arith
  attempt-prefix payload rest (a ∷ b ∷ c ∷ d ∷ l) xs h e =
      let n = length payload in
      let len : from_le_bytes a b c d ≡ n =
        from_bytes a b c d n (cc) (cc) (cc) (cc) (omega arith) in
      let tail : l ++ xs ≡ payload ++ rest = cc in
      attempt-length a b c d n l len h
      ∙ go (leb (4 + n) (4 + length l)) refl tail
      ∙ ap (λ k. if leb (4 + n) k then done (from_slice payload) else more) four_more
    where
      four_more : 4 + length l ≡ length (a ∷ b ∷ c ∷ d ∷ l)
      four_more = omega arith

      go :
          (y : Bool)
          → leb (4 + length payload) (4 + length l) ≡ y
          → l ++ xs ≡ payload ++ rest
          → (if y then done (from_slice (take (length payload) l)) else more)
            ≡ (if y then done (from_slice payload) else more)
      go true q tail =
          ap (λ p. done (from_slice p)) (take_prefix payload rest l xs tail (ground arith))
      go false q tail = refl

  recv_loop-done :
      (acc : List ℕ) (chunks : List Chunk) (r : Option A)
      → attempt acc ≡ done r
      → recv_loop acc chunks ≡ value r
  unfolding recv_loop
  recv_loop-done acc [] r e = rw e refl
  recv_loop-done acc (ended ∷ chunks) r e = rw e refl
  recv_loop-done acc (complete b ∷ chunks) r e = rw e refl

  recv_loop-more :
      (acc b : List ℕ) (chunks : List Chunk)
      → attempt acc ≡ more
      → recv_loop acc (complete b ∷ chunks) ≡ recv_loop (acc ++ b) chunks
  unfolding recv_loop
  recv_loop-more acc b chunks e = rw e refl

  -- The loop, with `acc` read and `bs` to come.
  recv_loop_lem :
      (payload rest acc : List ℕ) (bs : List (List ℕ)) (others : List Chunk)
      → length payload < 2 ^ 32 - 4
      → acc ++ concat bs ≡ le_bytes (length payload) ++ payload ++ rest
      → recv_loop acc (map complete bs ++ others) ≡ value (from_slice payload)
  recv_loop_lem payload rest acc [] others h e =
      let size = ap length e in
      let whole : leb (4 + length payload) (length acc) ≡ true =
        ground (arith, length-append acc [], length-append payload rest) in
      recv_loop-done acc others (from_slice payload)
        (attempt-prefix payload rest acc [] h e ∙ rw whole refl)
  recv_loop_lem payload rest acc (b ∷ bs) others h e =
      let found = attempt-prefix payload rest acc (concat (b ∷ bs)) h e in
      elim (Bool-cases (leb (4 + length payload) (length acc))) [
        | inl y ↦
            recv_loop-done acc (complete b ∷ map complete bs ++ others) (from_slice payload)
              (found ∙ rw y refl)
        | inr y ↦
            recv_loop-more acc b (map complete bs ++ others) (found ∙ rw y refl)
            ∙ recv_loop_lem payload rest (acc ++ b) bs others h (append_assoc acc b (concat bs) ∙ e)
      ]

  -- In the p3 build, for a JSON text shorter than 2^32 - 4 bytes, a stream whose portions, cut in
  -- any way, make up the frame of that text and whatever follows is received as exactly that text,
  -- whatever comes after those portions.
  pub recv_msg-framed :
      (json rest : List ℕ) (bs : List (List ℕ)) (others : List Chunk)
      → length json < 2 ^ 32 - 4
      → concat bs ≡ framed (some json) ++ rest
      → recv_msg (map complete bs ++ others) ≡ value (from_slice json)
  unfolding recv_msg framed
  recv_msg-framed json rest bs others h e =
      let fits : u32 (length json) ≡ length json = omega arith in
      recv_loop_lem json rest [] bs others h (e ∙ ap (λ n. le_bytes n ++ json ++ rest) fits)

  attempt-wraps :
      (a b c d n : ℕ)
      → from_le_bytes a b c d ≡ n
      → 2 ^ 32 - 4 ≤ n
      → n < 2 ^ 32
      → attempt (a ∷ b ∷ c ∷ d ∷ []) ≡ slice_panic
  unfolding attempt
  attempt-wraps a b c d n e lo hi = rw e (ground arith)

  recv_loop-panics :
      (acc : List ℕ) (chunks : List Chunk)
      → attempt acc ≡ slice_panic
      → recv_loop acc chunks ≡ panics
  unfolding recv_loop
  recv_loop-panics acc [] e = rw e refl
  recv_loop-panics acc (ended ∷ chunks) e = rw e refl
  recv_loop-panics acc (complete b ∷ chunks) e = rw e refl

  -- In the p3 build, a first portion of four bytes that announces 2^32 - 4 bytes or more makes the
  -- receiver panic, whatever comes after it.
  pub recv_msg-panics :
      (n : ℕ) (chunks : List Chunk)
      → 2 ^ 32 - 4 ≤ n
      → n < 2 ^ 32
      → recv_msg (complete (le_bytes n) ∷ chunks) ≡ panics
  unfolding recv_msg
  recv_msg-panics n chunks lo hi = recv_loop-panics (le_bytes n) chunks (
      attempt-wraps (n % 256) (n / 2 ^ 8 % 256) (n / 2 ^ 16 % 256) (n / 2 ^ 24 % 256) n
        (from_le_bytes-le_bytes n hi) lo hi)
