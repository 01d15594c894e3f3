-- ===== src/Prelude/Bytes.antt =====
-- A 32-bit number as four bytes, in both orders.
use Prim.Native.Nat.{ℕ, ◌+◌, ◌*◌, ◌/◌, ◌%◌, ◌^◌, ◌<◌}
use mathlib.Core.Path.{◌≡◌}
use mathlib.Core.List.{List, [], ◌∷◌}
use native.Mathlib.Omega.{arith}

-- `BufMut::put_u32`
abbrev pub be_bytes : ℕ → List ℕ
be_bytes n = (n / 2 ^ 24 % 256) ∷ (n / 2 ^ 16 % 256) ∷ (n / 2 ^ 8 % 256) ∷ (n % 256) ∷ []

-- `u32::to_le_bytes`
abbrev pub le_bytes : ℕ → List ℕ
le_bytes n = (n % 256) ∷ (n / 2 ^ 8 % 256) ∷ (n / 2 ^ 16 % 256) ∷ (n / 2 ^ 24 % 256) ∷ []

-- `u32::from_le_bytes`
abbrev pub from_le_bytes : ℕ → ℕ → ℕ → ℕ → ℕ
from_le_bytes a b c d = a + b * 2 ^ 8 + c * 2 ^ 16 + d * 2 ^ 24

pub from_le_bytes-le_bytes :
    (n : ℕ)
    → n < 2 ^ 32
    → from_le_bytes (n % 256) (n / 2 ^ 8 % 256) (n / 2 ^ 16 % 256) (n / 2 ^ 24 % 256) ≡ n
from_le_bytes-le_bytes n h = omega arith

-- `u64::to_le_bytes`
abbrev pub le_bytes_64 : ℕ → List ℕ
le_bytes_64 n =
    (n % 256)
    ∷ (n / 2 ^ 8 % 256)
    ∷ (n / 2 ^ 16 % 256)
    ∷ (n / 2 ^ 24 % 256)
    ∷ (n / 2 ^ 32 % 256)
    ∷ (n / 2 ^ 40 % 256)
    ∷ (n / 2 ^ 48 % 256)
    ∷ (n / 2 ^ 56 % 256)
    ∷ []

-- `u64::from_le_bytes`, of eight bytes: the first is the lowest digit.
abbrev pub from_le_bytes_64 : List ℕ → ℕ
from_le_bytes_64 [] = 0
from_le_bytes_64 (b ∷ bs) = b + 256 * from_le_bytes_64 bs

pub le_bytes_64-from_le_bytes_64 :
    (a b c d e f g h : ℕ)
    → a < 256
    → b < 256
    → c < 256
    → d < 256
    → e < 256
    → f < 256
    → g < 256
    → h < 256
    → le_bytes_64 (from_le_bytes_64 (a ∷ b ∷ c ∷ d ∷ e ∷ f ∷ g ∷ h ∷ []))
      ≡ a ∷ b ∷ c ∷ d ∷ e ∷ f ∷ g ∷ h ∷ []
le_bytes_64-from_le_bytes_64 a b c d e f g h ha hb hc hd he hf hg hh =
    let n = from_le_bytes_64 (a ∷ b ∷ c ∷ d ∷ e ∷ f ∷ g ∷ h ∷ []) in
    let na : n % 256 ≡ a = omega arith in
    let nb : n / 2 ^ 8 % 256 ≡ b = omega arith in
    let nc : n / 2 ^ 16 % 256 ≡ c = omega arith in
    let nd : n / 2 ^ 24 % 256 ≡ d = omega arith in
    let ne : n / 2 ^ 32 % 256 ≡ e = omega arith in
    let nf : n / 2 ^ 40 % 256 ≡ f = omega arith in
    let ng : n / 2 ^ 48 % 256 ≡ g = omega arith in let nh : n / 2 ^ 56 % 256 ≡ h = omega arith in cc
