-- ===== src/Prelude/Words.antt =====
-- Unsigned machine words as native numbers. On the target, wasm32-wasip2, `usize` has 32 bits.
use Prim.Native.Nat.{ℕ, ◌^◌, ◌%◌}

abbrev pub u16 : ℕ → ℕ
u16 n = n % 2 ^ 16

abbrev pub u32 : ℕ → ℕ
u32 n = n % 2 ^ 32

abbrev pub usize : ℕ → ℕ
usize n = n % 2 ^ 32

abbrev pub u64 : ℕ → ℕ
u64 n = n % 2 ^ 64

abbrev pub u128 : ℕ → ℕ
u128 n = n % 2 ^ 128
