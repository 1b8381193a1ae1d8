-- ===== src/Base/Signed.antt =====
-- Signed integers over the native numbers, as far as the program looks at an `i32`.
use Prim.Native.Nat.{ℕ, ◌-◌, ◌%◌}

-- `negsuc n` is -(n + 1).
pub data ℤ : Type 0 where
  pos : ℕ → ℤ
  negsuc : ℕ → ℤ

-- The low bits of the two's complement pattern, for `m` a power of two within the width.
abbrev pub low_bits : ℤ → ℕ → ℕ
low_bits (pos n) m = n % m
low_bits (negsuc n) m = m - 1 - n % m
