-- ===== src/Base/Bits.antt =====
-- The bits of a number, and what `&`, `|` and `!` do to each of them.
use Prim.Native.Nat.{
  ℕ, zero, suc, ◌+◌, ◌-◌, ◌*◌, ◌/◌, ◌%◌, ◌^◌, ◌≤◌, ◌<◌, min, max, bit_and, bit_or, digits, bitwise,
  bit_and-bitwise, bit_or-bitwise,
}
use mathlib.Core.Path.{◌≡◌, refl}
use native.Mathlib.Nat.{pow-suc}
use native.Mathlib.Omega.{arith}
use tpi_bmcd.Base.Tests.{ltb, if◌then◌else◌}

-- Bit `i` of `x`, as 0 or 1.
unfoldable pub bit : ℕ → ℕ → ℕ
bit zero x = x % 2
bit (suc i) x = bit i (x / 2)

-- `!x` on a `u8`.
abbrev pub not_u8 : ℕ → ℕ
not_u8 x = 255 - x

-- The recursion on digits that `&` and `|` mean has fuel; any amount from the first number on serves.
module _ (z : ℕ → ℕ) (f : ℕ → ℕ → ℕ) where
  settled : (a b m n : ℕ) → a ≤ m → a ≤ n → digits z f m a b ≡ digits z f n a b
  settled (suc a) b (suc m) (suc n) h k =
      rw (settled (suc a / 2) (b / 2) m n (omega arith) (omega arith)) refl
  settled (suc a) b zero n h k = absurd (omega arith)
  settled (suc a) b (suc m) zero h k = absurd (omega arith)
  settled zero b (suc m) (suc n) h k = refl
  settled zero b zero (suc n) h k = refl
  settled zero b (suc m) zero h k = refl
  settled zero b zero zero h k = refl

  last_digit :
      (b a : ℕ)
      → f (suc a % 2) (b % 2) + bitwise z f (suc a / 2) (b / 2) * 2 ≡ bitwise z f (suc a) b
  last_digit b a =
      let rest = settled (suc a / 2) (b / 2) (suc a / 2) a (omega arith) (omega arith) in
      omega (arith, rest)

pub bit_or-halves : (a b : ℕ) → bit_or a b ≡ bit_or (a / 2) (b / 2) * 2 + max (a % 2) (b % 2)
bit_or-halves zero b = simp bit_or-bitwise (omega arith)
bit_or-halves (suc a) b = simp bit_or-bitwise (omega (arith, last_digit (λ y. y) max b a))

pub bit_and-halves : (a b : ℕ) → bit_and a b ≡ bit_and (a / 2) (b / 2) * 2 + min (a % 2) (b % 2)
bit_and-halves zero b = simp bit_and-bitwise (omega arith)
bit_and-halves (suc a) b = simp bit_and-bitwise (omega (arith, last_digit (λ y. 0) min b a))

pub bit-le-one : (i x : ℕ) → bit i x ≤ 1
unfolding bit
bit-le-one zero x = omega arith
bit-le-one (suc i) x = bit-le-one i (x / 2)

pub bit-bit_and : (i a b : ℕ) → bit i (bit_and a b) ≡ min (bit i a) (bit i b)
unfolding bit
bit-bit_and zero a b = omega (arith, bit_and-halves a b)
bit-bit_and (suc i) a b =
    let half : bit_and a b / 2 ≡ bit_and (a / 2) (b / 2) = omega (arith, bit_and-halves a b) in
    rw half (bit-bit_and i (a / 2) (b / 2))

pub bit-bit_or : (i a b : ℕ) → bit i (bit_or a b) ≡ max (bit i a) (bit i b)
unfolding bit
bit-bit_or zero a b = omega (arith, bit_or-halves a b)
bit-bit_or (suc i) a b =
    let half : bit_or a b / 2 ≡ bit_or (a / 2) (b / 2) = omega (arith, bit_or-halves a b) in
    rw half (bit-bit_or i (a / 2) (b / 2))

bounded-bit_and-zero : (a n : ℕ) → a ≤ n → bit_and a 0 ≡ 0
bounded-bit_and-zero (suc a) (suc n) h =
    ground (arith, bounded-bit_and-zero (suc a / 2) n, bit_and-halves (suc a) 0)
bounded-bit_and-zero (suc a) zero h = absurd (omega arith)
bounded-bit_and-zero zero n h = refl

pub bit_and-zero : (a : ℕ) → bit_and a 0 ≡ 0
bit_and-zero a = bounded-bit_and-zero a a (omega arith)

-- `x & (1 << i)` is the bit in its place.
pub bit_and-pow : (i x : ℕ) → bit_and x (2 ^ i) ≡ bit i x * 2 ^ i
unfolding bit
bit_and-pow zero x = omega (arith, bit_and-halves x 1, bit_and-zero (x / 2))
bit_and-pow (suc i) x =
    let half : 2 ^ i * 2 / 2 ≡ 2 ^ i = omega arith in
    let step : bit_and x (2 ^ i * 2) ≡ bit_and (x / 2) (2 ^ i) * 2 + min (x % 2) (2 ^ i * 2 % 2) =
      rw half at (bit_and-halves x (2 ^ i * 2)) in
    rw (pow-suc 2 i) (omega (arith, step, bit_and-pow i (x / 2)))

-- `&` with a nibble is a nibble.
pub bit_and-lt_nibble : (a b : ℕ) → b < 16 → bit_and a b < 16
bit_and-lt_nibble a b h =
    let none_left : b / 2 / 2 / 2 / 2 ≡ 0 = omega arith in
    let cleared : bit_and (a / 2 / 2 / 2 / 2) (b / 2 / 2 / 2 / 2) ≡ 0 =
      rw none_left (bit_and-zero _) in
    omega (
      arith,
      cleared,
      bit_and-halves a b,
      bit_and-halves (a / 2) (b / 2),
      bit_and-halves (a / 2 / 2) (b / 2 / 2),
      bit_and-halves (a / 2 / 2 / 2) (b / 2 / 2 / 2),
    )

zero-bit_and : (b : ℕ) → bit_and 0 b ≡ 0
zero-bit_and b = simp bit_and-bitwise refl

pub nibble-bit_and-lt : (a b : ℕ) → a < 16 → bit_and a b < 16
nibble-bit_and-lt a b h =
    let none_left : a / 2 / 2 / 2 / 2 ≡ 0 = omega arith in
    let cleared : bit_and (a / 2 / 2 / 2 / 2) (b / 2 / 2 / 2 / 2) ≡ 0 =
      rw none_left (zero-bit_and _) in
    omega (
      arith,
      cleared,
      bit_and-halves a b,
      bit_and-halves (a / 2) (b / 2),
      bit_and-halves (a / 2 / 2) (b / 2 / 2),
      bit_and-halves (a / 2 / 2 / 2) (b / 2 / 2 / 2),
    )

-- `|` of two nibbles is a nibble.
pub bit_or-lt_nibble : (a b : ℕ) → a < 16 → b < 16 → bit_or a b < 16
bit_or-lt_nibble a b p q =
    let left : a / 2 / 2 / 2 / 2 ≡ 0 = omega arith in
    let right : b / 2 / 2 / 2 / 2 ≡ 0 = omega arith in
    let cleared : bit_or (a / 2 / 2 / 2 / 2) (b / 2 / 2 / 2 / 2) ≡ 0 = rw (left, right) refl in
    omega (
      arith,
      cleared,
      bit_or-halves a b,
      bit_or-halves (a / 2) (b / 2),
      bit_or-halves (a / 2 / 2) (b / 2 / 2),
      bit_or-halves (a / 2 / 2 / 2) (b / 2 / 2 / 2),
    )

pub bit-zero : (i : ℕ) → bit i 0 ≡ 0
unfolding bit
bit-zero zero = refl
bit-zero (suc i) = bit-zero i

-- The mask of all four nodes.
pub bit-nibble : (i : ℕ) → bit i 15 ≡ (if ltb i 4 then 1 else 0)
unfolding bit
bit-nibble zero = refl
bit-nibble (suc zero) = refl
bit-nibble (suc (suc zero)) = refl
bit-nibble (suc (suc (suc zero))) = refl
bit-nibble (suc (suc (suc (suc i)))) = ground (arith, bit-zero i)

pub bit-not_u8 : (i x : ℕ) → i < 8 → x < 256 → bit i (not_u8 x) ≡ 1 - bit i x
unfolding bit
bit-not_u8 zero x h p = omega arith
bit-not_u8 (suc zero) x h p = omega arith
bit-not_u8 (suc (suc zero)) x h p = omega arith
bit-not_u8 (suc (suc (suc zero))) x h p = omega arith
bit-not_u8 (suc (suc (suc (suc zero)))) x h p = omega arith
bit-not_u8 (suc (suc (suc (suc (suc zero))))) x h p = omega arith
bit-not_u8 (suc (suc (suc (suc (suc (suc zero)))))) x h p = omega arith
bit-not_u8 (suc (suc (suc (suc (suc (suc (suc zero))))))) x h p = omega arith
bit-not_u8 (suc (suc (suc (suc (suc (suc (suc (suc i)))))))) x h p = absurd (omega arith)

bit_and_low1 : (a : ℕ) → bit_and a 1 ≡ a % 2
bit_and_low1 a = omega (arith, bit_and-halves a 1, bit_and-zero (a / 2))

bit_and_low2 : (a : ℕ) → bit_and a 3 ≡ a % 4
bit_and_low2 a = omega (arith, bit_and-halves a 3, bit_and_low1 (a / 2))

bit_and_low3 : (a : ℕ) → bit_and a 7 ≡ a % 8
bit_and_low3 a = omega (arith, bit_and-halves a 7, bit_and_low2 (a / 2))

bit_and_low4 : (a : ℕ) → bit_and a 15 ≡ a % 16
bit_and_low4 a = omega (arith, bit_and-halves a 15, bit_and_low3 (a / 2))

-- The masks of five and six low bits.
pub bit_and_low5 : (a : ℕ) → bit_and a 0x1F ≡ a % 32
bit_and_low5 a = omega (arith, bit_and-halves a 31, bit_and_low4 (a / 2))

pub bit_and_low6 : (a : ℕ) → bit_and a 0x3F ≡ a % 64
bit_and_low6 a = omega (arith, bit_and-halves a 63, bit_and_low5 (a / 2))
