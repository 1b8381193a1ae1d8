-- ===== src/Hal/Ids.antt =====
-- The conversions of hal.rs: node numbers and bit fields.
use tpi_bmcd.Base.{
  ◌≢◌, all_below, all_below_sound, true, ℕ, zero, suc, ◌<◌, ◌≡◌, refl, ◌↔◌, Bool, ◌==◌, ltb, ◌&&◌,
  not, if◌then◌else◌, ok, arith,
}
use tpi_bmcd.Base.Bits.{bit}
use tpi_bmcd.Base.Signed.{ℤ, low_bits}
use tpi_bmcd.Hal.{
  NodeId, node1, node2, node3, node4, to_u8, try_from_u8, try_from_i32, to_bitfield,
  to_inverse_bitfield,
}

try_from_u8_iff : (x : ℕ) (n : NodeId) → (try_from_u8 x ≡ ok n) ↔ (x ≡ to_u8 n)
unfolding try_from_u8 to_u8
try_from_u8_iff zero n = ground arith
try_from_u8_iff (suc zero) n = ground arith
try_from_u8_iff (suc (suc zero)) n = ground arith
try_from_u8_iff (suc (suc (suc zero))) n = ground arith
try_from_u8_iff (suc (suc (suc (suc x)))) n = ground arith

-- An `i32` names a node exactly if its low eight bits are the node's number.
try_from_i32_iff : (v : ℤ) (n : NodeId) → (try_from_i32 v ≡ ok n) ↔ (low_bits v 256 ≡ to_u8 n)
unfolding try_from_i32
try_from_i32_iff v n = try_from_u8_iff (low_bits v 256) n

abbrev own_bit : NodeId → ℕ → Bool
own_bit n i =
    bit i (to_bitfield n) == (if i == to_u8 n then 1 else 0)
    && bit i (to_inverse_bitfield n) == (if ltb i 4 && not (i == to_u8 n) then 1 else 0)

own_bits : (n : NodeId) → all_below 8 (own_bit n) ≡ true
unfolding all_below bit to_bitfield to_inverse_bitfield
own_bits node1 = refl
own_bits node2 = refl
own_bits node3 = refl
own_bits node4 = refl

-- The field of a node has its own bit alone; the inverse field has the bits of the other three.
pub bitfields_lem :
    (n : NodeId) (i : ℕ)
    → i < 8
    → (bit i (to_bitfield n) ≡ (if i == to_u8 n then 1 else 0))
      × (bit i (to_inverse_bitfield n) ≡ (if ltb i 4 && not (i == to_u8 n) then 1 else 0))
bitfields_lem n i h = ground (arith, all_below_sound (own_bit n) 8 i (own_bits n))

pub to_bitfield_range : (n : NodeId) → (to_bitfield n ≢ 0) × (to_bitfield n < 256)
unfolding to_bitfield
to_bitfield_range node1 = (λ e. cc, omega arith)
to_bitfield_range node2 = (λ e. cc, omega arith)
to_bitfield_range node3 = (λ e. cc, omega arith)
to_bitfield_range node4 = (λ e. cc, omega arith)
