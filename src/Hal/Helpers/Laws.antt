-- ===== src/Hal/Helpers/Laws.antt =====
-- What `bit_iterator` yields.
use tpi_bmcd.Base.{
  ℕ, ◌^◌, bit_and, ◌≡◌, refl, ◌==◌, ltb, ◌&&◌, if◌then◌else◌, List, [], ◌∷◌, none, some, arith, ◌⊎◌,
  inl, inr,
}
use native.Mathlib.Nat.{one-le-pow, mul-div_cancel}
use tpi_bmcd.Base.Bits.{bit, bit-le-one, bit_and-pow}
use tpi_bmcd.Base.Assoc.{lookup, nat_key}
use tpi_bmcd.Hal.Helpers.{bit_update, bit_iterator}

masked :
    (n m : ℕ)
    → (bit n m ≡ 0) × (bit_and m (2 ^ n) ≡ 0) ⊎ (bit n m ≡ 1) × (bit_and m (2 ^ n) ≡ 2 ^ n)
masked n m = ground (arith, bit_and-pow n m, bit-le-one n m)

bit_update_lem : (s m n : ℕ) → bit_update s m n ≡ (if bit n m == 1 then some (n, bit n s) else none)
unfolding bit_update
bit_update_lem s m n = elim (masked n m) [
  | inl (b, e) ↦ rw (e, b) refl
  | inr (b, e) ↦
      rw (e, b, bit_and-pow n s)
        (ground (arith, one-le-pow n 2, mul-div_cancel (bit n s) {n = 2 ^ n}))
]

-- The iterator yields node `n` exactly if it is one of the four and the mask selects it, and then
-- with that node's bit of the states, as 0 or 1.
pub lookup-bit_iterator :
    (s m n : ℕ)
    → lookup n (bit_iterator s m) ≡ (if ltb n 4 && bit n m == 1 then some (bit n s) else none)
unfolding bit_iterator lookup
lookup-bit_iterator s m n =
    ground (
      arith,
      bit_update_lem s m 0,
      bit_update_lem s m 1,
      bit_update_lem s m 2,
      bit_update_lem s m 3,
    )

-- The same as a list, for the loops that run over it.
abbrev pub selected : ℕ → ℕ → ℕ → List (ℕ × ℕ) → List (ℕ × ℕ)
selected s m n rest = if bit n m == 1 then (n, bit n s) ∷ rest else rest

pub bit_iterator_lem :
    (s m : ℕ)
    → bit_iterator s m ≡ selected s m 0 (selected s m 1 (selected s m 2 (selected s m 3 [])))
unfolding bit_iterator
bit_iterator_lem s m =
    ground (
      arith,
      bit_update_lem s m 0,
      bit_update_lem s m 1,
      bit_update_lem s m 2,
      bit_update_lem s m 3,
    )
