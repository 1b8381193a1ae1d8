-- ===== src/Hal/Helpers.antt =====
-- bmcd/src/hal/helpers.rs: iteration over the nodes that a mask selects.
pub mod Laws
use tpi_bmcd.Base.{
  ℕ, ◌/◌, ◌^◌, bit_and, ◌==◌, if◌then◌else◌, List, [], ◌∷◌, Option, none, some, filter_map,
}

abbrev pub node_count : ℕ
node_count = 4

-- The four places, `0..NODE_COUNT`.
abbrev pub places : List ℕ
places = 0 ∷ 1 ∷ 2 ∷ 3 ∷ []

-- The closure of `bit_iterator`: shifts of a `u8` by less than 4.
unfoldable pub bit_update : ℕ → ℕ → ℕ → Option (ℕ × ℕ)
bit_update nodes_state nodes_mask n =
    let mask = bit_and nodes_mask (2 ^ n) in
    let state = bit_and nodes_state mask / 2 ^ n in if mask == 0 then none else some (n, state)

unfoldable pub bit_iterator : ℕ → ℕ → List (ℕ × ℕ)
bit_iterator nodes_state nodes_mask = filter_map (bit_update nodes_state nodes_mask) places
