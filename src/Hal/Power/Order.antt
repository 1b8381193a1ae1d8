-- ===== src/Hal/Power/Order.antt =====
-- Which enable lines `set_power_node` touches, and in what order a node is switched.
use tpi_bmcd.Base.{
  ℕ, ◌+◌, ◌≡◌, ◌≢◌, ◌∙◌, refl, ◌==◌, ltb, if◌then◌else◌, ◌&&◌, List, [], ◌∷◌, Option, none, some,
  ok, arith,
}
use tpi_bmcd.Base.Bits.{bit}
use tpi_bmcd.Hal.Helpers.{bit_iterator}
use tpi_bmcd.Hal.Helpers.Laws.{bit_iterator_lem}
use tpi_bmcd.Hal.Device.{
  Env, Trace, perform, level, enable, did, set_values, write_file, node_power, sleep_ms,
}
use tpi_bmcd.Hal.Power.{power_nodes, set_power_node}

-- The last value that a run of updates gives to place `i`, or `d`.
abbrev pub assigned : ℕ → List (ℕ × ℕ) → Option ℕ → Option ℕ
assigned i [] d = d
assigned i ((j, v) ∷ us) d = assigned i us (if j == i then some v else d)

-- The updates of `bit_iterator` give each selected place its bit.
pub assigned-bit_iterator :
    (s m i : ℕ) (d : Option ℕ)
    → assigned i (bit_iterator s m) d ≡ (if ltb i 4 && bit i m == 1 then some (bit i s) else d)
assigned-bit_iterator s m i d = rw bit_iterator_lem (ground arith)

assigned-some : (us : List (ℕ × ℕ)) (i v : ℕ) → assigned i us (some v) ≢ none
assigned-some [] i v e = cc
assigned-some ((j, w) ∷ us) i v e = ground (arith, assigned-some us i v, assigned-some us i w)

module _ (env : Env) where
  level-power_nodes :
      (us : List (ℕ × ℕ)) (t : Trace) (i : ℕ)
      → (power_nodes env us t).0 ≡ ok tt
      → level (enable i) (power_nodes env us t).1 ≡ assigned i us (level (enable i) t)
  unfolding power_nodes perform level
  level-power_nodes [] t i h = refl
  level-power_nodes ((idx, state) ∷ us) t i h = ground (
    arith,
    level-power_nodes us
        (did (set_values (enable idx) state)
          ∷ did (sleep_ms 100)
          ∷ did (write_file (node_power (idx + 1)) (if ltb 0 state then "enabled" else "disabled"))
          ∷ t)
        i,
  )

  unselected_power :
      (us : List (ℕ × ℕ)) (t : Trace) (i : ℕ)
      → assigned i us none ≡ none
      → level (enable i) (power_nodes env us t).1 ≡ level (enable i) t
  unfolding power_nodes perform level
  unselected_power [] t i h = refl
  unselected_power ((idx, state) ∷ us) t i h = ground (
    arith,
    assigned-some us i state,
    unselected_power us
        (did (set_values (enable idx) state)
          ∷ did (sleep_ms 100)
          ∷ did (write_file (node_power (idx + 1)) (if ltb 0 state then "enabled" else "disabled"))
          ∷ t)
        i,
  )

  -- When powering succeeds, each selected node's enable line has that node's state, and no other
  -- enable line has moved.
  pub level-set_power_node :
      (s m : ℕ) (t : Trace) (i : ℕ)
      → (set_power_node env s m t).0 ≡ ok tt
      → level (enable i) (set_power_node env s m t).1
        ≡ (if ltb i 4 && bit i m == 1 then some (bit i s) else level (enable i) t)
  unfolding set_power_node
  level-set_power_node s m t i h =
      level-power_nodes (bit_iterator s m) t i h ∙ assigned-bit_iterator s m i _

  -- Whether powering fails or not, and wherever, a node outside the mask keeps its line.
  unselected-set_power_node :
      (s m : ℕ) (t : Trace) (i : ℕ)
      → bit i m ≡ 0
      → level (enable i) (set_power_node env s m t).1 ≡ level (enable i) t
  unfolding set_power_node
  unselected-set_power_node s m t i h =
      unselected_power (bit_iterator s m) t i (assigned-bit_iterator s m i none ∙ ground arith)
