-- ===== src/App/Slots/Lines.antt =====
-- Which lines `activate_slot` sets.
use tpi_bmcd.Base.{
  ℕ, ◌+◌, ◌≡◌, ◌≢◌, ◌∙◌, refl, ap, Bool, true, false, ◌&&◌, ◌==◌, if◌then◌else◌, ltb, some, List,
  [], ◌∷◌, Result, ok, arith,
}
use tpi_bmcd.Base.Bits.{bit}
use tpi_bmcd.Hal.Device.{
  Env, Trace, Fault, Line, level, enable, did, read_clock, perform, set_values, write_file,
  sleep_ms, node_power,
}
use tpi_bmcd.Hal.Helpers.{bit_iterator}
use tpi_bmcd.Hal.Power.{power_led, power_nodes, set_power_node}
use tpi_bmcd.Hal.Power.Order.{level-set_power_node}
use tpi_bmcd.App.State.{App, NodeInfo}
use tpi_bmcd.App.Slots.{activate_slot}
use tpi_bmcd.App.Slots.Laws.{stamped, after_led, activate_slot_run}

abbrev pub is_enable : Line → Bool
is_enable (enable i) = true
is_enable _ = false

module _ (env : Env) where
  level-stamped :
      (activated : ℕ) (us : List (ℕ × ℕ)) (infos : List NodeInfo) (t : Trace) (l : Line)
      → level l (stamped env activated us infos t).1 ≡ level l t
  unfolding level
  level-stamped activated [] infos t l = refl
  level-stamped activated ((idx, v) ∷ us) infos t l =
      level-stamped activated us _ (did read_clock ∷ t) l

  level-after_led : (s m : ℕ) (a : App) (l : Line) → level l (after_led env s m a) ≡ level l a.trace
  unfolding power_led level perform
  level-after_led s m a l =
      ground
        (arith, level-stamped a.db.activated_nodes (bit_iterator s m) a.db.node_infos a.trace l)

  power_nodes_aside :
      (us : List (ℕ × ℕ)) (l : Line) (t : Trace)
      → is_enable l ≡ false
      → level l (power_nodes env us t).1 ≡ level l t
  unfolding power_nodes perform level
  power_nodes_aside [] l t h = refl
  power_nodes_aside ((idx, state) ∷ us) l t h = ground (
    arith,
    power_nodes_aside us l (
        did (set_values (enable idx) state)
        ∷ did (sleep_ms 100)
        ∷ did (write_file (node_power (idx + 1)) (if ltb 0 state then "enabled" else "disabled"))
        ∷ t),
  )

  -- A call with a mask moves no line but enable lines.
  pub activate_slot_aside :
      (s m : ℕ) (a : App) (l : Line)
      → m ≢ 0
      → is_enable l ≡ false
      → level l (activate_slot env s m a).1.trace ≡ level l a.trace
  unfolding set_power_node
  activate_slot_aside s m a l h p =
      ap (λ (r : Result Fault (Unit {0}) × App). level l r.1.trace) (activate_slot_run env s m a h)
      ∙ power_nodes_aside (bit_iterator s m) l (after_led env s m a) p
      ∙ level-after_led s m a l

  -- A call with a mask that succeeds drives the enable lines that the mask selects, and no other.
  pub level-activate_slot :
      (s m i : ℕ) (a : App)
      → m ≢ 0
      → (activate_slot env s m a).0 ≡ ok tt
      → level (enable i) (activate_slot env s m a).1.trace
        ≡ (if ltb i 4 && bit i m == 1 then some (bit i s) else level (enable i) a.trace)
  level-activate_slot s m i a h e =
      ap (λ (r : Result Fault (Unit {0}) × App). level (enable i) r.1.trace)
        (activate_slot_run env s m a h)
      ∙ level-set_power_node env s m (after_led env s m a) i
          (rw (activate_slot_run env s m a h) at e)
      ∙ rw (level-after_led s m a (enable i)) refl
