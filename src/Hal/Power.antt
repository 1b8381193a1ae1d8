-- ===== src/Hal/Power.antt =====
-- bmcd/src/hal/power_controller.rs: powering the nodes and the LEDs.
pub mod Order
use tpi_bmcd.Base.{
  ℕ, ◌+◌, Bool, true, false, Option, none, some, List, [], ◌∷◌, Result, ok, err, String,
  if◌then◌else◌, ltb,
}
use tpi_bmcd.Base.Exec.{Exec, raise, pure, ◌>>=◌, ◌>>◌}
use tpi_bmcd.Hal.{NodeId, to_bitfield}
use tpi_bmcd.Hal.Helpers.{bit_iterator}
use tpi_bmcd.Hal.Device.{
  Env, Trace, Fault, Line, enable, Target, sysfs_power, sysfs_reset, node_power, Effect, set_values,
  write_file, sleep_ms, perform, did,
}

module _ (env : Env) where
  abbrev Io : Type 0
  Io = Exec Trace Fault (Unit {0})

  -- A pause always returns.
  abbrev pub sleep : ℕ → Io
  sleep ms t = (ok tt, did (sleep_ms ms) ∷ t)

  abbrev set_mode : ℕ → ℕ → Io
  set_mode node_id node_state =
      perform env
        (write_file (node_power node_id) (if ltb 0 node_state then "enabled" else "disabled"))

  -- The loop of `set_power_node`.
  unfoldable pub power_nodes : List (ℕ × ℕ) → Io
  unfolding perform
  power_nodes [] = pure tt
  power_nodes ((idx, state) ∷ updates) = do
    set_mode (idx + 1) state
    sleep 100
    perform env (set_values (enable idx) state)
    power_nodes updates

  unfoldable pub set_power_node : ℕ → ℕ → Io
  unfolding power_nodes
  set_power_node node_states node_mask = power_nodes (bit_iterator node_states node_mask)

  unfoldable pub reset_node : NodeId → Io
  reset_node node = do
    set_power_node 0 (to_bitfield node)
    sleep 1000
    set_power_node (to_bitfield node) (to_bitfield node)

  unfoldable pub power_led : Bool → Io
  unfolding perform
  power_led on = perform env (write_file sysfs_power (if on then "1" else "0"))

  unfoldable pub status_led : Bool → Io
  unfolding perform
  status_led on = perform env (write_file sysfs_reset (if on then "1" else "0"))
