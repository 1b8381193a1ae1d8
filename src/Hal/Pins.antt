-- ===== src/Hal/Pins.antt =====
-- bmcd/src/hal/pin_controller.rs: which node the USB bus goes to, and the boot mode of the nodes.
pub mod Lines
pub mod Routing
use tpi_bmcd.Base.{
  ℕ, zero, suc, Bool, true, false, Option, none, some, List, [], ◌∷◌, Result, ok, err, String,
  if◌then◌else◌,
}
use tpi_bmcd.Base.Exec.{Exec, raise, pure, ◌>>=◌, ◌>>◌}
use tpi_bmcd.Hal.{
  NodeId, node1, node2, node3, node4, UsbRoute, bmc, alternative_port, UsbMode, host, device, flash,
  to_bitfield, to_inverse_bitfield, is_flash, is_host,
}
use tpi_bmcd.Hal.Helpers.{bit_iterator}
use tpi_bmcd.Hal.Device.{
  Env, Trace, Fault, Line, usb_mux, usb_vbus, output_switch, node1_source, rpi_boot, Target,
  usb_port_power, Effect, set_values, write_file, perform, node1_usb_not_applicable,
  host_mode_not_supported,
}

-- The trait object `Box<dyn UsbConfiguration>`: `UsbMuxSwitch` or `UsbHub`.
pub data UsbArchitecture : Type 0 where
  usb_hub usb_mux_switch : UsbArchitecture

pub record PinController : Type 0 where
  pub usb_switch : UsbArchitecture

module _ (env : Env) where
  abbrev pub Io : Type 0
  Io = Exec Trace Fault (Unit {0})

  unfoldable pub mux_set_usb_route : UsbRoute → Io
  mux_set_usb_route alternative_port = do
    perform env (set_values output_switch 0)
    perform env (write_file usb_port_power "enabled")
  mux_set_usb_route bmc = do
    perform env (set_values output_switch 1)
    perform env (write_file usb_port_power "disabled")

  unfoldable pub hub_set_usb_route : UsbRoute → Io
  hub_set_usb_route alternative_port = perform env (set_values output_switch 0)
  hub_set_usb_route bmc = perform env (set_values output_switch 1)

  abbrev pub mux_values : NodeId → ℕ
  mux_values node1 = 0b1100
  mux_values node2 = 0b1101
  mux_values node3 = 0b0011
  mux_values node4 = 0b0111

  abbrev pub vbus_values : NodeId → UsbMode → ℕ
  vbus_values node host = to_inverse_bitfield node
  vbus_values node device = 0b1111
  vbus_values node flash = 0b1111

  unfoldable pub mux_configure_usb : NodeId → UsbMode → Io
  mux_configure_usb node mode = do
    perform env (set_values usb_mux (mux_values node))
    perform env (set_values usb_vbus (vbus_values node mode))

  unfoldable pub hub_configure_usb : NodeId → UsbMode → Io
  hub_configure_usb node mode = if is_host mode then raise host_mode_not_supported else pure tt

  unfoldable pub hub_set_node1_usb_route : Bool → Io
  hub_set_node1_usb_route alternative =
      perform env (set_values node1_source (if alternative then 0b11 else 0))

  -- `for (idx, state) in updates { rpi_boot[idx].set_values(state)?; }`
  unfoldable pub set_boot_lines : List (ℕ × ℕ) → Io
  set_boot_lines [] = pure tt
  set_boot_lines ((idx, state) ∷ updates) = do
    perform env (set_values (rpi_boot idx) state)
    set_boot_lines updates

  unfoldable pub set_usb_boot : ℕ → ℕ → Io
  set_usb_boot nodes_state nodes_mask = set_boot_lines (bit_iterator nodes_state nodes_mask)

  unfoldable pub switch_configure_usb : UsbArchitecture → NodeId → UsbMode → Io
  switch_configure_usb usb_hub = hub_configure_usb
  switch_configure_usb usb_mux_switch = mux_configure_usb

  unfoldable pub select_usb : PinController → NodeId → UsbMode → Io
  select_usb pins node mode = do
    switch_configure_usb pins.usb_switch node mode
    if is_flash mode
        then set_usb_boot (to_bitfield node) (to_bitfield node)
        else set_usb_boot 0 0b1111

  unfoldable pub switch_set_usb_route : UsbArchitecture → UsbRoute → Io
  switch_set_usb_route usb_hub = hub_set_usb_route
  switch_set_usb_route usb_mux_switch = mux_set_usb_route

  unfoldable pub set_usb_route : PinController → UsbRoute → Io
  set_usb_route pins route = switch_set_usb_route pins.usb_switch route

  unfoldable pub switch_set_node1_usb_route : UsbArchitecture → Bool → Io
  switch_set_node1_usb_route usb_hub = hub_set_node1_usb_route
  switch_set_node1_usb_route usb_mux_switch = λ _. raise node1_usb_not_applicable

  unfoldable pub set_node1_usb_route : PinController → Bool → Io
  set_node1_usb_route pins alternative = switch_set_node1_usb_route pins.usb_switch alternative
