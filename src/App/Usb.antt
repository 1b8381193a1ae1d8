-- ===== src/App/Usb.antt =====
-- The USB part of bmc_application.rs.
pub mod Laws
pub mod Lines
use tpi_bmcd.Base.{Bool, true, false, Result, ok, err, String, if◌then◌else◌, ℕ}
use tpi_bmcd.Base.Exec.{Exec, pure, raise, gets, ◌>>=◌, ◌>>◌}
use tpi_bmcd.Hal.{
  NodeId, UsbRoute, bmc, alternative_port, UsbMode, host, device, flash, to_bitfield, is_flash,
}
use tpi_bmcd.Hal.Device.{Env, Fault}
use tpi_bmcd.Hal.Pins.{
  UsbArchitecture, usb_hub, usb_mux_switch, set_usb_route, select_usb, set_usb_boot,
}
use tpi_bmcd.Hal.Pins
use tpi_bmcd.App.State.{
  App, Db, Cmd, hal, logged, set_db, UsbConfig, usb_a, bmc_host, node, flashing,
}
use tpi_bmcd.App.Gadget.{remove_msd_function}

-- The tuple `(mode, dest, route)` of a configuration.
pub record Wiring : Type 0 where
  pub mode : UsbMode
  pub dest : NodeId
  pub route : UsbRoute

unfoldable pub wiring : UsbConfig → Wiring
wiring (usb_a dev) = record { mode = device; dest = dev; route = alternative_port }
wiring (bmc_host dev) = record { mode = device; dest = dev; route = bmc }
wiring (flashing dev r) = record { mode = flash; dest = dev; route = r }
wiring (node h r) = record { mode = host; dest = h; route = r }

module _ (env : Env) where
  abbrev pub apply_wiring : Wiring → Cmd (Unit {0})
  apply_wiring w a =
      (do
        (if is_flash w.mode then pure tt else logged (hal (remove_msd_function env)))
        hal (set_usb_route env a.pins w.route)
        hal (select_usb env a.pins w.dest w.mode))
        a

  unfoldable pub configure_usb_internal : UsbConfig → Cmd (Unit {0})
  configure_usb_internal config = apply_wiring (wiring config)

  unfoldable pub configure_usb : UsbConfig → Cmd (Unit {0})
  configure_usb config = do
    configure_usb_internal config
    set_db (λ db. record db { usb_config = config })

  unfoldable pub set_node1_usb_route : Bool → Cmd (Unit {0})
  set_node1_usb_route alternative a =
      (do
        hal (Pins.set_node1_usb_route env a.pins alternative)
        set_db (λ db. record db { node1_usb = alternative }))
        a

  unfoldable pub get_node1_usb_route : Cmd Bool
  get_node1_usb_route = gets (λ a. a.db.node1_usb)

  unfoldable pub get_usb_mode : Cmd (UsbConfig × UsbArchitecture)
  get_usb_mode = gets (λ a. (a.db.usb_config, a.pins.usb_switch))

  unfoldable pub usb_boot : NodeId → Bool → Cmd (Unit {0})
  usb_boot n on =
      let node_bits = to_bitfield n in
      hal (set_usb_boot env (if on then node_bits else 0) node_bits)

  unfoldable pub clear_usb_boot : Cmd (Unit {0})
  clear_usb_boot = hal (set_usb_boot env 0 0b1111)

  unfoldable pub is_hub : UsbArchitecture → Bool
  is_hub usb_hub = true
  is_hub usb_mux_switch = false

  unfoldable pub initialize_usb_mode : Cmd (Unit {0})
  unfolding is_hub
  initialize_usb_mode a =
      (do
        (if is_hub a.pins.usb_switch
            then hal (Pins.set_node1_usb_route env a.pins a.db.node1_usb)
            else pure tt)
        configure_usb a.db.usb_config)
        a
