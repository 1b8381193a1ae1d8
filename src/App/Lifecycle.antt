-- ===== src/App/Lifecycle.antt =====
-- Start, reboot and the flows that put a node into USB mode.
pub mod Laws
pub mod Start
use tpi_bmcd.Base.{ℕ, Bool, true, false, if◌then◌else◌, Result, ok, err, String}
use tpi_bmcd.Base.Bits.{not_u8}
use tpi_bmcd.Base.Exec.{Exec, pure, raise, gets, ◌>>=◌, ◌>>◌}
use tpi_bmcd.Hal.{NodeId, UsbRoute, bmc, to_bitfield, to_inverse_bitfield}
use tpi_bmcd.Hal.Device.{
  Env, Fault, perform, open_mem, write_fel_magic, spawn_shutdown, load_block_device, load_stream,
}
use tpi_bmcd.Hal.Power.{sleep, status_led}
use tpi_bmcd.App.State.{App, Cmd, hal, logged, UsbConfig, flashing}
use tpi_bmcd.App.Gadget.{append_msd_config}
use tpi_bmcd.App.Usb.{
  configure_usb, configure_usb_internal, clear_usb_boot, initialize_usb_mode, usb_boot,
  get_usb_mode,
}
use tpi_bmcd.App.Slots.{activate_slot}
use tpi_bmcd.App.Cooling.{initialize_cooling}

module _ (env : Env) where
  unfoldable pub initialize : Cmd (Unit {0})
  initialize a =
      (do
        initialize_usb_mode env
        power_state ← gets (λ (b : App). b.db.activated_nodes)
        activate_slot env power_state 0b1111
        initialize_cooling env)
        a

  unfoldable pub reboot_into_usb : NodeId → UsbConfig → Cmd (Unit {0})
  reboot_into_usb n config = do
    activate_slot env (not_u8 (to_bitfield n)) (to_bitfield n)
    configure_usb_internal env config
    activate_slot env (to_bitfield n) (to_bitfield n)
    hal (sleep env 1000)
    clear_usb_boot env

  unfoldable pub node_in_msd : NodeId → Cmd String
  node_in_msd n = do
    reboot_into_usb n (flashing n bmc)
    hal (perform env load_block_device)
    blk_dev ← gets (λ a. env.block_device a.trace)
    logged (hal (append_msd_config env blk_dev))
    pure blk_dev

  unfoldable pub node_in_flash : NodeId → UsbRoute → Cmd (Unit {0})
  node_in_flash n router = do reboot_into_usb n (flashing n router); hal (perform env load_stream)

  -- The seek in /dev/mem is part of `write_fel_magic`.
  unfoldable pub reboot : Bool → Cmd (Unit {0})
  reboot fel = do
    (if fel then (do hal (perform env open_mem); hal (perform env write_fel_magic)) else pure tt)
    logged (hal (status_led env true))
    hal (perform env spawn_shutdown)
