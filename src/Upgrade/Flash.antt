-- ===== src/Upgrade/Flash.antt =====
-- `flash_node` of upgrade_worker.rs, on top of the application.
pub mod Laws
use tpi_bmcd.Base.{ℕ, Bool, if◌then◌else◌, Option, none, some, false, Result, ok, err}
use tpi_bmcd.Base.Exec.{◌>>=◌, ◌>>◌}
use tpi_bmcd.Hal.{NodeId, bmc, to_bitfield, to_inverse_bitfield}
use tpi_bmcd.Hal.Device.{Env, Fault}
use tpi_bmcd.App.State.{App, Cmd, UsbConfig}
use tpi_bmcd.App.Usb.{usb_boot, get_usb_mode, configure_usb}
use tpi_bmcd.App.Slots.{activate_slot}
use tpi_bmcd.App.Lifecycle.{node_in_flash}
use tpi_bmcd.Utils.Io.{IoError, Hasher}
use tpi_bmcd.Upgrade.{Failure, io, bmc_fault, Reader}
use tpi_bmcd.Upgrade.Copy.{Run, transfer}

-- A worker returns, or panics.
pub data Ended : Type 0 where
  returned : Result Failure (Unit {0}) → Ended
  panicked : Ended

module _ (env : Env) where
  abbrev pub restore_usb : Cmd (Unit {0})
  restore_usb = get_usb_mode env >>= λ (mode : UsbConfig × _). configure_usb env mode.0

  -- The last part of `flash_node`.
  unfoldable pub restore_board : NodeId → Cmd (Unit {0})
  restore_board n =
      activate_slot env (to_inverse_bitfield n) (to_bitfield n)
      >> (usb_boot env n false >> restore_usb)

  abbrev finish : Result Failure (Unit {0}) → Result Fault (Unit {0}) × App → Ended × App
  finish result (ok tt, a) = (returned result, a)
  finish result (err e, a) = (returned (err (bmc_fault e)), a)

  abbrev flash_loaded :
      NodeId → Option (Result Failure (Unit {0})) → Result Fault (Unit {0}) × App → Ended × App
  flash_loaded n result (err e, a) = (returned (err (bmc_fault e)), a)
  flash_loaded n none (ok tt, a) = (panicked, a)
  flash_loaded n (some result) (ok tt, a) = finish result (restore_board n a)

  unfoldable pub flash_node : Hasher ℕ → Bool → Run → NodeId → App → Ended × App
  flash_node c do_crc_validation run n a =
      flash_loaded n (transfer c do_crc_validation run) (node_in_flash env n bmc a)
