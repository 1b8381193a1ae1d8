-- ===== src/App/Gadget.antt =====
-- bmcd/src/app/usb_gadget.rs: the mass storage function of the USB gadget.
use tpi_bmcd.Base.{Bool, ok, err, String, if◌then◌else◌}
use tpi_bmcd.Base.Exec.{Exec, pure, ◌>>=◌, ◌>>◌}
use tpi_bmcd.Hal.Device.{
  Env, Trace, Fault, perform, start, stop, gadget_service, remove_msd_link, create_msd_dir,
  open_lun, symlink_msd, write_lun, no_gadget,
}

module _ (env : Env) where
  abbrev Io : Type 0
  Io = Exec Trace Fault (Unit {0})

  unfoldable pub remove_msd_function : Io
  unfolding perform
  remove_msd_function t =
      if env.msd_link_exists t
      then (do
        perform env (gadget_service stop)
        perform env remove_msd_link
        perform env (gadget_service start))
          t
      else (ok tt, t)

  abbrev is_gadget_running : Exec Trace Fault Bool
  is_gadget_running t = (env.gadget_running t, t)

  abbrev require_gadget : Io
  require_gadget t = if env.gadget_exists t then (ok tt, t) else (err no_gadget, t)

  unfoldable pub append_msd_config : String → Io
  unfolding perform remove_msd_function
  append_msd_config block_device = do
    running ← is_gadget_running
    if running then (do remove_msd_function; perform env (gadget_service stop)) else pure tt
    require_gadget
    perform env create_msd_dir
    perform env open_lun
    perform env (write_lun block_device)
    perform env symlink_msd
    perform env (gadget_service start)
