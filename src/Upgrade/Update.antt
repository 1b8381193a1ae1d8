-- ===== src/Upgrade/Update.antt =====
-- `os_update` of upgrade_worker.rs: the image is copied to a temporary directory and given to the
-- system's own updater.
pub mod Laws
use tpi_bmcd.Base.{
  Bool, true, false, if◌then◌else◌, String, Option, none, some, List, [], ◌∷◌, Result, ok, err, ℕ,
}
use tpi_bmcd.Base.Results
use tpi_bmcd.Base.Exec.{Exec, pure, raise, ◌>>=◌, ◌>>◌}
use tpi_bmcd.Utils.Io.{IoError, Hasher, WriteMonitor, new_monitor}
use tpi_bmcd.Upgrade.{Failure, io, update_failed, DataTransfer, transfer_name, Reader}
use tpi_bmcd.Upgrade.Path.{push}
use tpi_bmcd.Upgrade.Copy.{Copy, copy_or_cancel}
use tpi_bmcd.Upgrade.Flash.{Ended, returned, panicked}

abbrev pub tmp_upgrade_dir : String
tmp_upgrade_dir = "/tmp/os_upgrade"

-- What is done outside, in order: `create_dir_all`, opening the image for writing, the shell command
-- `osupdate` on the image, and `remove_dir_all`.
pub data OsAction : Type 0 where
  create_dir remove_dir : OsAction
  open_image os_update_command : String → OsAction

-- Answers may depend on what has been tried; `exit_success` is the exit status of the command.
pub record Os : Type 0 where
  pub outcome : List OsAction → OsAction → Option IoError
  pub exit_success : List OsAction → Bool

-- The latest action first.
abbrev pub Log : Type 0
Log = List OsAction

module _ (sys : Os) where
  abbrev answer : Option IoError → Result Failure (Unit {0})
  answer none = ok tt
  answer (some e) = err (io e)

  unfoldable pub attempt : OsAction → Exec Log Failure (Unit {0})
  attempt x log = (answer (sys.outcome log x), x ∷ log)

  -- The result of the command is looked at after the directory has been removed.
  abbrev pub command : String → Exec Log Failure (Result Failure Bool)
  command image log =
      let log' = os_update_command image ∷ log in
      (
        ok (elim (sys.outcome log (os_update_command image)) [
          | none ↦ ok (sys.exit_success log)
          | some e ↦ err (io e)
        ]),
        log',
      )

  abbrev judge : Result Failure Bool → Exec Log Failure (Unit {0})
  judge (err e) = raise e
  judge (ok success) = if success then pure tt else raise update_failed

  abbrev copied : Result IoError ℕ → Exec Log Failure (Unit {0})
  copied (ok n) = pure tt
  copied (err e) = raise (io e)

  abbrev pub image_of : String → String
  image_of file_name = push tmp_upgrade_dir file_name

  unfoldable pub update_with : (c : Hasher ℕ) → Copy → String → Exec Log Failure (Unit {0})
  update_with c copy image = do
    attempt create_dir
    attempt (open_image image)
    copied (copy_or_cancel c copy (new_monitor c)).0
    result ← command image
    attempt remove_dir
    judge result

  abbrev run_worker : Result Failure (Unit {0}) × Log → Ended × Log
  run_worker (r, log) = (returned r, log)

  abbrev read_and_update :
      (c : Hasher ℕ) → Copy → String → Option (Result Failure Reader) → Log → Ended × Log
  read_and_update c copy name none log = (panicked, log)
  read_and_update c copy name (some (err e)) log = (returned (err e), log)
  read_and_update c copy name (some (ok r)) log =
      run_worker (update_with c copy (image_of name) log)

  -- `reader` is what `data_transfer.reader()` yields.
  unfoldable pub os_update :
      (c : Hasher ℕ) → Copy → DataTransfer → Option (Result Failure Reader) → Log → Ended × Log
  os_update c copy data_transfer reader log = elim (transfer_name data_transfer) [
    | err e ↦ (returned (err e), log)
    | ok name ↦ read_and_update c copy name reader log
  ]
