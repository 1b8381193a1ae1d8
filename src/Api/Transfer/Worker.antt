-- ===== src/Api/Transfer/Worker.antt =====
-- The worker of a transfer request: `UpgradeCommand::run` of bmcd/src/app/transfer_action.rs within
-- `execute_worker` of streaming_data_service.rs.
pub mod Laws
use tpi_bmcd.Base.{ℕ, Bool, true, false, String, Option, none, some, List, [], ◌∷◌, Result, ok, err}
use tpi_bmcd.Hal.{NodeId}
use tpi_bmcd.Hal.Device.{Env}
use tpi_bmcd.App.State.{App}
use tpi_bmcd.Utils.Io.{Hasher}
use tpi_bmcd.Upgrade.{Failure, Files, Memory, reader}
use tpi_bmcd.Upgrade.Copy.{Copy, Run}
use tpi_bmcd.Upgrade.Flash.{Ended, returned, panicked, flash_node}
use tpi_bmcd.Upgrade.Update.{Os, Log, os_update}
use tpi_bmcd.Upgrade.Request.{
  UpgradeCommand, os_upgrade, module_upgrade, UpgradeWorker, TransferRequest,
}
use tpi_bmcd.Stream.{Service, StreamingState, Outcome, finished, failed, verdict, conclude}

-- The board and the log of the system's actions, which the workers change.
pub record Machine : Type 0 where
  pub app : App
  pub log : Log

-- What the copies of a worker meet: those of flashing a node, and the one of a firmware upgrade.
pub record Copies : Type 0 where
  pub flashing : Run
  pub updating : Copy

module _ (env : Env) (sys : Os) (mem : Memory) (files : Files) (c : Hasher ℕ) where
  abbrev on_board : Log → Ended × App → Ended × Machine
  on_board log (ended, a) = (ended, record { app = a; log = log })

  abbrev on_system : App → Ended × Log → Ended × Machine
  on_system a (ended, log) = (ended, record { app = a; log = log })

  -- The worker reads its own source.
  abbrev pub with_reader : UpgradeWorker → Copies → Run
  with_reader w copies = record copies.flashing { reader = (reader mem files w.source).0 }

  unfoldable pub run_command : UpgradeCommand → UpgradeWorker → Copies → Machine → Ended × Machine
  run_command os_upgrade w copies m =
      on_system m.app (os_update sys c copies.updating w.source (reader mem files w.source).0 m.log)
  run_command (module_upgrade node) w copies m =
      on_board m.log (flash_node env c w.crc_validation (with_reader w copies) node m.app)

  -- The text of an error is `describe`; `duration` is the time that the worker took. A panic ends the
  -- task before it comes to the status.
  abbrev pub after_worker : (Failure → String) → ℕ → ℕ → ℕ → Ended → Service → Service
  after_worker describe duration size token panicked s = s
  after_worker describe duration size token (returned (ok _)) s =
      conclude (verdict (finished duration) size token s) s
  after_worker describe duration size token (returned (err e)) s =
      conclude (verdict (failed (describe e)) size token s) s

  -- The task that `execute_worker` spawns, when nothing else happens while it runs.
  unfoldable pub run_to_end :
      (Failure → String) → ℕ → ℕ → TransferRequest → Copies → Machine → Service → Machine × Service
  unfolding run_command
  run_to_end describe duration token request copies m s =
      let (ended, m') = run_command request.worker.0 request.worker.1 copies m in
      (m', after_worker describe duration request.total token ended s)
