-- ===== src/Upgrade/Request.antt =====
-- bmcd/src/app/transfer_action.rs: from the source of an image to a request for the streaming service.
use tpi_bmcd.Base.{ℕ, Bool, String, Option, none, some, Result, ok, err}
use tpi_bmcd.Hal.{NodeId}
use tpi_bmcd.Upgrade.{DataTransfer, Failure, Files, size, sender_half}

pub data UpgradeCommand : Type 0 where
  os_upgrade : UpgradeCommand
  module_upgrade : NodeId → UpgradeCommand

pub record InitializeTransfer : Type 0 where
  pub process_name : String
  pub data_transfer : DataTransfer
  pub upgrade_command : UpgradeCommand
  pub do_crc_validation : Bool

-- `UpgradeWorker`, without its cancellation token and its channel.
pub record UpgradeWorker : Type 0 where
  pub crc_validation : Bool
  pub source : DataTransfer

-- `sender` tells whether the request has a sender; the worker is the future that `run` gives.
pub record TransferRequest : Type 0 where
  pub process : String
  pub total : ℕ
  pub sender : Bool
  pub worker : UpgradeCommand × UpgradeWorker

abbrev request : InitializeTransfer → ℕ → Bool × DataTransfer → TransferRequest
request init n (has_sender, rest) = record {
  process = init.process_name;
  total = n;
  sender = has_sender;
  worker =
      (init.upgrade_command, record { crc_validation = init.do_crc_validation; source = rest });
}

-- `none` is a panic of `size`.
unfoldable pub try_into : Files → InitializeTransfer → Option (Result Failure TransferRequest)
try_into files init = elim (size files init.data_transfer) [
  | none ↦ none
  | some (err e) ↦ some (err e)
  | some (ok n) ↦ some (ok (request init n (sender_half init.data_transfer)))
]
