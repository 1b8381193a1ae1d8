-- ===== src/Api/Transfer/Worker/Laws.antt =====
-- A request to flash a node, from the query to the end of its worker.
use tpi_bmcd.Base.{
  ℕ, ◌<◌, ◌≡◌, refl, ◌==◌, false, if◌then◌else◌, String, some, Result, ok, err, arith,
}
use tpi_bmcd.Base.Bits.{bit}
use tpi_bmcd.Hal.{NodeId, bmc, to_u8, is_flash}
use tpi_bmcd.Hal.Device.{Env, level, rpi_boot, enable}
use tpi_bmcd.App.Usb.{wiring}
use tpi_bmcd.App.Lifecycle.{node_in_flash}
use tpi_bmcd.Utils.Io.{Hasher}
use tpi_bmcd.Upgrade.{Failure, Files, Memory}
use tpi_bmcd.Upgrade.Copy.{transfer}
use tpi_bmcd.Upgrade.Flash.{returned, flash_node, restore_board}
use tpi_bmcd.Upgrade.Flash.Laws.{flash_node_restores}
use tpi_bmcd.Upgrade.Update.{Os}
use tpi_bmcd.Upgrade.Request.{module_upgrade, TransferRequest}
use tpi_bmcd.Stream.{
  Service, StreamingState, done, error, drop_state, mem, install, verdict, conclude, assign,
}
use tpi_bmcd.Api.{Query}
use tpi_bmcd.Api.Transfer.{Web, transfer_request, handle_transfer_request}
use tpi_bmcd.Api.Transfer.Worker.{
  Machine, Copies, with_reader, run_command, run_to_end, after_worker,
}

-- The state that a finished transfer leaves.
abbrev pub final : (Failure → String) → ℕ → ℕ → Result Failure (Unit {0}) → StreamingState
final describe duration size (ok _) = done duration size
final describe duration size (err e) = error (describe e)

module _ (env : Env) (sys : Os) (memory : Memory) (files : Files) (c : Hasher ℕ) (web : Web) where
  accepted :
      (id token : ℕ) (query : Query) (req : TransferRequest) (s : Service)
      → transfer_request web files query ≡ some (ok req)
      → (handle_transfer_request web files id token query s).0 ≡ some (ok id)
  unfolding handle_transfer_request
  accepted id token query req s e = ground (arith, e)

  concluded :
      (describe : Failure → String) (id token duration : ℕ) (query : Query) (req : TransferRequest)
      (s : Service) (r : Result Failure (Unit {0}))
      → transfer_request web files query ≡ some (ok req)
      → mem token (drop_state s.status s.cancelled) ≡ false
      → let s' = (handle_transfer_request web files id token query s).1 in
        (after_worker env sys memory files c describe duration req.total token
          (returned r)
          s').status
        ≡ final describe duration req.total r
  unfolding handle_transfer_request install conclude verdict assign drop_state
  concluded describe id token duration query req s (ok tt) e live = ground (arith, e, live)
  concluded describe id token duration query req s (err x) e live = ground (arith, e, live)

  ran :
      (describe : Failure → String) (token duration : ℕ) (req : TransferRequest) (n : NodeId)
      (copies : Copies) (m : Machine) (s : Service)
      → req.worker.0 ≡ module_upgrade n
      → let (worker, after) =
          flash_node env c req.worker.1.crc_validation
            (with_reader env sys memory files c req.worker.1 copies)
            n
            m.app in
        run_to_end env sys memory files c describe duration token req copies m s ≡ (
          record { app = after; log = m.log },
          after_worker env sys memory files c describe duration req.total token worker s,
        )
  unfolding run_to_end run_command
  ran describe token duration req n copies m s e = rw e refl

  -- A request to flash a node that is accepted is answered with its handle. When its worker has brought
  -- the node into flash mode, ends without a panic while the status is that of the request, and can
  -- restore the board: the status is done with the announced size if the transfer succeeded, and else
  -- the error of the transfer. The stored power state of the node is off and its enable line is low,
  -- those of the other nodes are as before, a stored USB configuration other than flashing is kept, and
  -- all boot lines are low. The token of the request must not be one that was cancelled before, nor that
  -- of the transfer that it replaces.
  pub flash_request_lem :
      (describe : Failure → String) (id token duration : ℕ) (query : Query) (req : TransferRequest)
      (n : NodeId) (copies : Copies) (m : Machine) (s : Service) (i : ℕ)
      (r : Result Failure (Unit {0}))
      → transfer_request web files query ≡ some (ok req)
      → req.worker.0 ≡ module_upgrade n
      → mem token (drop_state s.status s.cancelled) ≡ false
      → i < 4
      → is_flash (wiring m.app.db.usb_config).mode ≡ false
      → (node_in_flash env n bmc m.app).0 ≡ ok tt
      → transfer c req.worker.1.crc_validation
          (with_reader env sys memory files c req.worker.1 copies)
        ≡ some r
      → (restore_board env n (node_in_flash env n bmc m.app).1).0 ≡ ok tt
      → let (answer, s') = handle_transfer_request web files id token query s in
        let (m', s'') = run_to_end env sys memory files c describe duration token req copies m s' in
        (answer ≡ some (ok id))
        × (s''.status ≡ final describe duration req.total r)
        × (bit i m'.app.db.activated_nodes
            ≡ (if i == to_u8 n then 0 else bit i m.app.db.activated_nodes))
        × (m'.app.db.usb_config ≡ m.app.db.usb_config)
        × (level (rpi_boot i) m'.app.trace ≡ some 0)
        × (level (enable i) m'.app.trace
            ≡ (if i == to_u8 n then some 0 else level (enable i) m.app.trace))
  flash_request_lem describe id token duration query req n copies m s i r e flashes live h mode
        loaded given restored =
      let run = with_reader env sys memory files c req.worker.1 copies in
      let board =
        flash_node_restores env n c req.worker.1.crc_validation run m.app i r h mode loaded given
          restored in
      let s' = (handle_transfer_request web files id token query s).1 in
      rw (ran describe token duration req n copies m s' flashes, board.0)
        (
          accepted id token query req s e,
          concluded describe id token duration query req s r e live,
          board.1,
          board.2,
          board.3,
          board.4,
        )
