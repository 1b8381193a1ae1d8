-- ===== src/Api/Transfer/Uploads.antt =====
-- A transfer request and the upload that follows it.
use tpi_bmcd.Base.{ℕ, ◌<◌, ◌^◌, ◌≡◌, ◌≢◌, Bool, true, false, some, List, ok, is_ok, arith}
use tpi_bmcd.Stream.{Service, StreamingState, take_sender, install, assign}
use tpi_bmcd.Upgrade.{Files}
use tpi_bmcd.Upgrade.Request.{TransferRequest}
use tpi_bmcd.Api.{Query}
use tpi_bmcd.Api.Upload.{handle_file_upload}
use tpi_bmcd.Api.Upload.Laws.{total, all_taken, handle_file_upload_lem}
use tpi_bmcd.Api.Transfer.{Web, transfer_request, handle_transfer_request}

module _ (web : Web) (files : Files) (id token : ℕ) (query : Query) (req : TransferRequest)
    (s : Service) where
  abbrev requested : Service
  requested = (handle_transfer_request web files id token query s).1

  taken :
      transfer_request web files query ≡ some (ok req)
      → req.sender ≡ true
      → (take_sender id requested).0 ≡ ok (token, req.total)
  unfolding handle_transfer_request install assign take_sender
  taken e sends = ground (arith, e, sends)

  taken_elsewhere :
      (other : ℕ)
      → transfer_request web files query ≡ some (ok req)
      → other ≢ id
      → is_ok (take_sender other requested).0 ≡ false
  unfolding handle_transfer_request install assign take_sender
  taken_elsewhere other e differs = ground (arith, e, differs)

  -- An accepted request that asks for an upload is answered with a handle. An upload with that handle,
  -- of chunks that the worker takes and that add up to the announced size, succeeds and cancels
  -- nothing; an upload with any other handle is refused.
  pub upload_after_request :
      (other : ℕ) (chunks : List (ℕ × Bool)) (meanwhile : Service → Service)
      (seen : List StreamingState)
      → transfer_request web files query ≡ some (ok req)
      → req.sender ≡ true
      → req.total < 2 ^ 64
      → total chunks ≡ req.total
      → all_taken chunks ≡ true
      → other ≢ id
      → let (r, after) = handle_file_upload id (some chunks) meanwhile seen requested in
        ((handle_transfer_request web files id token query s).0 ≡ some (ok id))
        × (is_ok r ≡ true)
        × (after ≡ meanwhile (take_sender id requested).1)
        × (is_ok (handle_file_upload other (some chunks) meanwhile seen requested).0 ≡ false)
  unfolding handle_transfer_request handle_file_upload
  upload_after_request other chunks meanwhile seen e sends small whole took differs =
      let t = taken e sends in
      let u =
        handle_file_upload_lem id token req.total chunks meanwhile seen requested t
          (omega (arith, whole, small)) small in
      (
        ground (arith, e),
        ground (arith, u, whole, took),
        ground (arith, u, whole, took),
        ground (arith, taken_elsewhere other e differs),
      )
