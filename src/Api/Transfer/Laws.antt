-- ===== src/Api/Transfer/Laws.antt =====
-- What a transfer request leads to.
use tpi_bmcd.Base.{
  ℕ, ◌≡◌, ◌≢◌, not, ◌&&◌, Bool, true, false, String, none, some, ok, arith, inl, inr, Option-cases,
}
use tpi_bmcd.Base.Results.{Result-cases}
use tpi_bmcd.Base.Assoc.{lookup, text_key}
use tpi_bmcd.Base.Text.{starts_with}
use tpi_bmcd.Upgrade.{
  DataTransfer, local, remote, url, new_remote, new_url, Files, Memory, size, reader, sender_half,
}
use tpi_bmcd.Upgrade.Request.{TransferRequest, InitializeTransfer, try_into}
use tpi_bmcd.Stream.{Service}
use tpi_bmcd.Api.{Query}
use tpi_bmcd.Api.Transfer.{
  Web, contains, try_map_sha256, create_data_transfer, initialize_transfer, transfer_request,
  handle_transfer_request,
}

-- A transfer from which nothing has been taken.
abbrev pub untouched : DataTransfer → Bool
untouched (local path) = true
untouched (remote name n sha256 sender receiver) = sender && receiver
untouched (url name sha256 none) = false
untouched (url name sha256 (some r)) = true

abbrev pub is_upload : DataTransfer → Bool
is_upload (remote name n sha256 sender receiver) = true
is_upload _ = false

module _ (web : Web) where
  created :
      (query : Query) (file : String) (t : DataTransfer)
      → lookup "file" query ≡ some file
      → create_data_transfer web query ≡ ok t
      → (untouched t ≡ true)
        × (is_upload t ≡ (not (contains "local" query) && not (starts_with file "http")))
  unfolding create_data_transfer new_remote new_url try_map_sha256
  created query file t named e = ground arith

ready_to_run :
    (mem : Memory) (files : Files) (t : DataTransfer)
    → untouched t ≡ true
    → (size files t ≢ none)
      × ((reader mem files (sender_half t).1).0 ≢ none)
      × ((sender_half t).0 ≡ is_upload t)
unfolding size reader sender_half
ready_to_run mem files t h = ground arith

module _ (web : Web) (mem : Memory) (files : Files) where
  named :
      (query : Query) (t : DataTransfer)
      → create_data_transfer web query ≡ ok t
      → (file : String) × (lookup "file" query ≡ some file)
  unfolding create_data_transfer
  named query t e = elim (Option-cases (lookup "file" query)) [
    | inl p ↦ absurd (ground arith)
    | inr (file, p) ↦ (file, p)
  ]

  started :
      (init : InitializeTransfer) (req : TransferRequest)
      → untouched init.data_transfer ≡ true
      → try_into files init ≡ some (ok req)
      → (req.sender ≡ is_upload init.data_transfer)
        × ((reader mem files req.worker.1.source).0 ≢ none)
        × (req.worker.1.crc_validation ≡ init.do_crc_validation)
  unfolding try_into
  started init req fresh e = ground (arith, ready_to_run mem files init.data_transfer fresh)

  initialized :
      (query : Query) (init : InitializeTransfer)
      → initialize_transfer web query ≡ ok init
      → (create_data_transfer web query ≡ ok init.data_transfer)
        × (init.do_crc_validation ≡ not (contains "skip_crc" query))
  unfolding initialize_transfer
  initialized query init e = ground arith

  -- A request that is accepted asks for a sender exactly if the file is neither local nor behind http,
  -- its worker finds the data to read, and the data is validated unless `skip_crc` is given.
  pub transfer_request_lem :
      (query : Query) (file : String) (req : TransferRequest)
      → lookup "file" query ≡ some file
      → transfer_request web files query ≡ some (ok req)
      → (req.sender ≡ (not (contains "local" query) && not (starts_with file "http")))
        × ((reader mem files req.worker.1.source).0 ≢ none)
        × (req.worker.1.crc_validation ≡ not (contains "skip_crc" query))
  unfolding transfer_request
  transfer_request_lem query file req f e = elim (Result-cases (initialize_transfer web query)) [
    | inl (init, p) ↦
        let (made, crc) = initialized query init p in
        let (fresh, kind) = created web query file init.data_transfer f made in
        ground (arith, started init req fresh)
    | inr (r, p) ↦ absurd (ground arith)
  ]

  -- No query makes the handler panic.
  handle_transfer_request_answers :
      (id token : ℕ) (query : Query) (s : Service)
      → (handle_transfer_request web files id token query s).0 ≢ none
  unfolding handle_transfer_request transfer_request try_into
  handle_transfer_request_answers id token query s =
      elim (Result-cases (initialize_transfer web query)) [
        | inl (init, p) ↦
            let (made, crc) = initialized query init p in
            let (file, f) = named query init.data_transfer made in
            let (fresh, kind) = created web query file init.data_transfer f made in
            ground (arith, ready_to_run mem files init.data_transfer fresh)
        | inr (r, p) ↦ ground arith
      ]
