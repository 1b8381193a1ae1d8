-- ===== src/Api/Transfer.antt =====
-- `handle_transfer_request` of bmcd/src/api/legacy.rs. What crates `hex` and `url` do, and the answer
-- to a GET request, are parameters.
pub mod Laws
pub mod Uploads
pub mod Worker
use tpi_bmcd.Base.{
  ℕ, ◌+◌, ◌^◌, not, Bool, true, false, if◌then◌else◌, String, Option, none, some, List, [], ◌∷◌,
  Result, ok, err, str_eq,
}
use Prim.Native.String.{◌++◌}
use tpi_bmcd.Base.Results.{◌>>=◌, ok_or, map_err}
use tpi_bmcd.Base.Text.{parse_unsigned, starts_with}
use tpi_bmcd.Base.Assoc.{lookup, text_key}
use tpi_bmcd.Hal.{NodeId, node1, node2, node3, node4}
use tpi_bmcd.Utils.Io.{Bytes}
use tpi_bmcd.Upgrade.{Failure, DataTransfer, local, new_remote, new_url, Site, Files}
use tpi_bmcd.Upgrade.Request.{
  UpgradeCommand, os_upgrade, module_upgrade, InitializeTransfer, TransferRequest, try_into,
}
use tpi_bmcd.Stream.{Service, install}
use tpi_bmcd.Api.{Query, LegacyResponse, error, text, failed_with, bad_request, get_node_param}

pub record Web : Type 0 where
  pub decode_hex : String → Result String Bytes
  pub parse_url : String → Result String Site

-- `query.contains_key(key)`
abbrev pub contains : String → Query → Bool
contains key query = elim (lookup key query) [ none ↦ false | some _ ↦ true ]

-- `From<anyhow::Error>`
abbrev pub internal : Failure → LegacyResponse
internal e = error 500 (failed_with e)

module _ (web : Web) where
  unfoldable pub try_map_sha256 : Option String → Result LegacyResponse (Option Bytes)
  try_map_sha256 none = ok none
  try_map_sha256 (some sha256) =
      map_err (λ e. bad_request ("`sha256` parameter contains invalid hex values: " ++ e))
        (web.decode_hex sha256)
      >>= λ bytes. ok (some bytes)

  abbrev download : String → Option Bytes → Result LegacyResponse DataTransfer
  download file sha256 =
      map_err (λ e. bad_request (file ++ " could not be parsed to a url object: " ++ e))
        (web.parse_url file)
      >>= λ site. map_err internal (new_url site sha256)

  abbrev upload : Query → String → Option Bytes → Result LegacyResponse DataTransfer
  upload query file sha256 =
      ok_or (lookup "length" query) (error 411 (text "Invalid `length` query parameter"))
      >>= λ length.
          ok_or (parse_unsigned (2 ^ 64) length) (bad_request "`length` parameter is not a number")
          >>= λ n. ok (new_remote file n sha256)

  abbrev fetched : Query → String → Result LegacyResponse DataTransfer
  fetched query file = try_map_sha256 (lookup "sha256" query) >>= λ sha256.
      if starts_with file "http" then download file sha256 else upload query file sha256

  unfoldable pub create_data_transfer : Query → Result LegacyResponse DataTransfer
  create_data_transfer query =
      ok_or (lookup "file" query) (bad_request "Invalid `file` query parameter") >>= λ file.
      if contains "local" query then ok (local file) else fetched query file

  -- `Display` of a node.
  abbrev node_name : NodeId → String
  node_name node1 = "Node 1"
  node_name node2 = "Node 2"
  node_name node3 = "Node 3"
  node_name node4 = "Node 4"

  abbrev no_such_type : LegacyResponse
  no_such_type = bad_request "`type` should equal 'firmware' or 'flash'"

  unfoldable pub choose_command : Query → Result LegacyResponse (String × UpgradeCommand)
  choose_command query = elim (lookup "type" query) [
    | none ↦ err no_such_type
    | some t ↦
        if str_eq t "firmware"
        then ok ("firmware upgrade service", os_upgrade)
        else if str_eq t "flash"
        then (get_node_param query >>= λ node.
            ok (node_name node ++ " os install service", module_upgrade node))
        else err no_such_type
  ]

  unfoldable pub initialize_transfer : Query → Result LegacyResponse InitializeTransfer
  initialize_transfer query = choose_command query >>= λ chosen.
      create_data_transfer query >>= λ transfer. ok (record {
        process_name = chosen.0;
        data_transfer = transfer;
        upgrade_command = chosen.1;
        do_crc_validation = not (contains "skip_crc" query);
      })

  abbrev answered :
      Option (Result Failure TransferRequest) → Option (Result LegacyResponse TransferRequest)
  answered none = none
  answered (some r) = some (map_err internal r)

  -- The request that is handed to the streaming service; `none` is a panic.
  unfoldable pub transfer_request : Files → Query → Option (Result LegacyResponse TransferRequest)
  transfer_request files query = elim (initialize_transfer query) [
    | err r ↦ some (err r)
    | ok init ↦ answered (try_into files init)
  ]

  -- The handler. The identifier is drawn at random, `token` is the request's; the answer is the
  -- identifier, as `handle` of a JSON object.
  unfoldable pub handle_transfer_request :
      Files → ℕ → ℕ → Query → Service → Option (Result LegacyResponse ℕ) × Service
  handle_transfer_request files id token query s = elim (transfer_request files query) [
    | none ↦ (none, s)
    | some (err r) ↦ (some (err r), s)
    | some (ok request) ↦ (
      some (ok id),
      install
          (record {
            id = id;
            process_name = request.process;
            size = request.total;
            data_sender = request.sender;
            token = token;
          })
          s,
    )
  ]
