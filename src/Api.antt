-- ===== src/Api.antt =====
-- bmcd/src/api.rs, api/into_legacy_response.rs and the entry of api/legacy.rs: parameters, responses
-- and the choice of the handler.
pub mod Tree
pub mod Info
pub mod Power
pub mod Usb
pub mod Cooling
pub mod Upload
pub mod Transfer
pub mod Entry
pub mod Routes
use tpi_bmcd.Base.{
  ℕ, ◌^◌, Bool, true, false, if◌then◌else◌, String, Option, none, some, List, [], ◌∷◌, Result, ok,
  err,
}
use Prim.Native.String.{◌++◌}
use tpi_bmcd.Base.Results.{◌>>=◌, ok_or, map_err}
use tpi_bmcd.Base.Text.{parse_i32}
use tpi_bmcd.Base.Assoc.{lookup, text_key}
use tpi_bmcd.Hal.{NodeId, try_from_i32}
use tpi_bmcd.Hal.Device.{Fault}
use tpi_bmcd.Upgrade.{Failure}
use tpi_bmcd.Api.Tree.{Value}
use tpi_bmcd.App.State.{App, Cmd}

abbrev pub Query : Type 0
Query = List (String × String)

-- What a response says. `failed_to` and `failed_with` are the texts of errors from below, `missing_bytes` the text
-- "missing {} bytes".
pub data Message : Type 0 where
  text : String → Message
  failed_to : Fault → Message
  missing_bytes : ℕ → Message
  failed_with : Failure → Message

-- The JSON bodies of the handlers: an array of one object of texts, a truth value, or any other value.
pub data Json : Type 0 where
  object : List (String × String) → Json
  boolean : Bool → Json
  json : Value → Json

pub data LegacyResponse : Type 0 where
  success : Option Json → LegacyResponse
  error : ℕ → Message → LegacyResponse
  uart_data : String → LegacyResponse

abbrev pub bad_request : String → LegacyResponse
bad_request msg = error 400 (text msg)

-- The status code of the HTTP response.
unfoldable pub status_code : LegacyResponse → ℕ
status_code (success _) = 200
status_code (error code _) = code
status_code (uart_data _) = 200

-- `From<Result<(), anyhow::Error>>`
abbrev pub from_result : Result Fault (Unit {0}) → LegacyResponse
from_result (ok _) = success none
from_result (err e) = error 500 (failed_to e)

-- A handler replies or panics.
pub data Reply : Type 0 where
  replied : LegacyResponse → Reply
  panicked : Reply

abbrev pub Handler : Type 0
Handler = App → Reply × App

abbrev pub reply : LegacyResponse → Handler
reply r a = (replied r, a)

abbrev pub run : Cmd (Unit {0}) → Handler
run m a = (replied (from_result (m a).0), (m a).1)

unfoldable pub get_node_param : Query → Result LegacyResponse NodeId
get_node_param query =
    ok_or (lookup "node" query) (bad_request "Missing `node` parameter") >>= λ node_str.
    ok_or (parse_i32 node_str) (bad_request "Parameter `node` is not a number") >>= λ node_num.
    map_err (λ _. bad_request "Parameter `node` is out of range 0..3 of node IDs")
      (try_from_i32 node_num)

-- The `?` operator in a handler.
abbrev pub or_refuse {ℓ} : {A : Type ℓ} → Result LegacyResponse A → (A → Handler) → Handler
or_refuse (err r) f = reply r
or_refuse (ok x) f = f x
