-- ===== src/Api/Routes.antt =====
-- The routes of the resource at the root of the API, in bmcd/src/api/legacy.rs, and the body of a
-- response, in api/into_legacy_response.rs.
use Prim.Native.Char.{code}
use Prim.Native.String.{String}
use tpi_bmcd.Base.{ℕ, ◌&&◌, ◌||◌, Bool, false, if◌then◌else◌, Option, none, some}
use tpi_bmcd.Base.Text.{contains}
use tpi_bmcd.Api.{LegacyResponse, success, error, uart_data, Message, Json}

pub data Method : Type 0 where
  get post other_method : Method

-- `none` is a request without a query.
abbrev guarded : String → (String → Bool) → Option String → Bool
guarded opt types none = false
guarded opt types (some query) = contains query opt && types query

abbrev flash_types : String → Bool
flash_types query = contains query "type=flash" || contains query "type=firmware"

abbrev pub flash_status_guard : Option String → Bool
flash_status_guard = guarded "opt=get" flash_types

abbrev pub flash_guard : Option String → Bool
flash_guard = guarded "opt=set" flash_types

abbrev pub set_node_info_guard : Option String → Bool
set_node_info_guard = guarded "opt=set" (λ query. contains query "type=node_info")

pub data Route : Type 0 where
  handle_flash_status handle_transfer_request set_node_aux_info api_entry : Route

-- The first route whose method and guard fit; `none` is the answer 405 of actix.
unfoldable pub route : Method → Option String → Option Route
route get query = some (
    if flash_status_guard query
    then handle_flash_status
    else if flash_guard query
    then handle_transfer_request
    else api_entry)
route post query = if set_node_info_guard query then some set_node_aux_info else none
route other_method query = none

-- What stands behind the key of the JSON body: the body itself, or a text.
pub data Body : Type 0 where
  result_json : Json → Body
  result_ok : Body
  result_message : Message → Body
  uart_text : String → Body

-- `From<LegacyResponse> for HttpResponse`: the status and the body.
unfoldable pub http_response : LegacyResponse → ℕ × Body
http_response (success none) = (200, result_ok)
http_response (success (some body)) = (200, result_json body)
http_response (uart_data d) = (200, uart_text d)
http_response (error code msg) = (code, result_message msg)
