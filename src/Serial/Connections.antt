-- ===== src/Serial/Connections.antt =====
-- bmcd/src/serial_service/serial.rs and serial_service.rs: the four consoles, and their handlers for
-- HTTP requests.
pub mod Laws
use Prim.Native.String.{◌++◌}
use tpi_bmcd.Base.{
  ℕ, zero, suc, ◌==◌, Bool, true, false, if◌then◌else◌, String, Option, none, some, List, [], ◌∷◌,
  map, length, get_elem?, Result, ok, err, str_eq,
}
use tpi_bmcd.Base.Results.{◌>>=◌}
use tpi_bmcd.Base.Assoc.{lookup, text_key}
use tpi_bmcd.Hal.{NodeId, to_u8}
use tpi_bmcd.App.State.{modify_at}
use tpi_bmcd.Utils.Io.{Bytes}
use tpi_bmcd.Serial.Ring.{CircularBuffer}
use tpi_bmcd.Serial.Handler.{
  Handler, HandlerState, SerialError, not_started, already_running, stopped, send_error,
  tokio_serial, Encoding, utf8, utf16, utf32, new_handler, get_state, read_as_string, write, run,
}
use tpi_bmcd.Api.{Query, LegacyResponse, error, text, bad_request, get_node_param}

-- The argument is what /sys/class/tty/ttyS3/device/of_node/device_type holds, if it can be read.
unfoldable pub get_serial_devices : Option String → List String
get_serial_devices device_type =
    if (elim device_type [ none ↦ false | some str ↦ str_eq str "uart3" ])
    then "/dev/ttyS2" ∷ "/dev/ttyS1" ∷ "/dev/ttyS4" ∷ "/dev/ttyS5" ∷ []
    else "/dev/ttyS1" ∷ "/dev/ttyS2" ∷ "/dev/ttyS3" ∷ "/dev/ttyS4" ∷ []

unfoldable pub get_encoding_param : Query → Result LegacyResponse Encoding
get_encoding_param query = elim (lookup "encoding" query) [
  | none ↦ ok utf8
  | some s ↦
      if str_eq s "utf8"
      then ok utf8
      else if str_eq s "utf16"
      then ok (utf16 true)
      else if str_eq s "utf16le"
      then ok (utf16 true)
      else if str_eq s "utf16be"
      then ok (utf16 false)
      else if str_eq s "utf32"
      then ok (utf32 true)
      else if str_eq s "utf32le"
      then ok (utf32 true)
      else if str_eq s "utf32be"
      then ok (utf32 false)
      else err (
          bad_request
            "Invalid `encoding` parameter. Expected: utf8, utf16, utf16le, utf16be, utf32, utf32le, utf32be.")
]

module _ (r : CircularBuffer) where
  -- `none` is success.
  abbrev pub Ports : Type 0
  Ports = String → Option ℕ

  -- A handler that could not be started is kept too.
  abbrev started : Ports → String → Handler r
  started ports path = (run r (ports path) (new_handler r)).1

  unfoldable pub new_connections : Ports → Option String → List (Handler r)
  new_connections ports device_type = map (started ports) (get_serial_devices device_type)

  unfoldable pub get_states : List (Handler r) → List HandlerState
  get_states handlers = map (get_state r) handlers

  -- `serials[node]`; `none` is a panic.
  unfoldable pub index : List (Handler r) → NodeId → Option (Handler r)
  index handlers node = if length handlers == 4 then get_elem? handlers (to_u8 node) else none

  -- The message of an error; `describe` gives those of the serial port and of tokio's queue (`none`).
  abbrev message : (Option ℕ → String) → SerialError → String
  message describe not_started = "serial worker not started"
  message describe already_running = "already running"
  message describe stopped = "Stopped"
  message describe send_error = describe none
  message describe (tokio_serial e) = describe (some e)

  module _ (describe : Option ℕ → String) where
    -- `From<SerialError>`
    abbrev refused : SerialError → LegacyResponse
    refused e = error 500 (text (message describe e))

    abbrev stored :
        NodeId
        → List (Handler r)
        → Result SerialError (Unit {0}) × Handler r
        → Option (Result LegacyResponse (Unit {0})) × List (Handler r)
    stored node handlers (err e, h) =
        (some (err (refused e)), modify_at (to_u8 node) (λ _. h) handlers)
    stored node handlers (ok tt, h) = (some (ok tt), modify_at (to_u8 node) (λ _. h) handlers)

    -- `encode` gives the bytes of a text. `none` is a panic.
    unfoldable pub legacy_serial_set_handler :
        (String → Bytes)
        → Query
        → List (Handler r)
        → Option (Result LegacyResponse (Unit {0})) × List (Handler r)
    legacy_serial_set_handler encode query handlers = elim (get_node_param query) [
      | err e ↦ (some (err e), handlers)
      | ok node ↦ elim (lookup "cmd" query) [
        | none ↦ (some (err (bad_request "Missing `cmd` parameter")), handlers)
        | some cmd ↦ elim (index handlers node) [
          | none ↦ (none, handlers)
          | some h ↦ stored node handlers (write r (encode (cmd ++ "\r\n")) h)
        ]
      ]
    ]

    abbrev uart_data : Result SerialError (List ℕ) → Result LegacyResponse (List ℕ)
    uart_data (ok s) = ok s
    uart_data (err e) = err (refused e)

    -- What a success gives is the text of `UartData`.
    unfoldable pub legacy_serial_get_handler :
        (Bytes → List ℕ) → Query → List (Handler r) → Option (Result LegacyResponse (List ℕ))
    legacy_serial_get_handler from_utf8_lossy query handlers = elim (get_node_param query) [
      | err e ↦ some (err e)
      | ok node ↦ elim (get_encoding_param query) [
        | err e ↦ some (err e)
        | ok encoding ↦ elim (index handlers node) [
          | none ↦ none
          | some h ↦ some (uart_data (read_as_string r from_utf8_lossy encoding h))
        ]
      ]
    ]
