-- ===== src/Serial/Console.antt =====
-- bmcd/src/serial_service/serial_websocket.rs: the loop between a client's websocket and a console.
pub mod Laws
use tpi_bmcd.Base.{
  ℕ, ◌+◌, ◌-◌, ltb, Bool, true, false, if◌then◌else◌, String, Option, none, some, List, [], ◌∷◌,
  Result, ok, err,
}
use tpi_bmcd.Base.Exec.{Exec, pure, raise, gets, modify, ◌>>=◌, ◌>>◌}
use tpi_bmcd.Base.Results.{unwrap_or}
use tpi_bmcd.Utils.Io.{Bytes}

-- In milliseconds.
abbrev pub client_timeout : ℕ
client_timeout = 30000

-- Of actix's codes, those that the daemon uses, and those that a client may give.
pub data CloseCode : Type 0 where
  normal_code error_code protocol_code unsupported_code : CloseCode
  other_code : ℕ → CloseCode

pub record CloseReason : Type 0 where
  pub code : CloseCode
  pub description : Option String

pub data Message : Type 0 where
  text_message binary_message ping_message pong_message continuation_message : Bytes → Message
  close_message : Option CloseReason → Message
  nop_message : Message

-- What the `select!` yields. A protocol or I/O error is its text.
pub data TaskResult : Type 0 where
  command : Result String Message → TaskResult
  tick : TaskResult
  console_data : Result String Bytes → TaskResult
  end_of_stream : TaskResult

-- What goes out, to the console or over the session.
pub data Output : Type 0 where
  to_console to_client pong : Bytes → Output
  ping flush : Output
  close : CloseReason → Output

-- The newest output first.
pub record Websocket : Type 0 where
  pub last_heartbeat : ℕ
  pub outputs : List Output

-- How the sink answers (`none` is success), whether the session is closed by then, and the text that
-- actix has for a closed session.
pub record Wire : Type 0 where
  pub sink_error : List Output → Option String
  pub session_closed : List Output → Bool
  pub closed_text : String

abbrev pub Task : Type 0
Task = Exec Websocket CloseReason (Unit {0})

abbrev map_io_error : String → CloseReason
map_io_error e = record { code = error_code; description = some e }

module _ (wire : Wire) where
  abbrev map_normal_close : CloseReason
  map_normal_close = record { code = normal_code; description = some wire.closed_text }

  abbrev sink_answer : Option String → Result CloseReason (Unit {0})
  sink_answer none = ok tt
  sink_answer (some e) = err (map_io_error e)

  -- `serial_sink.send(bytes).await.map_err(map_io_error)`
  unfoldable pub send : Bytes → Task
  send bytes s =
      (sink_answer (wire.sink_error s.outputs), record s { outputs = to_console bytes ∷ s.outputs })

  -- A call of the session with `map_normal_close`.
  unfoldable pub say : Output → Task
  say out s = (
    if wire.session_closed s.outputs then err map_normal_close else ok tt,
    record s { outputs = out ∷ s.outputs },
  )

  abbrev beat : ℕ → Task
  beat now = modify (λ (s : Websocket). record s { last_heartbeat = now })

  -- Here `now` is the moment of the call.
  unfoldable pub message_stream_handler : ℕ → Result String Message → Task
  message_stream_handler now (err e) = raise (record { code = protocol_code; description = some e })
  message_stream_handler now (ok (text_message bytes)) = send bytes
  message_stream_handler now (ok (binary_message bytes)) = send bytes
  message_stream_handler now (ok (continuation_message bytes)) = raise (record {
    code = unsupported_code;
    description = some "Continuation frames are not supported";
  })
  message_stream_handler now (ok (ping_message bytes)) = do beat now; say (pong bytes)
  message_stream_handler now (ok (pong_message bytes)) = beat now
  message_stream_handler now (ok (close_message reason)) = raise (unwrap_or reason map_normal_close)
  message_stream_handler now (ok nop_message) = pure tt

  -- `duration_since` saturates; a failed ping is logged.
  unfoldable pub verify_heartbeat : ℕ → Task
  verify_heartbeat now s =
      if ltb client_timeout (now - s.last_heartbeat)
      then (
        err (record {
          code = error_code;
          description = some "client has not sent heartbeat in over 30s; disconnecting";
        }),
        s,
      )
      else (ok tt, record s { outputs = ping ∷ s.outputs })

  unfoldable pub handle_command : Result String Bytes → Task
  handle_command (err e) = raise (map_io_error e)
  handle_command (ok bytes) = say (to_client bytes)

  unfoldable pub handle_task : ℕ → TaskResult → Task
  handle_task now (command msg) = message_stream_handler now msg
  handle_task now tick = verify_heartbeat now
  handle_task now (console_data result) = handle_command result
  handle_task now end_of_stream =
      raise (record { code = normal_code; description = some "websocket channel closed" })

  -- The loop over what the `select!`s yield, each with its moment; the reason is there once the loop has
  -- ended.
  unfoldable pub serve : List (ℕ × TaskResult) → Websocket → Option CloseReason × Websocket
  serve [] s = (none, s)
  serve ((now, task) ∷ tasks) s =
      let (answer, s') = handle_task now task s in
      let rest = serve tasks s' in elim answer [ ok _ ↦ rest | err reason ↦ (some reason, s') ]

  -- Errors of the flush and of the close are logged.
  abbrev finish : Option CloseReason × Websocket → Option CloseReason × Websocket
  finish (none, s) = (none, s)
  finish (some reason, s) = (some reason, record s { outputs = close reason ∷ flush ∷ s.outputs })

  unfoldable pub run_websocket : ℕ → List (ℕ × TaskResult) → Option CloseReason × Websocket
  run_websocket start tasks = finish (serve tasks (record { last_heartbeat = start; outputs = [] }))
