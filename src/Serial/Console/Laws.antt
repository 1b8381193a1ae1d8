-- ===== src/Serial/Console/Laws.antt =====
-- What the loop passes on, and when it ends.
use tpi_bmcd.Base.{
  ℕ, ◌+◌, ◌<◌, ◌≡◌, ◌≢◌, refl, sym, none, List, [], ◌∷◌, ◌++◌, ok, err, arith, inl, inr,
  append_assoc, append-nil,
}
use tpi_bmcd.Base.Results.{Result-cases}
use tpi_bmcd.Utils.Io.{Bytes}
use tpi_bmcd.Serial.Console.{
  Wire, Websocket, Output, to_console, to_client, text_message, binary_message, ping_message,
  pong_message, continuation_message, close_message, nop_message, TaskResult, command, tick,
  console_data, end_of_stream, client_timeout, send, say, message_stream_handler, verify_heartbeat,
  handle_command, handle_task, serve, run_websocket,
}

-- The bytes that a client's message has for the console.
abbrev typed_by : TaskResult → List Bytes
typed_by (command (ok (text_message bytes))) = bytes ∷ []
typed_by (command (ok (binary_message bytes))) = bytes ∷ []
typed_by _ = []

abbrev pub typed : List (ℕ × TaskResult) → List Bytes
typed [] = []
typed ((now, task) ∷ tasks) = typed_by task ++ typed tasks

-- And the bytes that the console has for the client.
abbrev printed_by : TaskResult → List Bytes
printed_by (console_data (ok bytes)) = bytes ∷ []
printed_by _ = []

abbrev pub printed : List (ℕ × TaskResult) → List Bytes
printed [] = []
printed ((now, task) ∷ tasks) = printed_by task ++ printed tasks

abbrev pub console_side : List Output → List Bytes
console_side [] = []
console_side (to_console bytes ∷ out) = console_side out ++ (bytes ∷ [])
console_side (_ ∷ out) = console_side out

abbrev pub client_side : List Output → List Bytes
client_side [] = []
client_side (to_client bytes ∷ out) = client_side out ++ (bytes ∷ [])
client_side (_ ∷ out) = client_side out

-- The moment of the last ping or pong.
abbrev beat_of : ℕ → ℕ → TaskResult → ℕ
beat_of t now (command (ok (ping_message bytes))) = now
beat_of t now (command (ok (pong_message bytes))) = now
beat_of t now _ = t

abbrev pub last_beat : ℕ → List (ℕ × TaskResult) → ℕ
last_beat t [] = t
last_beat t ((now, task) ∷ tasks) = last_beat (beat_of t now task) tasks

module _ (wire : Wire) where
  one_task :
      (now : ℕ) (task : TaskResult) (s : Websocket)
      → (handle_task wire now task s).0 ≡ ok tt
      → let s' = (handle_task wire now task s).1 in
        (console_side s'.outputs ≡ console_side s.outputs ++ typed_by task)
        × (client_side s'.outputs ≡ client_side s.outputs ++ printed_by task)
        × (s'.last_heartbeat ≡ beat_of s.last_heartbeat now task)
  unfolding handle_task message_stream_handler send say verify_heartbeat handle_command
  one_task now tick s e =
      ground (arith, append-nil (console_side s.outputs), append-nil (client_side s.outputs))
  one_task now end_of_stream s e = absurd (ground arith)
  one_task now (console_data (ok bytes)) s e = ground (arith, append-nil (console_side s.outputs))
  one_task now (console_data (err x)) s e = absurd (ground arith)
  one_task now (command (err x)) s e = absurd (ground arith)
  one_task now (command (ok (text_message bytes))) s e =
      ground (arith, append-nil (client_side s.outputs))
  one_task now (command (ok (binary_message bytes))) s e =
      ground (arith, append-nil (client_side s.outputs))
  one_task now (command (ok (ping_message bytes))) s e =
      ground (arith, append-nil (console_side s.outputs), append-nil (client_side s.outputs))
  one_task now (command (ok (pong_message bytes))) s e =
      ground (arith, append-nil (console_side s.outputs), append-nil (client_side s.outputs))
  one_task now (command (ok (continuation_message bytes))) s e = absurd (ground arith)
  one_task now (command (ok (close_message reason))) s e = absurd (ground arith)
  one_task now (command (ok nop_message)) s e =
      ground (arith, append-nil (console_side s.outputs), append-nil (client_side s.outputs))

  serve-next :
      (now : ℕ) (task : TaskResult) (tasks : List (ℕ × TaskResult)) (s : Websocket)
      → (handle_task wire now task s).0 ≡ ok tt
      → serve wire ((now, task) ∷ tasks) s ≡ serve wire tasks (handle_task wire now task s).1
  unfolding serve
  serve-next now task tasks s e = rw (serve, e) refl

  passed_on :
      (tasks : List (ℕ × TaskResult)) (s : Websocket)
      → (serve wire tasks s).0 ≡ none
      → let s' = (serve wire tasks s).1 in
        (console_side s'.outputs ≡ console_side s.outputs ++ typed tasks)
        × (client_side s'.outputs ≡ client_side s.outputs ++ printed tasks)
        × (s'.last_heartbeat ≡ last_beat s.last_heartbeat tasks)
  unfolding serve
  passed_on [] s e = (sym (append-nil _), sym (append-nil _), refl)
  passed_on ((now, task) ∷ tasks) s e = elim (Result-cases (handle_task wire now task s).0) [
    | inl (u, p) ↦
        let (a, b, c) = one_task now task s p in
        let s' = (handle_task wire now task s).1 in
        let next = serve-next now task tasks s p in
        let still : (serve wire tasks s').0 ≡ none = rw next at e in
        let (x, y, z) = passed_on tasks s' still in
        rw (next, x, y, z, a, b, c)
          (
            append_assoc (console_side s.outputs) (typed_by task) (typed tasks),
            append_assoc (client_side s.outputs) (printed_by task) (printed tasks),
            refl,
          )
    | inr (reason, p) ↦ absurd (ground arith)
  ]

  -- As long as the loop goes on, the console has been sent what the client has typed and the client what
  -- the console has printed, each in order and complete.
  pub run_websocket-transparent :
      (start : ℕ) (tasks : List (ℕ × TaskResult))
      → (run_websocket wire start tasks).0 ≡ none
      → let s = (run_websocket wire start tasks).1 in
        (console_side s.outputs ≡ typed tasks) × (client_side s.outputs ≡ printed tasks)
  unfolding run_websocket
  run_websocket-transparent start tasks e =
      let (x, y, z) =
        passed_on tasks (record { last_heartbeat = start; outputs = [] }) (ground arith) in
      ground arith

  silent_client :
      (tasks more : List (ℕ × TaskResult)) (now : ℕ) (s : Websocket)
      → last_beat s.last_heartbeat tasks + client_timeout < now
      → (serve wire (tasks ++ ((now, tick) ∷ more)) s).0 ≢ none
  unfolding serve verify_heartbeat handle_task
  silent_client [] more now s late = ground arith
  silent_client ((at, task) ∷ tasks) more now s late =
      elim (Result-cases (handle_task wire at task s).0) [
        | inl (u, p) ↦
            let beat = (one_task at task s p).2 in
            let s' = (handle_task wire at task s).1 in
            rw (serve-next at task (tasks ++ ((now, tick) ∷ more)) s p)
              (silent_client tasks more now s' (rw beat late))
        | inr (reason, p) ↦ ground arith
      ]

  -- Whatever else happens, the loop has ended by the first tick that comes more than 30 seconds after
  -- the last ping or pong, or after the start if there was none.
  pub run_websocket-ends :
      (start now : ℕ) (tasks more : List (ℕ × TaskResult))
      → last_beat start tasks + client_timeout < now
      → (run_websocket wire start (tasks ++ ((now, tick) ∷ more))).0 ≢ none
  unfolding run_websocket
  run_websocket-ends start now tasks more late =
      let start' : Websocket = record { last_heartbeat = start; outputs = [] } in
      let ended = silent_client tasks more now start' late in ground arith
