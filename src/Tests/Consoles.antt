-- ===== src/Tests/Consoles.antt =====
-- A console that prints, and a client that falls silent.
use tpi_bmcd.Base.{
  ℕ, ◌+◌, ◌≡◌, ◌≢◌, refl, false, none, some, List, [], ◌∷◌, ◌++◌, ok, arith, length,
}
use tpi_bmcd.App.State.{modify_at}
use tpi_bmcd.App.Button.{key_1, key_power, Input, key, time_up, Buttons, take_inputs}
use tpi_bmcd.App.Button.Laws.{requests-take_inputs, owed}
use tpi_bmcd.Utils.Io.{Bytes}
use tpi_bmcd.Serial.Ring.{CircularBuffer, KeepsLast, last, output_buf_size}
use tpi_bmcd.Serial.Handler.{
  Event, call_run, wakeup, port_data, new_handler, read_whole_buffer, run, step, steps, work,
  get_state,
}
use tpi_bmcd.Serial.Handler.Laws.{read_whole_buffer-steps}
use tpi_bmcd.Serial.Console.{
  Wire, TaskResult, command, tick, console_data, text_message, pong_message, run_websocket, serve,
  handle_task, message_stream_handler, handle_command, verify_heartbeat, send, say,
}
use tpi_bmcd.Serial.Console.Laws.{
  console_side, client_side, run_websocket-transparent, run_websocket-ends,
}

abbrev list_buffer : CircularBuffer
list_buffer = record {
  Buffer = Bytes;
  boxed = [];
  write = λ b bytes. some (last output_buf_size (b ++ bytes));
  contents = λ b. b;
}

list_buffer-KeepsLast : KeepsLast list_buffer
list_buffer-KeepsLast = record { contents-boxed = refl; contents-write = λ b bytes. refl }

abbrev hello : List (Event list_buffer)
hello =
    call_run none
    ∷ wakeup 0 (port_data (104 ∷ 101 ∷ []) false)
    ∷ wakeup 0 (port_data (121 ∷ []) false)
    ∷ []

read_whole_buffer-steps_example :
    read_whole_buffer list_buffer (steps list_buffer hello (new_handler list_buffer))
    ≡ ok (104 ∷ 101 ∷ 121 ∷ [])
unfolding get_state steps step run work new_handler modify_at
read_whole_buffer-steps_example = read_whole_buffer-steps list_buffer list_buffer-KeepsLast hello

abbrev sound_wire : Wire
sound_wire = record {
  sink_error = λ out. none;
  session_closed = λ out. false;
  closed_text = "Closed";
}

abbrev talk : List (ℕ × TaskResult)
talk =
    (1000, command (ok (text_message (108 ∷ 115 ∷ []))))
    ∷ (1010, console_data (ok (46 ∷ [])))
    ∷ (5000, tick)
    ∷ (5100, command (ok (pong_message [])))
    ∷ []

run_websocket-transparent_example :
    let s = (run_websocket sound_wire 0 talk).1 in
    (console_side s.outputs ≡ (108 ∷ 115 ∷ []) ∷ []) × (client_side s.outputs ≡ (46 ∷ []) ∷ [])
unfolding run_websocket serve handle_task message_stream_handler handle_command verify_heartbeat
    send say
run_websocket-transparent_example = run_websocket-transparent sound_wire 0 talk refl

run_websocket-ends_example : (run_websocket sound_wire 0 (talk ++ ((40000, tick) ∷ []))).0 ≢ none
run_websocket-ends_example = run_websocket-ends sound_wire 0 40000 talk [] (omega arith)

-- A short press, a long one, and the power button.
abbrev panel : List Input
panel =
    key key_1 1
    ∷ key key_1 0
    ∷ key key_1 1
    ∷ time_up
    ∷ key key_1 0
    ∷ key key_power 1
    ∷ key key_1 1
    ∷ []

abbrev untouched : Buttons
untouched = record { waiting = false; requests = [] }

requests-take_inputs_example :
    let b = take_inputs panel untouched in length b.requests + owed b.waiting ≡ 0 + 0 + 4
requests-take_inputs_example = requests-take_inputs panel untouched
