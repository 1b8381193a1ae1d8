-- ===== src/Serial/Handler.antt =====
-- bmcd/src/serial_service/serial_handler.rs: a console's worker, its channels and its state.
pub mod Laws
use tpi_bmcd.Base.{
  ℕ, zero, suc, ◌+◌, ◌-◌, ◌==◌, ltb, not, ◌&&◌, ◌||◌, Bool, true, false, if◌then◌else◌, Option,
  none, some, List, [], ◌∷◌, ◌++◌, length, get_elem?, Result, ok, err,
}
use tpi_bmcd.App.State.{modify_at}
use tpi_bmcd.Utils.Io.{Bytes}
use tpi_bmcd.Utils.Utf.{string_from_utf16, string_from_utf32}
use tpi_bmcd.Serial.Ring.{CircularBuffer}

-- `send_error` is a closed queue, `tokio_serial` an error of the port; `IoError` is never made.
pub data SerialError : Type 0 where
  not_started already_running stopped send_error : SerialError
  tokio_serial : ℕ → SerialError

-- `halted` is the source's `Stopped`.
pub data HandlerState : Type 0 where
  initialized running halted : HandlerState

pub data Encoding : Type 0 where
  utf8 : Encoding
  utf16 utf32 : Bool → Encoding

-- What one successful `run` makes: the queue to the worker with the sinks that clients hold, the
-- clients that listen, what the worker has sent to the port and to the listeners, and whether it runs.
pub record Channel : Type 0 where
  pub sinks : ℕ
  pub listeners : ℕ
  pub queue : List Bytes
  pub sent : List Bytes
  pub heard : List Bytes
  pub alive : Bool

-- A handler, without the settings of its port, with all channels that it has made; `worker_context` and `writer` name one of them.
pub record Handler (r : CircularBuffer) : Type 0 where
  pub ring_buffer : r.Buffer
  pub worker_context : Option ℕ
  pub writer : Option ℕ
  pub channels : List Channel

abbrev pub fresh : Channel
fresh = record { sinks = 0; listeners = 0; queue = []; sent = []; heard = []; alive = true }

-- A name that no channel has stands for a worker that has ended.
abbrev pub is_alive : Option Channel → Bool
is_alive none = false
is_alive (some ch) = ch.alive

abbrev pub owns : Option ℕ → ℕ → Bool
owns none k = false
owns (some j) k = j == k

-- Whether a strong sender is left: a client's, or the one of the context.
abbrev pub has_sender : Option ℕ → ℕ → Option Channel → Bool
has_sender context k none = false
has_sender context k (some ch) = owns context k || ltb 0 ch.sinks

module _ (r : CircularBuffer) where
  abbrev pub channel : Handler r → ℕ → Option Channel
  channel h k = get_elem? h.channels k

  abbrev pub at : ℕ → (Channel → Channel) → Handler r → Handler r
  at k f h = record h { channels = modify_at k f h.channels }

  unfoldable pub new_handler : Handler r
  new_handler = record {
    ring_buffer = r.boxed;
    worker_context = none;
    writer = none;
    channels = [];
  }

  -- `sender.is_closed()`: the receiver is gone with the worker.
  unfoldable pub get_state : Handler r → HandlerState
  get_state h = elim h.worker_context [
    | none ↦ initialized
    | some k ↦ if is_alive (channel h k) then running else halted
  ]

  -- The channel that the client now sends to and hears.
  unfoldable pub open_channel : Handler r → Result SerialError ℕ × Handler r
  open_channel h = elim h.worker_context [
    | none ↦ (err not_started, h)
    | some k ↦
        (ok k, at k (λ ch. record ch { sinks = ch.sinks + 1; listeners = ch.listeners + 1 }) h)
  ]

  unfoldable pub read_whole_buffer : Handler r → Result SerialError Bytes
  read_whole_buffer h = elim h.worker_context [
    | none ↦ err not_started
    | some _ ↦ ok (r.contents h.ring_buffer)
  ]

  abbrev decoded : (Bytes → List ℕ) → Encoding → Bytes → List ℕ
  decoded from_utf8_lossy utf8 bytes = from_utf8_lossy bytes
  decoded from_utf8_lossy (utf16 little_endian) bytes = string_from_utf16 bytes little_endian
  decoded from_utf8_lossy (utf32 little_endian) bytes = string_from_utf32 bytes little_endian

  -- The first argument is `String::from_utf8_lossy`.
  unfoldable pub read_as_string :
      (Bytes → List ℕ) → Encoding → Handler r → Result SerialError (List ℕ)
  read_as_string from_utf8_lossy encoding h = elim (read_whole_buffer h) [
    | err e ↦ err e
    | ok bytes ↦ ok (decoded from_utf8_lossy encoding bytes)
  ]

  -- The call when the queue has room for it; before, it waits.
  unfoldable pub write : Bytes → Handler r → Result SerialError (Unit {0}) × Handler r
  write bytes h = elim h.writer [
    | none ↦ (err not_started, h)
    | some k ↦
        if not (has_sender h.worker_context k (channel h k))
        then (err stopped, h)
        else if is_alive (channel h k)
        then (ok tt, at k (λ ch. record ch { queue = ch.queue ++ (bytes ∷ []) }) h)
        else (err send_error, h)
  ]

  abbrev start : Option ℕ → Handler r → Result SerialError (Unit {0}) × Handler r
  start (some e) h = (err (tokio_serial e), h)
  start none h =
      let k = length h.channels in
      (
        ok tt,
        record h {
          worker_context = some k;
          writer = some k;
          channels = h.channels ++ (fresh ∷ []);
        },
      )

  -- The first argument is the error of opening the port, if there is one. The context is taken before it
  -- is looked at.
  unfoldable pub run : Option ℕ → Handler r → Result SerialError (Unit {0}) × Handler r
  run port h = elim h.worker_context [
    | some _ ↦ (err already_running, record h { worker_context = none })
    | none ↦ start port h
  ]

  -- What the `select!` of a worker wakes up for. `received` is the next of the queue, and whether the
  -- port takes it; `disconnected` is an empty queue without senders; `data` comes from the port, while
  -- `late` tells that the last listener leaves just before the broadcast.
  pub data Wakeup : Type 0 where
    received : Bool → Wakeup
    disconnected stream_end stream_error : Wakeup
    port_data : Bytes → Bool → Wakeup

  abbrev forward : Bool → List Bytes → Channel → Channel
  forward port_ok [] ch = ch
  forward port_ok (next ∷ rest) ch = record ch {
    queue = rest;
    sent = if port_ok then ch.sent ++ (next ∷ []) else ch.sent;
  }

  -- The receiver and what it has not taken go with the worker.
  abbrev stop : Channel → Channel
  stop ch = record ch { alive = false; queue = [] }

  abbrev broadcast : Bytes → Bool → Channel → Channel
  broadcast bytes late ch =
      if ltb 0 ch.listeners
      then (if late
          then record (stop ch) { listeners = 0 }
          else record ch { heard = ch.heard ++ (bytes ∷ []) })
      else ch

  abbrev stored : ℕ → Bytes → Bool → Option r.Buffer → Handler r → Handler r
  stored k bytes late none h = at k stop h
  stored k bytes late (some buffer) h =
      at k (broadcast bytes late) (record h { ring_buffer = buffer })

  abbrev is_empty : List Bytes → Bool
  is_empty [] = true
  is_empty (x ∷ xs) = false

  -- One round of the loop of the worker of channel `k`.
  unfoldable pub work : ℕ → Wakeup → Channel → Handler r → Handler r
  work k (received port_ok) ch h = at k (forward port_ok ch.queue) h
  work k disconnected ch h =
      if is_empty ch.queue && not (has_sender h.worker_context k (some ch)) then at k stop h else h
  work k stream_end ch h = at k stop h
  work k stream_error ch h = at k stop h
  work k (port_data bytes late) ch h = stored k bytes late (r.write h.ring_buffer bytes) h

  -- What happens to a handler, in any order: calls, clients that leave, and rounds of workers.
  pub data Event : Type 0 where
    call_run : Option ℕ → Event
    call_open : Event
    call_write : Bytes → Event
    sink_dropped listener_dropped : ℕ → Event
    wakeup : ℕ → Wakeup → Event

  abbrev round : ℕ → Wakeup → Option Channel → Handler r → Handler r
  round k w none h = h
  round k w (some ch) h = if ch.alive then work k w ch h else h

  unfoldable pub step : Event → Handler r → Handler r
  step (call_run port) h = (run port h).1
  step call_open h = (open_channel h).1
  step (call_write bytes) h = (write bytes h).1
  step (sink_dropped k) h = at k (λ ch. record ch { sinks = ch.sinks - 1 }) h
  step (listener_dropped k) h = at k (λ ch. record ch { listeners = ch.listeners - 1 }) h
  step (wakeup k w) h = round k w (channel h k) h

  unfoldable pub steps : List Event → Handler r → Handler r
  steps [] h = h
  steps (e ∷ es) h = steps es (step e h)
