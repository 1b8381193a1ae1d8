-- ===== src/Serial/Handler/Laws.antt =====
-- What a handler shows of its console, and what its calls answer.
use tpi_bmcd.Base.{
  ℕ, zero, suc, ◌<◌, ◌≡◌, ◌∙◌, refl, ap, Bool, true, false, if◌then◌else◌, Option, none, some, List,
  [], ◌∷◌, ◌++◌, length, get_elem?, ok, err, arith, append-nil, append_assoc, length-append,
}
use mathlib.Core.Option
use tpi_bmcd.App.State.{modify_at}
use tpi_bmcd.App.Slots.Times.{get_elem?-modify_at}
use tpi_bmcd.Utils.Io.{Bytes}
use tpi_bmcd.Serial.Ring.{CircularBuffer, KeepsLast, last, last-last, output_buf_size}
use tpi_bmcd.Serial.Handler.{
  not_started, already_running, stopped, send_error, HandlerState, initialized, Channel, Handler,
  fresh, received, disconnected, stream_end, stream_error, port_data, Event, call_run, call_open,
  call_write, sink_dropped, listener_dropped, wakeup, new_handler, get_state, open_channel,
  read_whole_buffer, write, run, work, step, steps, is_alive, channel,
}

module _ (r : CircularBuffer) where
  -- The bytes that an event brings from the port to a worker that runs.
  abbrev pub arrived : Event r → Handler r → Bytes
  arrived (wakeup k (port_data bytes late)) h = if is_alive (channel r h k) then bytes else []
  arrived _ h = []

  -- All bytes that came from the port, in order.
  abbrev pub arrivals : List (Event r) → Handler r → Bytes
  arrivals [] h = []
  arrivals (e ∷ es) h = arrived e h ++ arrivals es (step r e h)

  module _ (keeps : KeepsLast r) where
    -- A buffer that took more bytes after it held the last ones of a log.
    written :
        (b : r.Buffer) (o : Option r.Buffer) (log bs : Bytes)
        → r.contents b ≡ last output_buf_size log
        → Option.map r.contents o ≡ some (last output_buf_size (r.contents b ++ bs))
        → (b' : r.Buffer) × (o ≡ some b') × (r.contents b' ≡ last output_buf_size (log ++ bs))
    written b none log bs p q = absurd cc
    written b (some b') log bs p q =
        (b', refl, Option.some-injective _ _ q ∙ rw p (last-last output_buf_size log bs))

    contents-step :
        (e : Event r) (h : Handler r) (log : Bytes)
        → r.contents h.ring_buffer ≡ last output_buf_size log
        → r.contents (step r e h).ring_buffer ≡ last output_buf_size (log ++ arrived e h)
    unfolding step run open_channel write work
    contents-step (call_run port) h log p = rw (append-nil log) (ground arith)
    contents-step call_open h log p = rw (append-nil log) (ground arith)
    contents-step (call_write bytes) h log p = rw (append-nil log) (ground arith)
    contents-step (sink_dropped k) h log p = rw (append-nil log) p
    contents-step (listener_dropped k) h log p = rw (append-nil log) p
    contents-step (wakeup k (received b)) h log p = rw (append-nil log) (ground arith)
    contents-step (wakeup k disconnected) h log p = rw (append-nil log) (ground arith)
    contents-step (wakeup k stream_end) h log p = rw (append-nil log) (ground arith)
    contents-step (wakeup k stream_error) h log p = rw (append-nil log) (ground arith)
    contents-step (wakeup k (port_data bytes late)) h log p =
        let (b, took, holds) =
          written h.ring_buffer (r.write h.ring_buffer bytes) log bytes p
            (keeps.contents-write h.ring_buffer bytes) in
        ground (arith, append-nil log)

    contents-steps :
        (es : List (Event r)) (h : Handler r) (log : Bytes)
        → r.contents h.ring_buffer ≡ last output_buf_size log
        → r.contents (steps r es h).ring_buffer ≡ last output_buf_size (log ++ arrivals es h)
    unfolding steps
    contents-steps [] h log p = rw (append-nil log) p
    contents-steps (e ∷ es) h log p =
        contents-steps es (step r e h) (log ++ arrived e h) (contents-step e h log p)
        ∙ ap (last output_buf_size) (append_assoc log (arrived e h) (arrivals es (step r e h)))

    abbrev pub is_initialized : HandlerState → Bool
    is_initialized initialized = true
    is_initialized _ = false

    -- After any calls, wake-ups and departures of clients, in any order, a handler that is not in the
    -- initial state shows the last 16384 of all bytes that its workers got from the port, in the order
    -- in which they came; in the initial state it refuses.
    pub read_whole_buffer-steps :
        (es : List (Event r))
        → let h = steps r es (new_handler r) in
          read_whole_buffer r h ≡ (
            if is_initialized (get_state r h)
            then err not_started
            else ok (last output_buf_size (arrivals es (new_handler r))))
    unfolding new_handler read_whole_buffer get_state
    read_whole_buffer-steps es =
        ground (arith, contents-steps es (new_handler r) [] (rw keeps.contents-boxed refl))

  length-modify_at :
      (k : ℕ) (f : Channel → Channel) (chs : List Channel) → length (modify_at k f chs) ≡ length chs
  unfolding modify_at
  length-modify_at k f [] = refl
  length-modify_at zero f (ch ∷ chs) = refl
  length-modify_at (suc k) f (ch ∷ chs) = ap suc (length-modify_at k f chs)

  -- The context names the channel of the writer, and that channel was made.
  abbrev IsValid : Handler r → Type 0
  IsValid h = (k : ℕ) → h.worker_context ≡ some k → (h.writer ≡ some k) × (k < length h.channels)

  step-IsValid : (e : Event r) (h : Handler r) → IsValid h → IsValid (step r e h)
  unfolding step run open_channel write work
  step-IsValid (call_run port) h w k e = ground (arith, w k, length-append h.channels (fresh ∷ []))
  step-IsValid call_open h w k e = grind (arith, w k, length-modify_at)
  step-IsValid (call_write bytes) h w k e = grind (arith, w k, length-modify_at)
  step-IsValid (sink_dropped j) h w k e = rw (length-modify_at) (w k e)
  step-IsValid (listener_dropped j) h w k e = rw (length-modify_at) (w k e)
  step-IsValid (wakeup j (received b)) h w k e = grind (arith, w k, length-modify_at)
  step-IsValid (wakeup j disconnected) h w k e = grind (arith, w k, length-modify_at)
  step-IsValid (wakeup j stream_end) h w k e = grind (arith, w k, length-modify_at)
  step-IsValid (wakeup j stream_error) h w k e = grind (arith, w k, length-modify_at)
  step-IsValid (wakeup j (port_data bytes late)) h w k e = grind (arith, w k, length-modify_at)

  steps-IsValid : (es : List (Event r)) (h : Handler r) → IsValid h → IsValid (steps r es h)
  unfolding steps
  steps-IsValid [] h w = w
  steps-IsValid (e ∷ es) h w = steps-IsValid es (step r e h) (step-IsValid e h w)

  reached : (es : List (Event r)) → IsValid (steps r es (new_handler r))
  unfolding new_handler
  reached es = steps-IsValid es (new_handler r) (λ k e. absurd cc)

  entry :
      (k : ℕ) (chs : List Channel) → k < length chs → (ch : Channel) × (get_elem? chs k ≡ some ch)
  entry k [] h = absurd (omega arith)
  entry zero (ch ∷ chs) h = (ch, refl)
  entry (suc k) (ch ∷ chs) h = entry k chs (omega arith)

  -- Of a handler that is reached by any calls and events and that has been started: a write is queued
  -- while the worker runs, and once the worker has ended it is refused with a send error.
  write_started :
      (es : List (Event r)) (bytes : Bytes) (k : ℕ)
      → let h = steps r es (new_handler r) in
        h.worker_context ≡ some k
        → (write r bytes h).0 ≡ (if is_alive (channel r h k) then ok tt else err send_error)
  unfolding write
  write_started es bytes k e =
      let h = steps r es (new_handler r) in
      let (named, made) = reached es k e in
      let (ch, found) = entry k h.channels made in ground arith

  -- A second `run` of a running handler that no client is connected to answers that it is running, and
  -- ends it: nothing can be read any more, writes are refused as after a stop, and the worker leaves its
  -- loop at the next wake-up.
  pub run_again :
      (es : List (Event r)) (port : Option ℕ) (bytes : Bytes) (k : ℕ) (ch : Channel)
      → let h = steps r es (new_handler r) in
        h.worker_context ≡ some k
        → channel r h k ≡ some ch
        → ch.alive ≡ true
        → ch.sinks ≡ 0
        → ch.queue ≡ []
        → let (answer, h') = run r port h in
          (answer ≡ err already_running)
          × (read_whole_buffer r h' ≡ err not_started)
          × ((write r bytes h').0 ≡ err stopped)
          × (is_alive (channel r (step r (wakeup k disconnected) h') k) ≡ false)
  unfolding run read_whole_buffer write step work
  run_again es port bytes k ch e found alive sinks queue =
      let h = steps r es (new_handler r) in
      let (named, made) = reached es k e in
      (
        ground arith,
        ground arith,
        ground arith,
        ground (
          arith,
          get_elem?-modify_at k k (λ (c : Channel). record c { alive = false; queue = [] })
              h.channels,
        ),
      )
