-- ===== src/Stream/Sender.antt =====
-- A sender is handed out once, and only for the handle of the running transfer.
use tpi_bmcd.Base.{ℕ, ◌≡◌, ◌==◌, ◌&&◌, Bool, false, is_ok, arith}
use tpi_bmcd.Stream.{Service, StreamingState, transferring, take_sender}

-- The running transfer that a handle may still send to.
abbrev pub open_for : ℕ → StreamingState → Bool
open_for id (transferring ctx) = id == ctx.id && ctx.data_sender
open_for id _ = false

-- A handle gets the sender exactly if the running transfer is its own and has not given it away. A
-- second try with any handle then fails, and neither call changes what is cancelled.
take_sender_once :
    (id again : ℕ) (s : Service)
    → let (r, s') = take_sender id s in
      (is_ok r ≡ open_for id s.status)
      × (is_ok r && is_ok (take_sender again s').0 ≡ false)
      × (s'.cancelled ≡ s.cancelled)
unfolding take_sender
take_sender_once id again s = ground arith
