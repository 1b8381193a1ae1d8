-- ===== src/Stream.antt =====
-- bmcd/src/streaming_data_service.rs and transfer_context.rs: one transfer at a time. Every section
-- that holds the lock of the status is one function; `Stream/Steps` interleaves them.
pub mod Sender
pub mod Steps
pub mod Races
use tpi_bmcd.Base.{
  ℕ, ◌==◌, not, ◌||◌, Bool, true, false, if◌then◌else◌, String, Option, none, some, List, [], ◌∷◌,
  Result, ok, err,
}

-- `token` names the cancellation token that the context owns; `data_sender` is there until it is taken.
pub record TransferContext : Type 0 where
  pub id : ℕ
  pub process_name : String
  pub size : ℕ
  pub data_sender : Bool
  pub token : ℕ

pub data StreamingState : Type 0 where
  ready : StreamingState
  transferring : TransferContext → StreamingState
  done : ℕ → ℕ → StreamingState
  error : String → StreamingState

-- The service, with the tokens that have been cancelled.
pub record Service : Type 0 where
  pub status : StreamingState
  pub cancelled : List ℕ

abbrev pub mem : ℕ → List ℕ → Bool
mem k [] = false
mem k (x ∷ xs) = x == k || mem k xs

abbrev pub new : Service
new = record { status = ready; cancelled = [] }

-- `Drop` of `TransferContext` cancels its token.
unfoldable pub drop_state : StreamingState → List ℕ → List ℕ
drop_state (transferring ctx) tokens = ctx.token ∷ tokens
drop_state _ tokens = tokens

-- `*status = new_state`: the old state is dropped.
unfoldable pub assign : StreamingState → Service → Service
unfolding drop_state
assign new_state s = record { status = new_state; cancelled = drop_state s.status s.cancelled }

unfoldable pub cancel_all : Service → Service
unfolding assign
cancel_all s = assign (error "cancelled by user") s

-- The end of `request_transfer`, after the worker and the timer have been spawned.
unfoldable pub install : TransferContext → Service → Service
unfolding assign
install ctx s = assign (transferring ctx) s

-- What the timer of a request does when it fires.
unfoldable pub timeout : Service → Service
unfolding assign
timeout s = elim s.status [
  | transferring ctx ↦ if ctx.data_sender then assign (error "Send timeout") s else s
  | _ ↦ s
]

-- How a worker ended: after a time, or with an error.
pub data Outcome : Type 0 where
  finished : ℕ → Outcome
  failed : String → Outcome

-- The state that a worker wants, and whether it takes itself for cancelled. An outcome that is a
-- success is never taken for cancelled.
unfoldable pub verdict : Outcome → ℕ → ℕ → Service → StreamingState × Bool
verdict (finished duration) size token s = (done duration size, false)
verdict (failed message) size token s = (error message, mem token s.cancelled)

-- The end of the worker's task, under the lock.
unfoldable pub conclude : StreamingState × Bool → Service → Service
unfolding assign
conclude (new_state, was_cancelled) s = elim s.status [
  | transferring ctx ↦ if not was_cancelled then assign new_state s else s
  | _ ↦ s
]

pub data StreamingServiceError : Type 0 where
  wrong_state : String → String → StreamingServiceError
  io_error handles_do_not_match sender_taken : StreamingServiceError

-- `Display` of the state.
unfoldable pub state_name : StreamingState → String
state_name ready = "Ready"
state_name (transferring _) = "Transferring"
state_name (done _ _) = "Done"
state_name (error _) = "Error"

-- The taken sender is given by the token of its transfer, with the size.
unfoldable pub take_sender : ℕ → Service → Result StreamingServiceError (ℕ × ℕ) × Service
unfolding state_name
take_sender id s = elim s.status [
  | transferring ctx ↦
      if not (id == ctx.id)
      then (err handles_do_not_match, s)
      else if ctx.data_sender
      then (
        ok (ctx.token, ctx.size),
        record s { status = transferring (record ctx { data_sender = false }) },
      )
      else (err sender_taken, s)
  | other ↦ (err (wrong_state (state_name other) "Transferring"), s)
]

unfoldable pub error_message : StreamingState → Option String
error_message (error msg) = some msg
error_message _ = none

-- `try_get_error` polls the status until the time is up; `seen` is what the polls see.
unfoldable pub try_get_error : List StreamingState → Option String
try_get_error [] = none
try_get_error (status ∷ seen) = elim (error_message status) [
  | some msg ↦ some msg
  | none ↦ try_get_error seen
]
