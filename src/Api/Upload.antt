-- ===== src/Api/Upload.antt =====
-- The upload handler of bmcd/src/api/legacy.rs.
pub mod Laws
use tpi_bmcd.Base.{
  ℕ, ◌+◌, ◌-◌, ◌%◌, ◌^◌, ◌==◌, Bool, true, false, if◌then◌else◌, String, Option, none, some, List,
  [], ◌∷◌, Result, ok, err,
}
use Prim.Native.String.{◌++◌}
use tpi_bmcd.Base.Results.{unwrap_or}
use tpi_bmcd.Stream.{
  Service, StreamingState, StreamingServiceError, wrong_state, io_error, handles_do_not_match,
  sender_taken, take_sender, cancel_all, try_get_error,
}
use tpi_bmcd.Api.{LegacyResponse, success, error, text, missing_bytes, bad_request}

-- The loop: each chunk has a length, and whether the worker still takes it. `none` is a chunk that
-- the worker no longer takes.
unfoldable pub send_chunks : List (ℕ × Bool) → ℕ → Option ℕ
send_chunks [] bytes_send = some bytes_send
send_chunks ((length, taken) ∷ chunks) bytes_send =
    let rest = send_chunks chunks ((bytes_send + length) % 2 ^ 64) in if taken then rest else none

-- `u64` subtraction, as it wraps in a release build.
abbrev pub missing : ℕ → ℕ → ℕ
missing size bytes_send = (size + 2 ^ 64 - bytes_send) % 2 ^ 64

-- `Display` of the errors.
unfoldable pub display : StreamingServiceError → String
display (wrong_state current expected) =
    "cannot execute command in current state. current=" ++ current ++ ", expected=" ++ expected
display handles_do_not_match = "unauthorized request for handle"
display io_error = "IO error"
display sender_taken =
    "cannot transfer bytes to worker. This is either because the transfer happens locally, or is already ongoing."

-- `From<StreamingServiceError>`
abbrev pub refusal : StreamingServiceError → LegacyResponse
refusal io_error = error 500 (text (display io_error))
refusal e = error 400 (text (display e))

abbrev pub Upload : Type 0
Upload = Result LegacyResponse (Unit {0}) × Service

-- After the loop; `later` is the service by then, and `seen` what the polls of the status see in five
-- seconds.
abbrev pub finish_upload : ℕ → List StreamingState → Option ℕ → Service → Upload
finish_upload size seen none later =
    (err (error 500 (text (unwrap_or (try_get_error seen) "transfer canceled"))), later)
finish_upload size seen (some bytes_send) later =
    if bytes_send == size
    then (ok tt, later)
    else (err (error 400 (missing_bytes (missing size bytes_send))), cancel_all later)

-- `field` is the first part of the form; `meanwhile` is what others do to the service during the
-- upload.
abbrev pub with_sender :
    Option (List (ℕ × Bool))
    → (Service → Service)
    → List StreamingState
    → Result StreamingServiceError (ℕ × ℕ) × Service
    → Upload
with_sender field meanwhile seen (err e, s) = (err (refusal e), s)
with_sender none meanwhile seen (ok _, s) = (err (bad_request "Multipart form invalid"), s)
with_sender (some chunks) meanwhile seen (ok (_, size), s) =
    finish_upload size seen (send_chunks chunks 0) (meanwhile s)

unfoldable pub handle_file_upload :
    ℕ → Option (List (ℕ × Bool)) → (Service → Service) → List StreamingState → Service → Upload
handle_file_upload handle field meanwhile seen s =
    with_sender field meanwhile seen (take_sender handle s)
