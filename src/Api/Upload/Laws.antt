-- ===== src/Api/Upload/Laws.antt =====
-- When an upload is taken for complete.
use tpi_bmcd.Base.{
  ℕ, ◌+◌, ◌-◌, ◌%◌, ◌^◌, ◌<◌, ◌≡◌, ◌==◌, ltb, Bool, true, not, ◌&&◌, if◌then◌else◌, none, some,
  List, [], ◌∷◌, ok, err, is_ok, arith,
}
use tpi_bmcd.Stream.{Service, StreamingState, take_sender, cancel_all}
use tpi_bmcd.Api.{error, missing_bytes}
use tpi_bmcd.Api.Upload.{send_chunks, handle_file_upload}

-- The length of all chunks, and whether the worker took each.
abbrev pub total : List (ℕ × Bool) → ℕ
total [] = 0
total ((length, taken) ∷ chunks) = length + total chunks

abbrev pub all_taken : List (ℕ × Bool) → Bool
all_taken [] = true
all_taken ((length, taken) ∷ chunks) = taken && all_taken chunks

send_chunks_lem :
    (chunks : List (ℕ × Bool)) (sent : ℕ)
    → sent + total chunks < 2 ^ 64
    → send_chunks chunks sent ≡ (if all_taken chunks then some (sent + total chunks) else none)
unfolding send_chunks
send_chunks_lem [] sent h = ground arith
send_chunks_lem ((length, taken) ∷ chunks) sent h =
    let whole : (sent + length) % 2 ^ 64 ≡ sent + length = omega arith in
    rw whole (ground (arith, send_chunks_lem chunks (sent + length)))

-- An upload whose sender could be taken, and whose chunks have fewer than 2 ^ 64 bytes, succeeds
-- exactly if the worker took every chunk and the chunks have the announced size; then the service is
-- as the others left it. If the size is wrong all transfers are cancelled, and the answer names the
-- bytes that are missing; of an upload that is too long it names 2 ^ 64 less the excess.
pub handle_file_upload_lem :
    (handle token size : ℕ) (chunks : List (ℕ × Bool)) (meanwhile : Service → Service)
    (seen : List StreamingState) (s : Service)
    → (take_sender handle s).0 ≡ ok (token, size)
    → total chunks < 2 ^ 64
    → size < 2 ^ 64
    → let (r, s') = handle_file_upload handle (some chunks) meanwhile seen s in
      let later = meanwhile (take_sender handle s).1 in
      (is_ok r ≡ (all_taken chunks && total chunks == size))
      × (s' ≡ (if all_taken chunks && not (total chunks == size) then cancel_all later else later))
      × ((if all_taken chunks && not (total chunks == size)
            then r
            else err (error 400 (missing_bytes 0)))
          ≡ err (
              error 400 (
                missing_bytes (
                  if all_taken chunks && not (total chunks == size)
                  then (if ltb (total chunks) size
                      then size - total chunks
                      else 2 ^ 64 - (total chunks - size))
                  else 0))))
unfolding handle_file_upload
handle_file_upload_lem handle token size chunks meanwhile seen s h p q =
    ground (arith, h, send_chunks_lem chunks 0)
