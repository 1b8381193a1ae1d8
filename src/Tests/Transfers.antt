-- ===== src/Tests/Transfers.antt =====
-- Two uploads that overlap.
use tpi_bmcd.Base.{◌≡◌, refl, true, [], ◌∷◌}
use tpi_bmcd.Stream.{Service, transferring, done, error, TransferContext, mem, install, assign}
use tpi_bmcd.Stream.Steps.{System, request, start, Reach, here, next, init, replaced_is_cancelled}
use tpi_bmcd.Stream.Races.{stale_success_replaces, stale_timer_cancels, early_result_lost}

abbrev first_upload : TransferContext
first_upload = record {
  id = 11;
  process_name = "node 1 os install service";
  size = 100;
  data_sender = true;
  token = 1;
}

abbrev second_upload : TransferContext
second_upload = record {
  id = 22;
  process_name = "firmware upgrade service";
  size = 200;
  data_sender = true;
  token = 2;
}

-- Both are requested, and the second has replaced the first.
overlapping :
    (t : System) × Reach init t
    × (mem 1 t.installed ≡ true)
    × (t.service.status ≡ transferring second_upload)
unfolding install assign
overlapping = (
  _,
  next
      (next (next (next here (request init first_upload)) (start _ [] first_upload [] refl))
        (request _ second_upload))
      (start _ [] second_upload [] refl),
  refl,
  refl,
)

replaced_is_cancelled_example : mem 1 overlapping.0.service.cancelled ≡ true
unfolding overlapping install assign
replaced_is_cancelled_example = replaced_is_cancelled overlapping.0 1 overlapping.1 refl refl

abbrev uploading : Service
uploading = record { status = transferring first_upload; cancelled = [] }

stale_success_replaces_example :
    (t : System) × Reach init t
    × (t.service.status ≡ done 9 100)
    × (mem 2 t.service.cancelled ≡ true)
    × (t.workers ≡ record { token = 2; size = 200 } ∷ [])
stale_success_replaces_example = stale_success_replaces first_upload second_upload 9

stale_timer_cancels_example :
    (t : System) × Reach init t
    × (t.service.status ≡ error "Send timeout")
    × (mem 2 t.service.cancelled ≡ true)
    × (t.timers ≡ 1)
stale_timer_cancels_example = stale_timer_cancels first_upload second_upload refl

early_result_lost_example :
    (t : System) × Reach init t
    × (t.service.status ≡ transferring first_upload)
    × (t.workers ≡ [])
    × (t.ending ≡ [])
early_result_lost_example = early_result_lost first_upload 9
