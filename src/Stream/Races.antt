-- ===== src/Stream/Races.antt =====
-- Interleavings that the lock does not rule out.
use tpi_bmcd.Base.{ℕ, ◌≡◌, refl, true, [], ◌∷◌, arith, ==_iff}
use tpi_bmcd.Stream.{
  transferring, done, error, TransferContext, finished, mem, assign, install, timeout, verdict,
  conclude,
}
use tpi_bmcd.Stream.Steps.{
  System, request, start, finish, settle, fire, Reach, here, next, init, worker_of,
}

-- For any two transfers `a` and `b`, the service can come to stand at "done" with the size of `a`,
-- the current transfer `b` cancelled with its worker still running: `b` replaces `a`, and the worker of
-- `a` ends with success.
pub stale_success_replaces :
    (a b : TransferContext) (d : ℕ)
    → (t : System) × Reach init t
      × (t.service.status ≡ done d a.size)
      × (mem b.token t.service.cancelled ≡ true)
      × (t.workers ≡ worker_of b ∷ [])
unfolding install verdict conclude assign
stale_success_replaces a b d = (
  _,
  next
      (next
        (next (next (next (next here (request init a)) (start _ [] a [] refl)) (request _ b))
          (start _ [] b [] refl))
        (finish _ (worker_of b ∷ []) (worker_of a) [] (finished d) refl))
      (settle _ [] _ [] refl),
  refl,
  ground (arith, ==_iff b.token b.token),
  refl,
)

-- For any two transfers `a` and `b` of which `b` has not given its sender away, the service can come to
-- stand at the error "Send timeout" with `b` cancelled, though only one of the two timers has fired:
-- `a` and `b` are requested, `b` replaces `a`, and the first timer fires.
pub stale_timer_cancels :
    (a b : TransferContext)
    → b.data_sender ≡ true
    → (t : System) × Reach init t
      × (t.service.status ≡ error "Send timeout")
      × (mem b.token t.service.cancelled ≡ true)
      × (t.timers ≡ 1)
unfolding install timeout assign
stale_timer_cancels a b h = (
  _,
  next
      (next (next (next (next here (request init a)) (start _ [] a [] refl)) (request _ b))
        (start _ [] b [] refl))
      (fire _ 1 refl),
  ground (arith, ==_iff b.token b.token),
  ground (arith, ==_iff b.token b.token),
  refl,
)

-- For any transfer `a`, the service can come to stand at "transferring" with no worker left: the worker
-- ends before the request has set the status, and its result is lost.
pub early_result_lost :
    (a : TransferContext) (d : ℕ)
    → (t : System) × Reach init t
      × (t.service.status ≡ transferring a)
      × (t.workers ≡ [])
      × (t.ending ≡ [])
unfolding install verdict conclude assign
early_result_lost a d = (
  _,
  next
      (next (next (next here (request init a)) (finish _ [] (worker_of a) [] (finished d) refl))
        (settle _ [] _ [] refl))
      (start _ [] a [] refl),
  refl,
  refl,
  refl,
)
