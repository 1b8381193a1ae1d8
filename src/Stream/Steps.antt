-- ===== src/Stream/Steps.antt =====
-- The tasks around the service as a step relation: requests, workers, timers and clients take the
-- lock in any order.
use tpi_bmcd.Base.{ℕ, suc, ◌==◌, ◌||◌, ◌≡◌, Bool, true, false, String, List, [], ◌∷◌, ◌++◌, arith}
use tpi_bmcd.Stream.{
  Service, StreamingState, transferring, TransferContext, Outcome, failed, mem, new, drop_state,
  assign, cancel_all, install, timeout, verdict, conclude, take_sender,
}

pub record Worker : Type 0 where
  pub token : ℕ
  pub size : ℕ

-- `starting` are the requests that have spawned their worker and timer and not yet set the status;
-- `ending` are the workers that have ended and wait for the lock. `installed` is for the proofs: the
-- tokens whose transfer has been the current one.
pub record System : Type 0 where
  pub service : Service
  pub starting : List TransferContext
  pub workers : List Worker
  pub ending : List (StreamingState × Bool)
  pub timers : ℕ
  pub installed : List ℕ

abbrev pub init : System
init = record {
  service = new;
  starting = [];
  workers = [];
  ending = [];
  timers = 0;
  installed = [];
}

abbrev pub worker_of : TransferContext → Worker
worker_of ctx = record { token = ctx.token; size = ctx.size }

pub data Step : System → System → Type 0 where
  -- `execute_worker` and `cancel_request_on_timeout` spawn their tasks
  request :
      (s : System) (ctx : TransferContext)
      → Step s (record s {
        starting = ctx ∷ s.starting;
        workers = worker_of ctx ∷ s.workers;
        timers = suc s.timers;
      })
  -- the request sets the status
  start :
      (s : System) (before : List TransferContext) (ctx : TransferContext)
      (after : List TransferContext)
      → s.starting ≡ before ++ (ctx ∷ after)
      → Step s (record s {
        service = install ctx s.service;
        starting = before ++ after;
        installed = ctx.token ∷ s.installed;
      })
  -- a worker's future is ready
  finish :
      (s : System) (before : List Worker) (w : Worker) (after : List Worker) (o : Outcome)
      → s.workers ≡ before ++ (w ∷ after)
      → Step s (record s {
        workers = before ++ after;
        ending = verdict o w.size w.token s.service ∷ s.ending;
      })
  -- the worker's task gets the lock
  settle :
      (s : System) (before : List (StreamingState × Bool)) (v : StreamingState × Bool)
      (after : List (StreamingState × Bool))
      → s.ending ≡ before ++ (v ∷ after)
      → Step s (record s { service = conclude v s.service; ending = before ++ after })
  fire :
      (s : System) (n : ℕ)
      → s.timers ≡ suc n
      → Step s (record s { service = timeout s.service; timers = n })
  take : (s : System) (id : ℕ) → Step s (record s { service = (take_sender id s.service).1 })
  cancel : (s : System) → Step s (record s { service = cancel_all s.service })

pub data Reach (s : System) : System → Type 0 where
  here : Reach s s
  next : {t u : System} → Reach s t → Step t u → Reach s u

-- The token of the running transfer.
abbrev pub holds : StreamingState → ℕ → Bool
holds (transferring ctx) k = ctx.token == k
holds _ k = false

mem-drop_state :
    (k : ℕ) (st : StreamingState) (tokens : List ℕ)
    → mem k (drop_state st tokens) ≡ (holds st k || mem k tokens)
unfolding drop_state
mem-drop_state k st tokens = ground arith

-- A transfer that has been current is so still or has been cancelled.
pub record IsExclusive (s : System) : Type 0 where
  pub at :
      (k : ℕ)
      → mem k s.installed ≡ true
      → (mem k s.service.cancelled || holds s.service.status k) ≡ true

pub Step-IsExclusive : {s t : System} → Step s t → IsExclusive s → IsExclusive t
unfolding install timeout verdict conclude take_sender cancel_all assign
Step-IsExclusive (request s ctx) x = record { at = x.at }
Step-IsExclusive (start s before ctx after e) x = record {
  at = λ k h. ground (arith, mem-drop_state k s.service.status s.service.cancelled, x.at k);
}
Step-IsExclusive (finish s before w after o e) x = record { at = x.at }
Step-IsExclusive (settle s before v after e) x = record {
  at = λ k h. ground (arith, mem-drop_state k s.service.status s.service.cancelled, x.at k);
}
Step-IsExclusive (fire s n e) x = record {
  at = λ k h. ground (arith, mem-drop_state k s.service.status s.service.cancelled, x.at k);
}
Step-IsExclusive (take s id) x = record { at = λ k h. ground (arith, x.at k) }
Step-IsExclusive (cancel s) x = record {
  at = λ k h. ground (arith, mem-drop_state k s.service.status s.service.cancelled, x.at k);
}

Reach-IsExclusive : {s t : System} → IsExclusive s → Reach s t → IsExclusive t
Reach-IsExclusive x here = x
Reach-IsExclusive x (next r st) = Step-IsExclusive st (Reach-IsExclusive x r)

init-IsExclusive : IsExclusive init
init-IsExclusive = record { at = λ k h. cc }

-- Whatever the interleaving, of all transfers that were ever current at most the present one is not
-- cancelled.
pub replaced_is_cancelled :
    (s : System) (k : ℕ)
    → Reach init s
    → mem k s.installed ≡ true
    → holds s.service.status k ≡ false
    → mem k s.service.cancelled ≡ true
replaced_is_cancelled s k r h e = ground (arith, (Reach-IsExclusive init-IsExclusive r).at k h)

-- So an error that a worker reports when its transfer has already been replaced or cancelled changes
-- nothing, whenever its task then gets the lock.
late_error_ignored :
    (s : System) (k size : ℕ) (message : String) (later : Service)
    → Reach init s
    → mem k s.installed ≡ true
    → holds s.service.status k ≡ false
    → conclude (verdict (failed message) size k s.service) later ≡ later
unfolding conclude verdict
late_error_ignored s k size message later r h e = ground (arith, replaced_is_cancelled s k r h e)
