-- ===== src/Utils/Io.antt =====
-- bmcd/src/utils/io.rs: the wrappers that watch the bytes of a transfer. The digests of crates `sha2`
-- and `crc` are parameters; a poll of the wrapped stream or writer is given by what it answers.
pub mod Laws
use tpi_bmcd.Base.{
  ℕ, zero, suc, ◌+◌, ◌==◌, not, ◌&&◌, Bool, true, false, if◌then◌else◌, Option, none, some, List,
  [], ◌∷◌, ◌++◌, length, take, Result, ok, err,
}

abbrev pub Bytes : Type 0
Bytes = List ℕ

-- Equality of byte arrays.
abbrev pub same_bytes : Bytes → Bytes → Bool
same_bytes [] [] = true
same_bytes (x ∷ xs) (y ∷ ys) = x == y && same_bytes xs ys
same_bytes _ _ = false

-- A hasher that is fed in parts.
pub record Hasher (R : Type 0) : Type 1 where
  pub State : Type 0
  pub start : State
  pub update : State → Bytes → State
  pub finalize : State → R

-- `Poll<T>`
pub data Poll {ℓ} (A : Type ℓ) : Type ℓ where
  pending : Poll A
  ready : A → Poll A

pub data IoError : Type 0 where
  checksum_failed : IoError
  interrupted : IoError
  device : ℕ → IoError

-- `Option<io::Result<Bytes>>`
abbrev pub Item : Type 0
Item = Option (Result IoError Bytes)

module _ (h : Hasher Bytes) where
  -- `Sha256StreamValidator` without its stream. The hasher is `Some` from the start on.
  pub record Validator : Type 0 where
    pub hasher : h.State
    pub expected_sha : Bytes

  unfoldable pub new : Bytes → Validator
  new expected = record { hasher = h.start; expected_sha = expected }

  -- The hasher is replaced by a fresh one in either case.
  unfoldable pub verify_hash : Validator → Result IoError (Unit {0}) × Validator
  verify_hash v = (
    if same_bytes (h.finalize v.hasher) v.expected_sha then ok tt else err checksum_failed,
    record v { hasher = h.start },
  )

  abbrev verified : Result IoError (Unit {0}) × Validator → Poll Item × Validator
  verified (ok tt, v) = (ready none, v)
  verified (err e, v) = (ready (some (err e)), v)

  -- The argument is what the wrapped stream answers.
  unfoldable pub poll_next : Poll Item → Validator → Poll Item × Validator
  unfolding verify_hash
  poll_next pending v = (pending, v)
  poll_next (ready (some (ok []))) v = verified (verify_hash v)
  poll_next (ready (some (ok (b ∷ bs)))) v =
      (ready (some (ok (b ∷ bs))), record v { hasher = h.update v.hasher (b ∷ bs) })
  poll_next (ready (some (err e))) v = (ready (some (err e)), v)
  poll_next (ready none) v = verified (verify_hash v)

module _ (c : Hasher ℕ) where
  -- `WriteMonitor` without its writer. `sent` holds the values that the channel was given, newest first.
  pub record WriteMonitor : Type 0 where
    pub written : ℕ
    pub sent : List ℕ
    pub digest : c.State

  unfoldable pub new_monitor : WriteMonitor
  new_monitor = record { written = 0; sent = []; digest = c.start }

  unfoldable pub crc : WriteMonitor → ℕ
  crc m = c.finalize m.digest

  -- The first argument is what the inner writer answers.
  unfoldable pub poll_write :
      Poll (Result IoError ℕ) → Bytes → WriteMonitor → Poll (Result IoError ℕ) × WriteMonitor
  poll_write (ready (ok n)) buf m =
      let total = m.written + n in
      (
        ready (ok n),
        record { written = total; sent = total ∷ m.sent; digest = c.update m.digest (take n buf) },
      )
  poll_write other buf m = (other, m)
