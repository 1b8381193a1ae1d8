-- ===== src/Upgrade/Copy.antt =====
-- `copy_or_cancel`, `try_write_node`, `try_validate_crc` and the transfer of `flash_node` in
-- upgrade_worker.rs. What tokio's `copy`
-- does to the writer is given as the calls that it makes.
pub mod Laws
use tpi_bmcd.Base.{ℕ, ◌==◌, Bool, if◌then◌else◌, Option, none, some, List, Result, ok, err}
use tpi_bmcd.Base.Results.{◌>>=◌, ◌>>◌, map_err}
use tpi_bmcd.Utils.Io.{IoError, interrupted, Hasher, WriteMonitor, new_monitor, crc}
use tpi_bmcd.Utils.Io.Laws.{Write, run_writes}
use tpi_bmcd.Upgrade.{Failure, io, crc_error, Reader}

-- How the `select!` ends: the copy is done, it has failed, or the token was cancelled before.
pub data Ending : Type 0 where
  exhausted cancelled : Ending
  broken : IoError → Ending

-- The calls of the writer until then, and what its flush answers.
pub record Copy : Type 0 where
  pub writes : List Write
  pub ending : Ending
  pub flushed : Result IoError (Unit {0})

-- What happens outside of the board during one run: what `data_transfer.reader()` yields (`none` is its
-- panic), the copy to the node, the way back to its start, and the copy from the node, which reads at
-- most the bytes that were written.
pub record Run : Type 0 where
  pub reader : Option (Result Failure Reader)
  pub writing : Copy
  pub seek : Result IoError (Unit {0})
  pub flush_file_caches : Result IoError (Unit {0})
  pub reading : ℕ → Copy

module _ (c : Hasher ℕ) where
  abbrev flush : Result IoError (Unit {0}) → ℕ → Result IoError ℕ
  flush (ok tt) bytes_copied = ok bytes_copied
  flush (err e) bytes_copied = err e

  abbrev copied : Ending → Result IoError (Unit {0}) → ℕ → Result IoError ℕ
  copied exhausted flushed bytes_copied = flush flushed bytes_copied
  copied cancelled flushed bytes_copied = err interrupted
  copied (broken e) flushed bytes_copied = err e

  -- The writer is a `WriteMonitor`, which counts what `copy` returns.
  unfoldable pub copy_or_cancel : Copy → WriteMonitor c → Result IoError ℕ × WriteMonitor c
  copy_or_cancel copy m =
      let after = run_writes c copy.writes m in
      (copied copy.ending copy.flushed after.written, after)

  abbrev written_with_crc : Result IoError ℕ × WriteMonitor c → Result Failure (ℕ × ℕ)
  written_with_crc (ok bytes_written, m) = ok (bytes_written, crc c m)
  written_with_crc (err e, m) = err (io e)

  unfoldable pub try_write_node : Copy → Result Failure (ℕ × ℕ)
  unfolding crc
  try_write_node copy = written_with_crc (copy_or_cancel copy (new_monitor c))

  abbrev compared : ℕ → Result IoError ℕ × WriteMonitor c → Result Failure (Unit {0})
  compared expected_crc (err e, m) = err (io e)
  compared expected_crc (ok n, m) =
      if expected_crc == crc c m then ok tt else err (crc_error expected_crc (crc c m))

  unfoldable pub try_validate_crc : ℕ → Copy → Result Failure (Unit {0})
  unfolding crc
  try_validate_crc expected_crc copy = compared expected_crc (copy_or_cancel copy (new_monitor c))

  abbrev validate : Run → ℕ × ℕ → Result Failure (Unit {0})
  validate run (bytes_written, written_crc) =
      map_err io run.seek
      >> map_err io run.flush_file_caches
      >> try_validate_crc written_crc (run.reading bytes_written)

  -- The block whose result is kept until the board is restored.
  unfoldable pub transfer : Bool → Run → Option (Result Failure (Unit {0}))
  transfer do_crc_validation run = elim run.reader [
    | none ↦ none
    | some r ↦ some (
        r >>= λ _. try_write_node run.writing >>= λ written.
        if do_crc_validation then validate run written else ok tt)
  ]
