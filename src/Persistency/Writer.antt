-- ===== src/Persistency/Writer.antt =====
-- bmcd/src/persistency/app_persistency.rs: how the store gets to its file, which is replaced by a
-- finished copy.
pub mod Laws
use tpi_bmcd.Base.{
  ℕ, zero, suc, ◌+◌, ◌^◌, ltb, leb, not, ◌&&◌, ◌||◌, Bool, true, false, if◌then◌else◌, String,
  Option, none, some, List, [], ◌∷◌, ◌++◌, map, length, take, Result, ok, err,
}
use tpi_bmcd.Base.Results.{unwrap_or}
use tpi_bmcd.Persistency.{Bytes, PersistencyStore, Format, write}
use tpi_bmcd.Persistency

-- The file, and the file beside it with the extension `new`, as the processes of the system see them.
-- Nothing is said of what outlives a loss of power: the code does not sync the copy before the rename,
-- and the storage may then have the one without the other.
pub record Disk : Type 0 where
  pub current : Option Bytes
  pub pending : Option Bytes

pub data DiskOp : Type 0 where
  truncate_new rename_new : DiskOp
  append_new : ℕ → DiskOp

abbrev extended : Option Bytes → ℕ → Option Bytes
extended none b = none
extended (some bytes) b = some (bytes ++ (b ∷ []))

abbrev pub apply : DiskOp → Disk → Disk
apply truncate_new d = record d { pending = some [] }
apply (append_new b) d = record d { pending = extended d.pending b }
apply rename_new d = record { current = d.pending; pending = none }

abbrev pub apply_all : List DiskOp → Disk → Disk
apply_all [] d = d
apply_all (op ∷ ops) d = apply_all ops (apply op d)

-- `MonitorContext`: whether there is a file to write to, and the store.
pub record MonitorContext : Type 0 where
  pub file : Bool
  pub inner : PersistencyStore

-- `halted` is an error, or a panic of the store's `write`.
pub data MonitorEvent : Type 0 where
  persistency_written halted : MonitorEvent

-- What a commit does to the files, byte by byte.
abbrev pub commit_ops : Bytes → List DiskOp
commit_ops bytes = truncate_new ∷ (map append_new bytes ++ (rename_new ∷ []))

-- The task that writes: the moment at which it will, if one is set, and whether it has ended.
pub record Writer : Type 0 where
  pub deadline : Option ℕ
  pub ended : Bool
  pub context : MonitorContext
  pub disk : Disk

-- A commit that is still running when the store changes is begun anew, so that a change never comes in
-- the middle of one here.
--
-- A change of the store by others, with its moment; the task waking up at a moment, with the number of
-- operations that succeed.
pub data WriterEvent : Type 0 where
  store_change : ℕ → PersistencyStore → WriterEvent
  wakes : ℕ → ℕ → WriterEvent

module _ (f : Format) where
  -- The number is how many of the operations succeed before one fails, or the process ends.
  abbrev commit_bytes :
      ℕ
      → Option (Bytes × PersistencyStore)
      → MonitorContext
      → Disk
      → MonitorEvent × MonitorContext × Disk
  commit_bytes n none ctx d = (halted, ctx, apply_all (take n (truncate_new ∷ [])) d)
  commit_bytes n (some (bytes, written)) ctx d = (
    if leb (length bytes + 2) n then persistency_written else halted,
    if leb (length bytes + 1) n then record ctx { inner = written } else ctx,
    apply_all (take n (commit_ops bytes)) d,
  )

  unfoldable pub commit_to_file : ℕ → MonitorContext → Disk → MonitorEvent × MonitorContext × Disk
  commit_to_file n ctx d =
      if ctx.file then commit_bytes n (write f ctx.inner) ctx d else (persistency_written, ctx, d)

  -- Opening the file again to sync it changes nothing here.
  unfoldable pub sync_all : ℕ → MonitorContext → Disk → MonitorEvent × MonitorContext × Disk
  sync_all n ctx d =
      if ctx.inner.dirty then commit_to_file n ctx d else (persistency_written, ctx, d)

  -- `ApplicationPersistency::new`: whether the file's metadata says read-only, and whether it opens. It
  -- is created if it may be written.
  unfoldable pub start : Bool → Bool → List (String × Bytes) → Disk → MonitorContext × Disk
  start readonly opens keys d =
      let source = if opens then unwrap_or d.current [] else [] in
      (
        record { file = not readonly; inner = Persistency.new f keys source },
        if opens then record d { current = some source } else d,
      )

  abbrev committed : MonitorEvent × MonitorContext × Disk → Writer → Writer
  committed (persistency_written, ctx, d) w = record {
    deadline = none;
    ended = false;
    context = ctx;
    disk = d;
  }
  committed (halted, ctx, d) w = record { deadline = none; ended = true; context = ctx; disk = d }

  abbrev due : Option ℕ → ℕ → Bool
  due none now = false
  due (some deadline) now = leb deadline now

  -- One turn of `filesystem_writer`.
  unfoldable pub turn : ℕ → WriterEvent → Writer → Writer
  turn write_timeout (store_change now s) w = record w {
    deadline = if w.ended then none else some (now + write_timeout);
    context = record w.context { inner = s };
  }
  turn write_timeout (wakes now n) w =
      if w.ended
      then w
      else if due w.deadline now
      then committed (commit_to_file n w.context w.disk) w
      else w

  unfoldable pub turns : ℕ → List WriterEvent → Writer → Writer
  turns write_timeout [] w = w
  turns write_timeout (e ∷ es) w = turns write_timeout es (turn write_timeout e w)
