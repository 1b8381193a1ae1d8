-- ===== src/Persistency/Writer/Laws.antt =====
-- What is in the file after commits that succeed, fail or are cut off.
use tpi_bmcd.Base.{
  ℕ, zero, suc, ◌+◌, ◌<◌, ◌≡◌, ◌∙◌, sym, subst, refl, ap, ◌^◌, leb, ◌&&◌, true, false,
  if◌then◌else◌, String, none, some, List, [], ◌∷◌, ◌++◌, map, length, take, append_assoc,
  append-nil, ok, arith,
}
use tpi_bmcd.Base.Assoc.{lookup, nat_key}
use tpi_bmcd.Persistency.{
  Bytes, PersistencyStore, PersistencyHeader, Format, write, from_keys, header_size, binary_magic,
}
use tpi_bmcd.Persistency.Laws.{new-write}
use tpi_bmcd.Persistency.Writer.{
  Disk, truncate_new, rename_new, append_new, apply, apply_all, MonitorContext, persistency_written,
  halted, commit_ops, commit_to_file, sync_all, start, Writer, WriterEvent, store_change, wakes,
  turn, turns,
}

appended :
    (n : ℕ) (bytes before : Bytes) (d : Disk)
    → d.pending ≡ some before
    → (apply_all (take n (map append_new bytes ++ (rename_new ∷ []))) d).current
      ≡ (if leb (length bytes + 1) n then some (before ++ bytes) else d.current)
appended zero bytes before d p = ground arith
appended (suc zero) [] before d p = rw (p, append-nil before) refl
appended (suc (suc n)) [] before d p = rw (append-nil before) (ground arith)
appended (suc n) (b ∷ bytes) before d p =
    appended n bytes (before ++ (b ∷ [])) (apply (append_new b) d) (rw p refl)
    ∙ ground (arith, append_assoc before (b ∷ []) bytes)

-- Stopped after any operation, a commit leaves the file as it was, or has replaced it by the new content.
replaced :
    (n : ℕ) (bytes : Bytes) (d : Disk)
    → (apply_all (take n (commit_ops bytes)) d).current
      ≡ (if leb (length bytes + 2) n then some bytes else d.current)
replaced zero bytes d = ground arith
replaced (suc n) bytes d = appended n bytes [] (apply truncate_new d) refl ∙ ground arith

module _ (f : Format) where
  written_store :
      (s written : PersistencyStore) (bytes : Bytes)
      → write f s ≡ some (bytes, written)
      → (written.cache ≡ s.cache) × (written.dirty ≡ false)
  unfolding write
  written_store s written bytes e = ground arith

  -- A commit of a store that fits the format, of which the first `n` operations succeed: the file holds
  -- the whole new content if all did, and else what it held before. The store counts as clean as soon as
  -- all bytes are written, even if they are not put in place then.
  commit_to_file_lem :
      (n : ℕ) (ctx : MonitorContext) (d : Disk) (bytes : Bytes) (written : PersistencyStore)
      → ctx.file ≡ true
      → write f ctx.inner ≡ some (bytes, written)
      → let (event, after, d') = commit_to_file f n ctx d in
        (event ≡ (if leb (length bytes + 2) n then persistency_written else halted))
        × (d'.current ≡ (if leb (length bytes + 2) n then some bytes else d.current))
        × (after.inner.cache ≡ ctx.inner.cache)
        × (after.inner.dirty ≡ (if leb (length bytes + 1) n then false else ctx.inner.dirty))
  unfolding commit_to_file
  commit_to_file_lem n ctx d bytes written can e =
      let (same, clean) = written_store ctx.inner written bytes e in
      rw (can, e) (refl, replaced n bytes d, ground arith, ground arith)

  -- Starting again after a commit in which an operation failed, or the process ended, anywhere, while the
  -- system with its files kept running: the store holds the committed entries if the commit was
  -- complete, and else what it would have held without the commit. A loss of power is not covered: the
  -- copy is not synced before it replaces the file.
  pub start-commit_to_file :
      (n : ℕ) (ctx : MonitorContext) (d : Disk) (keys : List (String × Bytes)) (j : ℕ)
      → ((h : PersistencyHeader) → length (f.encode_header h) ≡ header_size f)
      → ((h : PersistencyHeader) (rest : Bytes)
          → h.magic ≡ binary_magic
          → f.decode_header (f.encode_header h ++ rest) ≡ ok h)
      → f.decode_map (f.encode_map ctx.inner.cache) ≡ ok ctx.inner.cache
      → header_size f < 2 ^ 16
      → length (f.encode_map ctx.inner.cache) < 2 ^ 32
      → ctx.file ≡ true
      → let (event, after, d') = commit_to_file f n ctx d in
        lookup j (start f false true keys d').0.inner.cache ≡ (elim event [
          | persistency_written ↦ elim (lookup j ctx.inner.cache) [
            | some v ↦ some v
            | none ↦ lookup j (from_keys f.hash keys [])
          ]
          | halted ↦ lookup j (start f false true keys d).0.inner.cache
        ])
  unfolding start
  start-commit_to_file n ctx d keys j fixed front maps small fits can =
      let (out, e, held, clean, clean', same) =
        new-write f ctx.inner keys j fixed front maps small fits in
      let c = commit_to_file_lem n ctx d out.0 out.1 can e in ground (arith, c, held)

  -- A commit that fails at the very last operation, putting the new file in place, is forgotten: the
  -- sync at shutdown takes the store for clean and leaves the file as it was before.
  sync_all_skips :
      (m n : ℕ) (ctx : MonitorContext) (d : Disk) (bytes : Bytes) (written : PersistencyStore)
      → ctx.file ≡ true
      → write f ctx.inner ≡ some (bytes, written)
      → n ≡ length bytes + 1
      → let (event, after, d') = commit_to_file f n ctx d in
        (event ≡ halted) × ((sync_all f m after d').2.current ≡ d.current)
  unfolding sync_all
  sync_all_skips m n ctx d bytes written can e last =
      let c = commit_to_file_lem n ctx d bytes written can e in ground (arith, c, last)

  -- A change of the store reaches the file at the first wake-up that comes a full `write_timeout` later,
  -- if all operations of the commit succeed; until then the file stays as it is.
  turn-store_change :
      (write_timeout now later n : ℕ) (s written : PersistencyStore) (bytes : Bytes) (w : Writer)
      → w.ended ≡ false
      → w.context.file ≡ true
      → write f s ≡ some (bytes, written)
      → (turn f write_timeout
          (wakes later n)
          (turn f write_timeout (store_change now s) w)).disk.current
        ≡ (if leb (now + write_timeout) later && leb (length bytes + 2) n
            then some bytes
            else w.disk.current)
  unfolding turn
  turn-store_change write_timeout now later n s written bytes w runs can e =
      let c = commit_to_file_lem n (record w.context { inner = s }) w.disk bytes written can e in
      ground (arith, c, runs)

  ended_stays :
      (write_timeout : ℕ) (es : List WriterEvent) (w : Writer)
      → w.ended ≡ true
      → ((turns f write_timeout es w).ended ≡ true) × ((turns f write_timeout es w).disk ≡ w.disk)
  unfolding turns turn
  ended_stays write_timeout [] w e = (e, refl)
  ended_stays write_timeout (store_change now s ∷ es) w e =
      ended_stays write_timeout es (turn f write_timeout (store_change now s) w) e
  ended_stays write_timeout (wakes now n ∷ es) w e =
      let same : turn f write_timeout (wakes now n) w ≡ w = ground arith in
      subst
        (λ (v : Writer).
          ((turns f write_timeout es v).ended ≡ true)
          × ((turns f write_timeout es v).disk ≡ w.disk))
        (sym same) (ended_stays write_timeout es w e)

  -- One commit that does not complete ends the task that writes: whatever changes and wake-ups follow,
  -- the task never runs again and the file keeps what it held before. Only dropping the store can still
  -- write it: with a store that is dirty then, the file is what that one last commit makes of it, and
  -- else it stays.
  pub failed_commit_is_last :
      (write_timeout now n last : ℕ) (es : List WriterEvent) (bytes : Bytes)
      (written : PersistencyStore) (w : Writer)
      → w.ended ≡ false
      → w.deadline ≡ some now
      → w.context.file ≡ true
      → write f w.context.inner ≡ some (bytes, written)
      → n < length bytes + 2
      → let after = turns f write_timeout (wakes now n ∷ es) w in
        (after.ended ≡ true)
        × (after.disk.current ≡ w.disk.current)
        × ((sync_all f last after.context after.disk).2.current ≡ (
            if after.context.inner.dirty
            then (commit_to_file f last after.context after.disk).2.current
            else w.disk.current))
  unfolding turns turn sync_all
  failed_commit_is_last write_timeout now n last es bytes written w runs deadline can e short =
      let c = commit_to_file_lem n w.context w.disk bytes written can e in
      let w' = turn f write_timeout (wakes now n) w in
      let over : w'.ended ≡ true = ground (arith, c, runs, deadline) in
      let (ended, stays) = ended_stays write_timeout es w' over in
      let kept : (turns f write_timeout es w').disk.current ≡ w.disk.current =
        ap (λ (d : Disk). d.current) stays ∙ ground (arith, c, runs, deadline) in
      (ended, kept, ground (arith, kept))
