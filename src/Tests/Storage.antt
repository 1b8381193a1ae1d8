-- ===== src/Tests/Storage.antt =====
-- A store with one key.
use tpi_bmcd.Base.{
  ℕ, if◌then◌else◌, ◌≡◌, refl, true, false, String, none, some, List, [], ◌∷◌, ◌++◌, replicate,
  Result, ok, err, arith, ap, sym,
}
use tpi_bmcd.Base.Assoc.{lookup, insert, remove, nat_key}
use tpi_bmcd.Persistency.{
  Bytes, PersistencyHeader, PersistencyStore, Format, Codec, binary_magic, new, write, new_header,
  from_keys, try_deserialize_source,
}
use tpi_bmcd.Persistency.Writer.{
  MonitorContext, Disk, Writer, WriterEvent, store_change, wakes, commit_to_file, start, turns,
  sync_all,
}
use tpi_bmcd.Persistency.Writer.Laws.{start-commit_to_file, failed_commit_is_last}

-- Headers as three numbers and the room of the others; maps of one entry.
abbrev write_header : PersistencyHeader → Bytes
write_header h = h.version ∷ h.data_size ∷ h.data_offset ∷ replicate 14 0

abbrev read_header : Bytes → Result String PersistencyHeader
read_header (v ∷ n ∷ o ∷ rest) =
    ok (record { version = v; magic = binary_magic; data_size = n; data_offset = o })
read_header _ = err "io error: unexpected end of file"

abbrev write_map : List (ℕ × Bytes) → Bytes
write_map ((k, v) ∷ []) = k ∷ v
write_map _ = []

abbrev read_map : Bytes → Result String (List (ℕ × Bytes))
read_map (k ∷ v) = ok ((k, v) ∷ [])
read_map [] = ok []

abbrev format : Format
format = record {
  encode_header = write_header;
  decode_header = read_header;
  encode_map = write_map;
  decode_map = read_map;
  hash = λ s. 7;
}

abbrev byte : Codec ℕ
byte = record {
  encode = λ n. ok (n ∷ []);
  decode = λ bytes. elim bytes [ n ∷ _ ↦ ok n | [] ↦ err "io error: unexpected end of file" ];
}

abbrev stored : PersistencyStore
stored = record { cache = (7, 5 ∷ []) ∷ []; watcher = true; notified = 0; dirty = true }

reads :
    (h : PersistencyHeader) (rest : Bytes)
    → h.magic ≡ binary_magic
    → read_header (write_header h ++ rest) ≡ ok h
reads h rest e = ap (λ (m : Bytes). ok (record h { magic = m })) (sym e)

abbrev monitored : MonitorContext
monitored = record { file = true; inner = stored }

abbrev blank_disk : Disk
blank_disk = record { current = some []; pending = none }

-- The process ends after ten operations of the commit.
start-commit_to_file_example :
    lookup 7
      (start format false true
        (("activated_nodes", 0 ∷ []) ∷ [])
        (commit_to_file format 10 monitored blank_disk).2).0.inner.cache
    ≡ some (0 ∷ [])
unfolding lookup start commit_to_file write new_header new from_keys try_deserialize_source insert
    remove
start-commit_to_file_example =
    start-commit_to_file format 10 monitored blank_disk (("activated_nodes", 0 ∷ []) ∷ []) 7
      (λ h. refl) reads refl (omega arith) (omega arith) refl

abbrev busy : Writer
busy = record { deadline = some 300; ended = false; context = monitored; disk = blank_disk }

abbrev later_events : List WriterEvent
later_events = store_change 400 stored ∷ wakes 600 100 ∷ []

failed_commit_is_last_example :
    let after = turns format 200 (wakes 300 10 ∷ later_events) busy in
    (after.ended ≡ true)
    × (after.disk.current ≡ some [])
    × ((sync_all format 0 after.context after.disk).2.current ≡ (
        if after.context.inner.dirty
        then (commit_to_file format 0 after.context after.disk).2.current
        else some []))
unfolding write new_header
failed_commit_is_last_example =
    failed_commit_is_last format 200 300 10 0 later_events _ _ busy refl refl refl refl
      (omega arith)
