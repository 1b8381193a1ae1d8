-- ===== src/Persistency/Builder.antt =====
-- The builder of bmcd/src/persistency/app_persistency.rs, and what dropping the store does.
use tpi_bmcd.Base.{ℕ, Bool, String, Option, none, some, List, [], ◌∷◌, ◌++◌, ok, err}
use tpi_bmcd.Persistency.{Bytes, Format, Codec}
use tpi_bmcd.Persistency.Writer.{Disk, MonitorContext, start, sync_all}

pub record PersistencyBuilder : Type 0 where
  pub keys : List (String × Bytes)
  pub write_timeout : Option ℕ

-- The derived default.
abbrev pub empty_builder : PersistencyBuilder
empty_builder = record { keys = []; write_timeout = none }

-- `none` is the failed `expect` on the encoding.
unfoldable pub register_key :
    {T : Type 0} → Codec T → String → T → PersistencyBuilder → Option PersistencyBuilder
register_key c key default b = elim (c.encode default) [
  | err e ↦ none
  | ok bytes ↦ some (record b { keys = b.keys ++ ((key, bytes) ∷ []) })
]

unfoldable pub with_write_timeout : Option ℕ → PersistencyBuilder → PersistencyBuilder
with_write_timeout timeout b = record b { write_timeout = timeout }

-- The first argument tells whether the metadata of /var/lib/bmcd/bmcd.bin says read-only, the second
-- whether the file opens.
unfoldable pub build : Format → Bool → Bool → PersistencyBuilder → Disk → MonitorContext × Disk
unfolding start
build f readonly opens b d = start f readonly opens b.keys d

-- `Drop`: the sync is spawned, `n` is how many of its operations succeed.
unfoldable pub drop_persistency : Format → ℕ → MonitorContext → Disk → Disk
unfolding sync_all
drop_persistency f n ctx d = (sync_all f n ctx d).2
