-- ===== src/App/Store/Restart.antt =====
-- The application's values over a restart of the daemon.
use tpi_bmcd.Base.{
  ℕ, ◌^◌, ◌<◌, ◌≡◌, ◌∙◌, ap, refl, String, Option, none, some, List, [], ◌∷◌, map, ◌++◌, length, ok,
  arith, true, false,
}
use tpi_bmcd.Base.Assoc.{lookup, insert, nat_key, lookup-insert}
use tpi_bmcd.App.State.{Db, default_db}
use tpi_bmcd.Persistency.{
  Bytes, Format, PersistencyHeader, PersistencyStore, binary_magic, header_size, from_keys, new,
  try_deserialize_source,
}
use tpi_bmcd.Persistency.Writer.{Disk, MonitorContext, persistency_written, commit_to_file, start}
use tpi_bmcd.Persistency.Writer.Laws.{start-commit_to_file}
use tpi_bmcd.Persistency.Builder.{PersistencyBuilder, register_key, with_write_timeout, build}
use tpi_bmcd.App.Store.{
  Codecs, Change, change_dbs, register_keys, set_changes, get_db, activated_nodes_key,
  usb_config_key, node_info_key, node1_usb_mode_key, cooling_devices_key,
}
use tpi_bmcd.App.Store.Fits.{Differ, Fits, NoCollision, FitChanges}
use tpi_bmcd.App.Store.Laws.{IsStored, set_changes-IsStored, get_db-IsStored}

-- The defaults come through their encodings.
abbrev pub FitDefaults : Codecs → Type 0
FitDefaults cs =
    Fits cs.activated_nodes default_db.activated_nodes
    × Fits cs.usb_config default_db.usb_config
    × Fits cs.node_infos default_db.node_infos
    × Fits cs.node1_usb default_db.node1_usb
    × Fits cs.cooling default_db.cooling

module _ (f : Format) (cs : Codecs) where
  abbrev pub registered : FitDefaults cs → List (String × Bytes)
  registered fit =
      (activated_nodes_key, fit.0.0)
      ∷ (usb_config_key, fit.1.0)
      ∷ (node_info_key, fit.2.0)
      ∷ (node1_usb_mode_key, fit.3.0)
      ∷ (cooling_devices_key, fit.4.0)
      ∷ []

  register_keys_lem :
      (fit : FitDefaults cs) (timeout : Option ℕ)
      → register_keys cs timeout ≡ some (record { keys = registered fit; write_timeout = timeout })
  unfolding register_keys register_key with_write_timeout
  register_keys_lem fit timeout = ground (arith, fit.0.1, fit.1.1, fit.2.1, fit.3.1, fit.4.1)

  -- A key whose hash differs from those of all later keys keeps its default.
  from_keys_skips :
      (back : List (String × Bytes)) (m : List (ℕ × Bytes)) (j : ℕ)
      → Differ j (map (λ (x : String × Bytes). f.hash x.0) back)
      → lookup j (from_keys f.hash back m) ≡ lookup j m
  unfolding from_keys
  from_keys_skips [] m j apart = refl
  from_keys_skips ((k, v) ∷ back) m j apart =
      from_keys_skips back (insert (f.hash k) v m) j apart.1
      ∙ ground (arith, apart.0, lookup-insert (f.hash k) j v m)

  lookup-from_keys :
      (front : List (String × Bytes)) (k : String) (v : Bytes) (back : List (String × Bytes))
      (m : List (ℕ × Bytes))
      → Differ (f.hash k) (map (λ (x : String × Bytes). f.hash x.0) back)
      → lookup (f.hash k) (from_keys f.hash (front ++ (k, v) ∷ back) m) ≡ some v
  unfolding from_keys
  lookup-from_keys [] k v back m apart =
      from_keys_skips back (insert (f.hash k) v m) (f.hash k) apart
      ∙ ground (arith, lookup-insert (f.hash k) (f.hash k) v m)
  lookup-from_keys ((k', v') ∷ front) k v back m apart =
      lookup-from_keys front k v back (insert (f.hash k') v' m) apart

  defaults-IsStored :
      (fit : FitDefaults cs) (s : PersistencyStore)
      → NoCollision f
      → s.cache ≡ from_keys f.hash (registered fit) []
      → IsStored f cs default_db s
  unfolding from_keys
  defaults-IsStored fit s apart e =
      let default1 : String × Bytes = (activated_nodes_key, fit.0.0) in
      let default2 : String × Bytes = (usb_config_key, fit.1.0) in
      let default3 : String × Bytes = (node_info_key, fit.2.0) in
      let default4 : String × Bytes = (node1_usb_mode_key, fit.3.0) in
      let default5 : String × Bytes = (cooling_devices_key, fit.4.0) in
      let kept =
        λ (front : List (String × Bytes)) (k : String) (v : Bytes) (back : List (String × Bytes))
            (h : Differ (f.hash k) (map (λ (x : String × Bytes). f.hash x.0) back)).
          lookup-from_keys front k v back [] h in
      let at = λ (key : String). ap (lookup (f.hash key)) e in
      record {
        activated = (
          fit.0.0,
          at activated_nodes_key
              ∙ kept [] default1.0 default1.1 (default2 ∷ default3 ∷ default4 ∷ default5 ∷ [])
                  apart.0,
          fit.0.2,
        );
        usb = (
          fit.1.0,
          at usb_config_key
              ∙ kept (default1 ∷ []) default2.0 default2.1 (default3 ∷ default4 ∷ default5 ∷ [])
                  apart.1.0,
          fit.1.2,
        );
        infos = (
          fit.2.0,
          at node_info_key
              ∙ kept (default1 ∷ default2 ∷ []) default3.0 default3.1 (default4 ∷ default5 ∷ [])
                  apart.1.1.0,
          fit.2.2,
        );
        node1 = (
          fit.3.0,
          at node1_usb_mode_key
              ∙ kept (default1 ∷ default2 ∷ default3 ∷ []) default4.0 default4.1 (default5 ∷ [])
                  apart.1.1.1.0,
          fit.3.2,
        );
        speeds = (
          fit.4.0,
          at cooling_devices_key
              ∙ kept (default1 ∷ default2 ∷ default3 ∷ default4 ∷ []) default5.0 default5.1 [] tt,
          fit.4.2,
        );
      }

  fresh_build :
      (fit : FitDefaults cs) (timeout : Option ℕ) (d : Disk)
      → NoCollision f
      → 0 < header_size f
      → d.current ≡ none
      → let b : PersistencyBuilder = record { keys = registered fit; write_timeout = timeout } in
        IsStored f cs default_db (build f false true b d).0.inner
  unfolding build start new try_deserialize_source
  fresh_build fit timeout d apart long none_there =
      defaults-IsStored fit _ apart (rw none_there (ground (arith, long)))

  -- Of two stores, one that has the entries of the other holds the same values.
  entries-IsStored :
      (db : Db) (s t : PersistencyStore)
      → ((j : ℕ) (v : Bytes) → lookup j s.cache ≡ some v → lookup j t.cache ≡ some v)
      → IsStored f cs db s
      → IsStored f cs db t
  entries-IsStored db s t keep h = record {
    activated = (h.activated.0, keep (f.hash activated_nodes_key) _ h.activated.1, h.activated.2);
    usb = (h.usb.0, keep (f.hash usb_config_key) _ h.usb.1, h.usb.2);
    infos = (h.infos.0, keep (f.hash node_info_key) _ h.infos.1, h.infos.2);
    node1 = (h.node1.0, keep (f.hash node1_usb_mode_key) _ h.node1.1, h.node1.2);
    speeds = (h.speeds.0, keep (f.hash cooling_devices_key) _ h.speeds.1, h.speeds.2);
  }

  module _ (fixed : (h : PersistencyHeader) → length (f.encode_header h) ≡ header_size f)
      (front : (h : PersistencyHeader) (rest : Bytes)
        → h.magic ≡ binary_magic
        → f.decode_header (f.encode_header h ++ rest) ≡ ok h)
      (maps : (m : List (ℕ × Bytes)) → f.decode_map (f.encode_map m) ≡ ok m) (apart : NoCollision f)
      (fit : FitDefaults cs) (long : 0 < header_size f) (small : header_size f < 2 ^ 16) where
    restarted :
        (db : Db) (ctx : MonitorContext) (d : Disk) (n : ℕ)
        → length (f.encode_map ctx.inner.cache) < 2 ^ 32
        → ctx.file ≡ true
        → (commit_to_file f n ctx d).0 ≡ persistency_written
        → IsStored f cs db ctx.inner
        → IsStored f cs db
            (start f false true (registered fit) (commit_to_file f n ctx d).2).0.inner
    restarted db ctx d n bounded can complete = entries-IsStored db ctx.inner _ (λ j v there.
        let c =
          start-commit_to_file f n ctx d (registered fit) j fixed front (maps ctx.inner.cache) small
            bounded can in
        ground (arith, c, there, complete))

    -- The daemon starts for the first time, sets values that come through their encodings, completes a
    -- commit and is started again. No set panics, and before and after the restart the application gets
    -- exactly the values that it set last, or its defaults where it set none. The keys are registered
    -- with the defaults. It is assumed that the header has a fixed size and is read back from the front
    -- of a file, that maps are read back, that the five keys have different hashes, and that the file
    -- fits its bounds.
    pub get_db-restart :
        (timeout : Option ℕ) (d : Disk) (changes : List Change) (n : ℕ)
        → d.current ≡ none
        → FitChanges cs changes
        → let b : PersistencyBuilder = record { keys = registered fit; write_timeout = timeout } in
          let (ctx, d') = build f false true b d in
          ((t : PersistencyStore)
            → set_changes f cs changes ctx.inner ≡ some t
            → (length (f.encode_map t.cache) < 2 ^ 32)
              × ((commit_to_file f n (record ctx { inner = t }) d').0 ≡ persistency_written))
          → (register_keys cs timeout ≡ some b)
            × ((t : PersistencyStore) × (set_changes f cs changes ctx.inner ≡ some t)
                × (get_db f cs t ≡ some (change_dbs changes default_db))
                × (get_db f cs
                      (build f false true b
                        (commit_to_file f n (record ctx { inner = t }) d').2).0.inner
                    ≡ some (change_dbs changes default_db)))
    unfolding build
    get_db-restart timeout d changes n none_there fits assumed =
        let b : PersistencyBuilder = record { keys = registered fit; write_timeout = timeout } in
        let (ctx, d') = build f false true b d in
        let db = change_dbs changes default_db in
        let (t, sets, stored) =
          set_changes-IsStored f cs apart changes default_db ctx.inner fits
            (fresh_build fit timeout d apart long none_there) in
        let (bounded, complete) = assumed t sets in
        let stored' = restarted db (record ctx { inner = t }) d' n bounded refl complete stored in
        (
          register_keys_lem fit timeout,
          (t, sets, get_db-IsStored f cs db t stored, get_db-IsStored f cs db _ stored'),
        )
