-- ===== src/App/Start/Laws.antt =====
-- Two starts of the daemon, and what was set between them.
use tpi_bmcd.Base.{
  ℕ, ◌^◌, ◌<◌, ◌≡◌, ◌∙◌, sym, ap, refl, subst, String, Option, none, some, List, [], ◌++◌, length,
  Result, ok, err, true, false,
}
use tpi_bmcd.Base.Bits.{bit}
use tpi_bmcd.Base.Results.{IfOk}
use tpi_bmcd.Hal.Device.{Env, Fault, Trace}
use tpi_bmcd.Hal.Setup.{Board, Lines, PinLines, PowerLines, SetupError, new_controllers}
use tpi_bmcd.Hal.Setup.Labels.{lines_of, Distinct}
use tpi_bmcd.Hal.Setup.Laws.{new_controllers_lem}
use tpi_bmcd.App.State.{App, Db, default_db}
use tpi_bmcd.App.Slots.Laws.{InSync}
use tpi_bmcd.App.Lifecycle.{initialize}
use tpi_bmcd.App.Lifecycle.Start.{initialize_lem}
use tpi_bmcd.Persistency.{
  Bytes, Format, PersistencyHeader, PersistencyStore, binary_magic, header_size,
}
use tpi_bmcd.Persistency.Builder.{PersistencyBuilder, build}
use tpi_bmcd.Persistency.Writer.{Disk, MonitorContext, persistency_written, commit_to_file}
use tpi_bmcd.App.Store.{Codecs, Change, change_dbs, register_keys, set_changes, get_db}
use tpi_bmcd.App.Usb.Lines.{ShowsUsb}
use tpi_bmcd.App.Store.Fits.{NoCollision, FitChanges}
use tpi_bmcd.App.Store.Restart.{FitDefaults, registered, get_db-restart}
use tpi_bmcd.App.Start.{Started, new, is_legacy_dts, stored, initialized, with_lines, usb_bus_type}

module _ (board : Board) (env : Env) (f : Format) (cs : Codecs) where
  -- The enable lines of the board follow the application's power states, and its USB lines the given
  -- values, which are the application's.
  abbrev pub Applied : Db → App → Type 0
  Applied db a =
      InSync a
      × ((i : ℕ) → i < 4 → bit i a.db.activated_nodes ≡ bit i db.activated_nodes)
      × (a.db.usb_config ≡ db.usb_config)
      × (a.db.node1_usb ≡ db.node1_usb)
      × ShowsUsb env a.pins.usb_switch db a.trace

  abbrev pub Restored : Db → Started → Type 0
  Restored db s = Applied db s.app × Distinct (lines_of s.lines)

  stored-Restored :
      (db : Db) (held : List Lines) (store : MonitorContext × Disk) (b : App)
      (o : Option PersistencyStore)
      → Applied db b
      → Distinct (lines_of held)
      → IfOk (Restored db) (stored board env f cs held store b o)
  stored-Restored db held store b none shows apart = tt
  stored-Restored db held store b (some inner) shows apart = (shows, apart)

  initialized-Restored :
      (held : List Lines) (store : MonitorContext × Disk) (a : App)
      → Distinct (lines_of held)
      → IfOk (Restored a.db) (initialized board env f cs held store (initialize env a))
  initialized-Restored held store a apart = done (initialize env a) refl
    where
      done :
          (r : Result Fault (Unit {0}) × App)
          → initialize env a ≡ r
          → IfOk (Restored a.db) (initialized board env f cs held store r)
      done (err x, b) e = tt
      done (ok u, b) e =
          let fine : (initialize env a).0 ≡ ok tt =
            ap (λ (x : Result Fault (Unit {0}) × App). x.0) e in
          let after : (initialize env a).1 ≡ b =
            ap (λ (x : Result Fault (Unit {0}) × App). x.1) e in
          stored-Restored a.db held store b _
            (subst (Applied a.db) after (initialize_lem env a fine)) apart

  -- A start from a store that holds the values.
  new-Restored :
      (model : Result ℕ String) (timeout : Option ℕ) (d : Disk) (t : Trace) (b : PersistencyBuilder)
      (db : Db)
      → register_keys cs timeout ≡ some b
      → get_db f cs (build f false true b d).0.inner ≡ some db
      → IfOk (Restored db) (new board env f cs model timeout false true d t)
  unfolding new
  new-Restored model timeout d t b db registers reads =
      done (new_controllers board (is_legacy_dts model) []) refl
    where
      done :
          (r : Result SetupError (PinLines × PowerLines) × List Lines)
          → new_controllers board (is_legacy_dts model) [] ≡ r
          → IfOk (Restored db) (with_lines board env f cs timeout false true d t r)
      done (err x, held) e = tt
      done (ok (pins, power), held) e =
          let apart = (new_controllers_lem board (is_legacy_dts model) pins power held e).1 in
          rw (registers, reads)
            (initialized-Restored held (build f false true b d)
              (record {
                pins = record { usb_switch = usb_bus_type pins.usb_switch };
                db = db;
                trace = t;
              })
              apart)

  -- Behind a commit the values are read from the store.
  abbrev Reads : PersistencyBuilder → Disk → ℕ → Db → Option PersistencyStore → Type 0
  Reads b d n db none = Unit {0}
  Reads b d n db (some x) =
      let (ctx, d') = build f false true b d in
      get_db f cs
        (build f false true b (commit_to_file f n (record ctx { inner = x }) d').2).0.inner
      ≡ some db

  module _ (fixed : (h : PersistencyHeader) → length (f.encode_header h) ≡ header_size f)
      (front : (h : PersistencyHeader) (rest : Bytes)
        → h.magic ≡ binary_magic
        → f.decode_header (f.encode_header h ++ rest) ≡ ok h)
      (maps : (m : List (ℕ × Bytes)) → f.decode_map (f.encode_map m) ≡ ok m) (apart : NoCollision f)
      (fit : FitDefaults cs) (long : 0 < header_size f) (small : header_size f < 2 ^ 16) where
    -- The daemon was started for the first time, set values that come through their encodings, and
    -- completed a commit. When its application then could be started again, on either kind of board, the
    -- enable line of each node is what the node was last set to, the USB configuration and the route of
    -- node 1 are the ones that were set last, each of them the default if none was set, and the lines of
    -- the USB bus, of its way to node 1 and of the boot modes are theirs; in flash mode that is said of
    -- the boot line of the node that is flashed, in every other mode of all four. No GPIO line was
    -- requested twice. It is assumed that the header has a fixed size and is read back from the front of
    -- a file, that maps are read back, that the five keys have different hashes, and that the file fits
    -- its bounds.
    pub new_after_restart :
        (model : Result ℕ String) (timeout : Option ℕ) (d : Disk) (changes : List Change) (n : ℕ)
        (t : Trace) (s : Started)
        → d.current ≡ none
        → FitChanges cs changes
        → let b : PersistencyBuilder = record {
          keys = registered f cs fit;
          write_timeout = timeout;
        } in
          let (ctx, d') = build f false true b d in
          ((last : PersistencyStore)
            → set_changes f cs changes ctx.inner ≡ some last
            → (length (f.encode_map last.cache) < 2 ^ 32)
              × ((commit_to_file f n (record ctx { inner = last }) d').0 ≡ persistency_written))
          → (last : PersistencyStore) → set_changes f cs changes ctx.inner ≡ some last
          → new board env f cs model timeout false true
              (commit_to_file f n (record ctx { inner = last }) d').2
              t
            ≡ ok s
          → Restored (change_dbs changes default_db) s
    new_after_restart model timeout d changes n t s none_there fits assumed last sets starts =
        let b : PersistencyBuilder = record {
          keys = registered f cs fit;
          write_timeout = timeout;
        } in
        let (registers, (last', sets', _, reads)) =
          get_db-restart f cs fixed front maps apart fit long small timeout d changes n none_there
            fits assumed in
        let db = change_dbs changes default_db in
        let reads_last = subst (Reads b d n db) (sym sets' ∙ sets) reads in
        subst (IfOk (Restored db)) starts (new-Restored model timeout _ t b db registers reads_last)
