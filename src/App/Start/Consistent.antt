-- ===== src/App/Start/Consistent.antt =====
-- What the store of a daemon that has started holds.
use tpi_bmcd.Base.{
  ℕ, Bool, ◌≡◌, ◌∙◌, sym, ap, refl, subst, String, Option, none, some, List, [], Result, ok, err,
}
use tpi_bmcd.Base.Results.{IfOk}
use tpi_bmcd.Hal.Device.{Env, Fault, Trace}
use tpi_bmcd.Hal.Pins.{UsbArchitecture}
use tpi_bmcd.Hal.Setup.{Board, Lines, PinLines, PowerLines, SetupError, new_controllers}
use tpi_bmcd.Hal.Setup.Labels.{lines_of, Distinct}
use tpi_bmcd.Hal.Setup.Laws.{new_controllers_lem}
use tpi_bmcd.App.State.{App, Db}
use tpi_bmcd.App.Lifecycle.{initialize}
use tpi_bmcd.App.Lifecycle.Start.{initialize_lem}
use tpi_bmcd.Persistency.{Format, PersistencyStore}
use tpi_bmcd.Persistency.Builder.{PersistencyBuilder, build}
use tpi_bmcd.Persistency.Writer.{Disk, MonitorContext}
use tpi_bmcd.App.Store.{Codecs, change_dbs, register_keys, set_changes, get_db}
use tpi_bmcd.App.Store.Decoded.{AllRoundTrip, set_changes-Fits, get_db-decoded}
use tpi_bmcd.App.Store.Laws.{set_changes-IsStored, get_db-IsStored}
use tpi_bmcd.App.Store.Fits.{NoCollision}
use tpi_bmcd.App.Start.Laws.{Applied, Restored}
use tpi_bmcd.App.Start.{
  StartError, Started, new, is_legacy_dts, initial_sets, stored, initialized, opened, with_builder,
  with_lines, usb_bus_type,
}

module _ (board : Board) (env : Env) (f : Format) (cs : Codecs) where
  abbrev Held : Db → Option PersistencyStore → Type 0
  Held db none = Unit {0}
  Held db (some t) = get_db f cs t ≡ some db

  -- What was loaded is restored, and the store of a daemon that has started holds the application's
  -- values.
  abbrev pub Loaded : PersistencyStore → Started → Type 0
  Loaded store s =
      (db : Db) × (get_db f cs store ≡ some db)
      × Restored board env f cs db s
      × (get_db f cs s.context.inner ≡ some s.app.db)

  abbrev pub IsConsistent : Option ℕ → Bool → Bool → Disk → Started → Type 0
  IsConsistent timeout readonly opens d s =
      (b : PersistencyBuilder) × (register_keys cs timeout ≡ some b)
      × Loaded (build f readonly opens b d).0.inner s

  module _ (back : AllRoundTrip cs) (differ : NoCollision f) where
    -- The sets of a start leave the store with the values that the application has then.
    initial_sets-get_db :
        (db : Db) (b : App) (s t : PersistencyStore)
        → get_db f cs s ≡ some db
        → b.db.node1_usb ≡ db.node1_usb
        → set_changes f cs (initial_sets b.db) s ≡ some t
        → get_db f cs t ≡ some b.db
    unfolding initial_sets
    initial_sets-get_db db b s t reads node1 sets =
        let changes = initial_sets b.db in
        let (t', sets', holds) =
          set_changes-IsStored f cs differ changes db s
            (set_changes-Fits f cs changes s t back sets) (get_db-decoded f cs db s reads) in
        let same : some t' ≡ some t = sym sets' ∙ sets in
        let all : change_dbs changes db ≡ b.db =
          ap (λ (x : Bool). record b.db { node1_usb = x }) (sym node1) in
        subst (Held b.db) same (get_db-IsStored f cs (change_dbs changes db) t' holds ∙ ap some all)

    stored-Loaded :
        (db : Db) (held : List Lines) (store : MonitorContext × Disk) (b : App)
        (o : Option PersistencyStore)
        → set_changes f cs (initial_sets b.db) store.0.inner ≡ o
        → get_db f cs store.0.inner ≡ some db
        → Applied board env f cs db b
        → Distinct (lines_of held)
        → IfOk (Loaded store.0.inner) (stored board env f cs held store b o)
    stored-Loaded db held store b none e reads shows apart = tt
    stored-Loaded db held store b (some t) e reads shows apart =
        (db, reads, (shows, apart), initial_sets-get_db db b store.0.inner t reads shows.3 e)

    initialized-Loaded :
        (held : List Lines) (store : MonitorContext × Disk) (a : App)
        → Distinct (lines_of held)
        → get_db f cs store.0.inner ≡ some a.db
        → IfOk (Loaded store.0.inner) (initialized board env f cs held store (initialize env a))
    initialized-Loaded held store a apart reads = done (initialize env a) refl
      where
        done :
            (r : Result Fault (Unit {0}) × App)
            → initialize env a ≡ r
            → IfOk (Loaded store.0.inner) (initialized board env f cs held store r)
        done (err x, b) e = tt
        done (ok u, b) e =
            let fine : (initialize env a).0 ≡ ok tt =
              ap (λ (x : Result Fault (Unit {0}) × App). x.0) e in
            let after : (initialize env a).1 ≡ b =
              ap (λ (x : Result Fault (Unit {0}) × App). x.1) e in
            stored-Loaded a.db held store b _ refl reads
              (subst (Applied board env f cs a.db) after (initialize_lem env a fine)) apart

    opened-Loaded :
        (held : List Lines) (usb : UsbArchitecture) (t : Trace) (store : MonitorContext × Disk)
        (o : Option Db)
        → Distinct (lines_of held)
        → get_db f cs store.0.inner ≡ o
        → IfOk (Loaded store.0.inner) (opened board env f cs held usb t store o)
    opened-Loaded held usb t store none apart reads = tt
    opened-Loaded held usb t store (some db) apart reads =
        initialized-Loaded held store _ apart reads

    with_builder-IsConsistent :
        (timeout : Option ℕ) (readonly opens : Bool) (d : Disk) (held : List Lines)
        (usb : UsbArchitecture) (t : Trace) (o : Option PersistencyBuilder)
        → Distinct (lines_of held)
        → register_keys cs timeout ≡ o
        → IfOk
            (IsConsistent timeout readonly opens d)
            (with_builder board env f cs readonly opens d held usb t o)
    with_builder-IsConsistent timeout readonly opens d held usb t none apart e = tt
    with_builder-IsConsistent timeout readonly opens d held usb t (some b) apart e =
        let store = build f readonly opens b d in
        widen (opened board env f cs held usb t store (get_db f cs store.0.inner))
          (opened-Loaded held usb t store _ apart refl)
      where
        widen :
            (r : Result StartError Started)
            → IfOk (Loaded (build f readonly opens b d).0.inner) r
            → IfOk (IsConsistent timeout readonly opens d) r
        widen (err x) h = tt
        widen (ok s) h = (b, e, h)

    pub new-IsConsistent :
        (model : Result ℕ String) (timeout : Option ℕ) (readonly opens : Bool) (d : Disk)
        (t : Trace)
        → IfOk
            (IsConsistent timeout readonly opens d)
            (new board env f cs model timeout readonly opens d t)
    unfolding new
    new-IsConsistent model timeout readonly opens d t =
        go (new_controllers board (is_legacy_dts model) []) refl
      where
        go :
            (r : Result SetupError (PinLines × PowerLines) × List Lines)
            → new_controllers board (is_legacy_dts model) [] ≡ r
            → IfOk
                (IsConsistent timeout readonly opens d)
                (with_lines board env f cs timeout readonly opens d t r)
        go (err x, held) e = tt
        go (ok (pins, power), held) e =
            with_builder-IsConsistent timeout readonly opens d held (usb_bus_type pins.usb_switch) t
              (register_keys cs timeout)
              (new_controllers_lem board (is_legacy_dts model) pins power held e).1 refl
