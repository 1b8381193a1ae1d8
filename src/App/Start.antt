-- ===== src/App/Start.antt =====
-- `BmcApplication::new` of bmcd/src/app/bmc_application.rs: the lines that are requested, the store that
-- is opened, and the state that the stored values put the board into.
pub mod Consistent
pub mod Laws
use tpi_bmcd.Base.{
  ℕ, Bool, true, false, ◌||◌, String, Option, none, some, List, [], ◌∷◌, Result, ok, err,
}
use tpi_bmcd.Base.Text.{contains}
use tpi_bmcd.Hal.Device.{Env, Fault, Trace}
use tpi_bmcd.Hal.Pins
use tpi_bmcd.Hal.Pins.{UsbArchitecture}
use tpi_bmcd.Hal.Setup.{
  Board, Lines, PinLines, PowerLines, SetupError, UsbSwitch, usb_hub, usb_mux_switch,
  new_controllers,
}
use tpi_bmcd.Persistency.{Format, PersistencyStore}
use tpi_bmcd.Persistency.Builder.{PersistencyBuilder, build}
use tpi_bmcd.Persistency.Writer.{MonitorContext, Disk}
use tpi_bmcd.App.State.{App, Db}
use tpi_bmcd.App.Lifecycle.{initialize}
use tpi_bmcd.App.Store.{
  Codecs, Change, set_activated_nodes, set_usb_config, set_node_infos, set_cooling, set_changes,
  register_keys, get_db,
}

-- What /proc/device-tree/model tells of the board.
unfoldable pub is_legacy_dts : Result ℕ String → Bool
unfolding contains
is_legacy_dts (err e) = false
is_legacy_dts (ok model) = contains model "v2.4"

-- `usb_bus_type`
abbrev pub usb_bus_type : UsbSwitch → UsbArchitecture
usb_bus_type (usb_mux_switch mux vbus output) = Pins.usb_mux_switch
usb_bus_type (usb_hub output source) = Pins.usb_hub

-- `unregistered` is the panic on a default that has no encoding, `unreadable` a stored value that does
-- not come through its decoding, `unstored` the panic on a value that the start sets and that has no
-- encoding.
pub data StartError : Type 0 where
  lines : SetupError → StartError
  unregistered unreadable unstored : StartError
  hardware : Fault → StartError

-- What `initialize` sets on its way to success, by the values that it leaves.
unfoldable pub initial_sets : Db → List Change
initial_sets db =
    set_usb_config db.usb_config
    ∷ set_node_infos db.node_infos
    ∷ set_activated_nodes db.activated_nodes
    ∷ set_cooling db.cooling
    ∷ []

-- The daemon's application when it has started, its store with the sets of the start, and the disk,
-- to which the writer of the store has not come yet.
pub record Started : Type 0 where
  pub lines : List Lines
  pub context : MonitorContext
  pub disk : Disk
  pub app : App

module _ (board : Board) (env : Env) (f : Format) (cs : Codecs) where
  abbrev pub stored :
      List Lines → MonitorContext × Disk → App → Option PersistencyStore → Result StartError Started
  stored held store a none = err unstored
  stored held store a (some inner) =
      ok (record {
        lines = held;
        context = record store.0 { inner = inner };
        disk = store.1;
        app = a;
      })

  abbrev pub initialized :
      List Lines → MonitorContext × Disk → Result Fault (Unit {0}) × App → Result StartError Started
  initialized held store (err e, a) = err (hardware e)
  initialized held store (ok _, a) =
      stored held store a (set_changes f cs (initial_sets a.db) store.0.inner)

  -- The values are read from the store here, before the first of them is used.
  abbrev pub opened :
      List Lines
      → UsbArchitecture
      → Trace
      → MonitorContext × Disk
      → Option Db
      → Result StartError Started
  opened held usb t store none = err unreadable
  opened held usb t store (some db) =
      initialized held store
        (initialize env (record { pins = record { usb_switch = usb }; db = db; trace = t }))

  abbrev pub with_builder :
      Bool
      → Bool
      → Disk
      → List Lines
      → UsbArchitecture
      → Trace
      → Option PersistencyBuilder
      → Result StartError Started
  with_builder readonly opens d held usb t none = err unregistered
  with_builder readonly opens d held usb t (some b) =
      let store = build f readonly opens b d in opened held usb t store (get_db f cs store.0.inner)

  abbrev pub with_lines :
      Option ℕ
      → Bool
      → Bool
      → Disk
      → Trace
      → Result SetupError (PinLines × PowerLines) × List Lines
      → Result StartError Started
  with_lines timeout readonly opens d t (err e, held) = err (lines e)
  with_lines timeout readonly opens d t (ok (pins, power), held) =
      with_builder readonly opens d held (usb_bus_type pins.usb_switch) t (register_keys cs timeout)

  -- The file of the store is read-only or not, opens or not, and is the current one of the disk.
  unfoldable pub new :
      Result ℕ String → Option ℕ → Bool → Bool → Disk → Trace → Result StartError Started
  unfolding is_legacy_dts
  new model timeout readonly opens d t =
      with_lines timeout readonly opens d t (new_controllers board (is_legacy_dts model) [])
