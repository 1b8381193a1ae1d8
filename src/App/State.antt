-- ===== src/App/State.antt =====
-- The state of `BmcApplication`: the keys of bmc_application.rs:41-50 with their values, and the
-- board.
use tpi_bmcd.Base.{ℕ, zero, suc, Bool, false, Option, none, List, [], ◌∷◌, ok, String}
use tpi_bmcd.Base.Exec.{Exec}
use tpi_bmcd.Hal.{NodeId, node1, UsbRoute}
use tpi_bmcd.Hal.Device.{Env, Trace, Fault, did, read_clock}
use tpi_bmcd.Hal.Pins.{PinController}

-- `node host route` has the node as USB host; the source's `Node`.
pub data UsbConfig : Type 0 where
  usb_a bmc_host : NodeId → UsbConfig
  node flashing : NodeId → UsbRoute → UsbConfig

pub record NodeInfo : Type 0 where
  pub name : Option String
  pub module_name : Option String
  pub power_on_time : Option ℕ
  pub uart_baud : Option ℕ

-- `NodeInfo::default()`
abbrev pub no_info : NodeInfo
no_info = record { name = none; module_name = none; power_on_time = none; uart_baud = none }

-- `node_infos` stands for `[NodeInfo; 4]`; `cooling` maps the hash of a device's name to its speed.
pub record Db : Type 0 where
  pub activated_nodes : ℕ
  pub usb_config : UsbConfig
  pub node_infos : List NodeInfo
  pub node1_usb : Bool
  pub cooling : List (ℕ × ℕ)

pub record App : Type 0 where
  pub pins : PinController
  pub db : Db
  pub trace : Trace

-- The defaults that `BmcApplication::new` registers.
abbrev pub default_db : Db
default_db = record {
  activated_nodes = 0;
  usb_config = usb_a node1;
  node_infos = no_info ∷ no_info ∷ no_info ∷ no_info ∷ [];
  node1_usb = false;
  cooling = [];
}

abbrev pub Cmd {ℓ} : Type ℓ → Type ℓ
Cmd A = Exec App Fault A

-- A call of the hardware layer.
abbrev pub hal : Exec Trace Fault (Unit {0}) → Cmd (Unit {0})
hal m a = ((m a.trace).0, record a { trace = (m a.trace).1 })

-- `if let Err(e) = … { log }`, and `unwrap_or_else` with a warning.
abbrev pub logged : Cmd (Unit {0}) → Cmd (Unit {0})
logged m a = (ok tt, (m a).1)

abbrev pub set_db : (Db → Db) → Cmd (Unit {0})
set_db f a = (ok tt, record a { db = f a.db })

-- `get_timestamp_unix`; each reading is an event.
abbrev pub now : Env → Cmd (Option ℕ)
now env a = (ok (env.timestamp a.trace), record a { trace = did read_clock ∷ a.trace })

-- Assignment to one element of the array; the indices used are below 4.
unfoldable pub modify_at {ℓ} : {A : Type ℓ} → ℕ → (A → A) → List A → List A
modify_at i f [] = []
modify_at zero f (x ∷ xs) = f x ∷ xs
modify_at (suc i) f (x ∷ xs) = x ∷ modify_at i f xs
