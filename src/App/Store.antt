-- ===== src/App/Store.antt =====
-- How bmcd/src/app/bmc_application.rs keeps its values in the persistency layer: the five keys that
-- `BmcApplication::new` registers, and the gets and sets of their values.
pub mod Fits
pub mod Decoded
pub mod Laws
pub mod Restart
use tpi_bmcd.Base.{ℕ, Bool, true, false, String, Option, none, some, List, [], ◌∷◌, Result, ok, err}
use tpi_bmcd.App.State.{Db, UsbConfig, NodeInfo, default_db}
use tpi_bmcd.Persistency.{
  Bytes, Format, Codec, PersistencyStore, PersistencyError, try_get, try_set,
}
use tpi_bmcd.Persistency.Builder.{
  PersistencyBuilder, empty_builder, register_key, with_write_timeout,
}

abbrev pub activated_nodes_key : String
activated_nodes_key = "activated_nodes"

abbrev pub usb_config_key : String
usb_config_key = "usb_config"

abbrev pub node_info_key : String
node_info_key = "node_info"

abbrev pub node1_usb_mode_key : String
node1_usb_mode_key = "node1_usb"

abbrev pub cooling_devices_key : String
cooling_devices_key = "cooling_devices"

-- Crate `bincode` for the types of the five values.
pub record Codecs : Type 0 where
  pub activated_nodes : Codec ℕ
  pub usb_config : Codec UsbConfig
  pub node_infos : Codec (List NodeInfo)
  pub node1_usb : Codec Bool
  pub cooling : Codec (List (ℕ × ℕ))

-- The values that the operations of the application set.
pub data Change : Type 0 where
  set_activated_nodes : ℕ → Change
  set_usb_config : UsbConfig → Change
  set_node_infos : List NodeInfo → Change
  set_node1_usb : Bool → Change
  set_cooling : List (ℕ × ℕ) → Change

-- What a set means to the values of the application.
abbrev pub change_db : Change → Db → Db
change_db (set_activated_nodes v) db = record db { activated_nodes = v }
change_db (set_usb_config v) db = record db { usb_config = v }
change_db (set_node_infos v) db = record db { node_infos = v }
change_db (set_node1_usb v) db = record db { node1_usb = v }
change_db (set_cooling v) db = record db { cooling = v }

abbrev pub change_dbs : List Change → Db → Db
change_dbs [] db = db
change_dbs (c ∷ changes) db = change_dbs changes (change_db c db)

infixl 5 ◌>>=?◌
abbrev pub ◌>>=?◌ : {A B : Type 0} → Option A → (A → Option B) → Option B
none >>=? f = none
some a >>=? f = f a

module _ (f : Format) where
  -- `get`: the `unwrap` panics on an error.
  unfoldable pub get : {T : Type 0} → Codec T → String → PersistencyStore → Option T
  get c key s = elim (try_get f c key s) [ ok v ↦ some v | err e ↦ none ]

  abbrev set_result :
      Result PersistencyError (Unit {0}) × PersistencyStore → Option PersistencyStore
  set_result (ok _, s) = some s
  set_result (err e, s) = none

  -- `set`: the `unwrap` panics on an error. The writer listens.
  unfoldable pub set :
      {T : Type 0} → Codec T → String → T → PersistencyStore → Option PersistencyStore
  set c key value s = set_result (try_set f c true key value s)

module _ (cs : Codecs) where
  unfoldable pub register_keys : Option ℕ → Option PersistencyBuilder
  unfolding register_key with_write_timeout
  register_keys database_write_timeout =
      register_key cs.activated_nodes activated_nodes_key default_db.activated_nodes empty_builder
      >>=? register_key cs.usb_config usb_config_key default_db.usb_config
      >>=? register_key cs.node_infos node_info_key default_db.node_infos
      >>=? register_key cs.node1_usb node1_usb_mode_key default_db.node1_usb
      >>=? register_key cs.cooling cooling_devices_key default_db.cooling
      >>=? λ b. some (with_write_timeout database_write_timeout b)

module _ (f : Format) (cs : Codecs) where
  unfoldable pub set_change : Change → PersistencyStore → Option PersistencyStore
  unfolding set
  set_change (set_activated_nodes v) = set f cs.activated_nodes activated_nodes_key v
  set_change (set_usb_config v) = set f cs.usb_config usb_config_key v
  set_change (set_node_infos v) = set f cs.node_infos node_info_key v
  set_change (set_node1_usb v) = set f cs.node1_usb node1_usb_mode_key v
  set_change (set_cooling v) = set f cs.cooling cooling_devices_key v

  unfoldable pub set_changes : List Change → PersistencyStore → Option PersistencyStore
  unfolding set_change
  set_changes [] s = some s
  set_changes (c ∷ changes) s = set_change c s >>=? set_changes changes

  -- All values, as the application gets them.
  unfoldable pub get_db : PersistencyStore → Option Db
  unfolding get
  get_db s = get f cs.activated_nodes activated_nodes_key s >>=? λ activated.
      get f cs.usb_config usb_config_key s >>=? λ usb.
      get f cs.node_infos node_info_key s >>=? λ infos.
      get f cs.node1_usb node1_usb_mode_key s >>=? λ node1.
      get f cs.cooling cooling_devices_key s >>=? λ speeds. some (record {
        activated_nodes = activated;
        usb_config = usb;
        node_infos = infos;
        node1_usb = node1;
        cooling = speeds;
      })
