-- ===== src/Api/Info.antt =====
-- The handlers of bmcd/src/api/legacy.rs that report on the system.
pub mod Laws
use Prim.Native.Char.{code}
use tpi_bmcd.Base.{
  ℕ, ◌+◌, ◌-◌, ◌^◌, ◌%◌, ◌==◌, String, Option, none, some, List, [], ◌∷◌, ◌++◌, map as map_list,
  Result, ok, err,
}
use tpi_bmcd.Base.Results.{unwrap_or}
use tpi_bmcd.Base.Text.{trim_end_matches, trim_start_matches}
use tpi_bmcd.Base.Assoc.{lookup, text_key}
use tpi_bmcd.App.Info.{
  System, NetInfo, StorageInfo, get_ipv4_address, get_mac_address, get_net_interfaces, get_fs_stat,
  get_storage_info, read_os_release, read_hostname,
}
use tpi_bmcd.Board.{BoardInfo}
use tpi_bmcd.Board.Values.{LoadError, product_name, hw_version, value_of}
use tpi_bmcd.Api.Tree.{Value, number, string, array, map, items, fields}
use tpi_bmcd.Api.{LegacyResponse, success, error, text, json}

abbrev pub api_version : String
api_version = "1.1"

-- `CARGO_PKG_VERSION` and the time of the build.
pub record Build : Type 0 where
  pub bmcd_version : String
  pub build_time : String

-- `trim_matches('"')`
abbrev pub unquoted : String → String
unquoted s = trim_start_matches (λ c. c == b'"') (trim_end_matches (λ c. c == b'"') s)

abbrev pub entry : Option (List (String × String)) → String → Option String
entry none key = none
entry (some results) key = lookup key results

abbrev pub named : Option String → String
named none = "unknown"
named (some v) = v

abbrev pub buildroot_name : Option String → String
buildroot_name none = "unknown"
buildroot_name (some v) = unquoted v

abbrev net_value : NetInfo → Value
net_value n =
    map (fields (("device", string n.device) ∷ ("ip", string n.ip) ∷ ("mac", string n.mac) ∷ []))

abbrev storage_value : StorageInfo → Value
storage_value s = map (
    fields (
      ("name", string s.name)
      ∷ ("total_bytes", number s.total_bytes)
      ∷ ("bytes_free", number s.bytes_free)
      ∷ []))

abbrev optional : String → Option String → List (String × Value)
optional key none = []
optional key (some v) = (key, string v) ∷ []

module _ (sys : System) (build : Build) where
  -- `board` is the product name and the hardware version, if the record can be loaded.
  unfoldable pub get_about : Option (String × String) → LegacyResponse
  unfolding read_os_release read_hostname
  get_about board =
      let release = read_os_release sys in
      let (board_model, board_revision) = unwrap_or board ("", "") in
      success (
        some (
          json (
            map (
              fields (
                ("board_model", string board_model)
                ∷ ("board_revision", string board_revision)
                ∷ ("hostname", string (unwrap_or (read_hostname sys) ""))
                ∷ ("api", string api_version)
                ∷ ("version", string (named (entry release "VERSION")))
                ∷ ("bmcd_version", string build.bmcd_version)
                ∷ ("buildtime", string build.build_time)
                ∷ ("buildroot", string (buildroot_name (entry release "PRETTY_NAME")))
                ∷ [])))))

  unfoldable pub get_info : LegacyResponse
  unfolding get_net_interfaces get_storage_info
  get_info = success (
      some (
        json (
          map (
            fields (
              ("ip", array (items (map_list net_value (get_net_interfaces sys))))
              ∷ ("storage", array (items (map_list storage_value (get_storage_info sys))))
              ∷ [])))))

  unfoldable pub get_system_information : LegacyResponse
  unfolding read_os_release get_ipv4_address get_mac_address
  get_system_information =
      let release = read_os_release sys in
      success (
        some (
          json (
            array (
              items (
                map (
                  fields (
                    ("api", string api_version)
                    ∷ ("buildtime", string build.build_time)
                    ∷ ("ip", string (unwrap_or (get_ipv4_address sys) "Unknown"))
                    ∷ ("mac", string (get_mac_address sys "br0"))
                    ∷ (optional "buildroot" (entry release "PRETTY_NAME")
                        ++ optional "version" (entry release "VERSION"))))
                ∷ [])))))

  -- The used bytes are `u64`.
  unfoldable pub get_sdcard_info : LegacyResponse
  unfolding get_fs_stat
  get_sdcard_info = elim (get_fs_stat sys "/mnt/sdcard") [
    | none ↦ error 400 (text "Failed to get microSD card info: {}")
    | some (total, free) ↦ success (
        some (
          json (
            array (
              items (
                map (
                  fields (
                    ("total", number total)
                    ∷ ("use", number ((total + 2 ^ 64 - free) % 2 ^ 64))
                    ∷ ("free", number free)
                    ∷ []))
                ∷ [])))))
  ]

-- `get_node_info`, on which nothing is known of the nodes.
abbrev pub get_node_info : LegacyResponse
get_node_info = success (
    some (
      json (
        array (
          items (
            map (
              fields (
                ("node1", number 0)
                ∷ ("node2", number 0)
                ∷ ("node3", number 0)
                ∷ ("node4", number 0)
                ∷ []))
            ∷ [])))))

abbrev pub not_implemented : String → LegacyResponse
not_implemented msg = error 501 (text msg)

abbrev pub set_node_info : LegacyResponse
set_node_info = not_implemented "Method type `set` on parameter `nodeinfo` is deprecated"

abbrev pub format_sdcard : LegacyResponse
format_sdcard = not_implemented "microSD card formatting is not implemented"

-- `read_board_model`
unfoldable pub read_board_model :
    (List ℕ → String) → Result LoadError BoardInfo → Option (String × String)
unfolding value_of
read_board_model from_utf8_lossy (err e) = none
read_board_model from_utf8_lossy (ok info) = some (
  value_of from_utf8_lossy (λ days. "") product_name info,
  value_of from_utf8_lossy (λ days. "") hw_version info,
)
