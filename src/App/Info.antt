-- ===== src/App/Info.antt =====
-- bmcd/src/app/bmc_info.rs: addresses, interfaces and storage, and the files that the information
-- handlers of bmcd/src/api/legacy.rs read. The operating system is a record of what it answers.
pub mod Laws
use Prim.Native.Char.{code}
use Prim.Native.String.{◌++◌}
use tpi_bmcd.Base.{
  ℕ, ◌*◌, ◌%◌, ◌^◌, ◌==◌, not, ◌&&◌, ◌||◌, Bool, true, false, if◌then◌else◌, String, str_eq, Option,
  none, some, List, [], ◌∷◌, ◌++◌ as ◌+++◌, Result, ok, err, retain,
}
use tpi_bmcd.Base.Results.{unwrap_or}
use tpi_bmcd.Base.Text.{split_once, trim_end_matches}
use tpi_bmcd.Base.Assoc.{insert, text_key}

-- Crate `if_addrs`: `v4` tells whether the address is one of IPv4, `ip` is its text.
pub record Interface : Type 0 where
  pub name : String
  pub ip : String
  pub v4 : Bool
  pub is_loopback : Bool
  pub is_link_local : Bool

pub record Statvfs : Type 0 where
  pub blocks : ℕ
  pub blocks_free : ℕ
  pub fragment_size : ℕ

-- `/etc/os-release` by its lines; `none` is a line that cannot be read.
pub record System : Type 0 where
  pub get_if_addrs : Option (List Interface)
  pub address_file : String → Option String
  pub statvfs : String → Option Statvfs
  pub has_sd_card : Bool
  pub os_release : Option (List (Option String))
  pub hostname : Option String

-- The loop of `get_ipv4_address`.
unfoldable pub first_ipv4 : List Interface → Option String
first_ipv4 [] = none
first_ipv4 (i ∷ interfaces) =
    let rest = first_ipv4 interfaces in
    if i.is_loopback || not (str_eq i.name "br0") then rest else if i.v4 then some i.ip else rest

-- `trim_end_matches(['\0', '\n'])`
abbrev pub trimmed : String → String
trimmed text = trim_end_matches (λ c. c == 0 || c == 10) text

pub record NetInfo : Type 0 where
  pub device : String
  pub ip : String
  pub mac : String

pub record StorageInfo : Type 0 where
  pub name : String
  pub total_bytes : ℕ
  pub bytes_free : ℕ

module _ (sys : System) where
  unfoldable pub get_ipv4_address : Option String
  unfolding first_ipv4
  get_ipv4_address = elim sys.get_if_addrs [ none ↦ none | some interfaces ↦ first_ipv4 interfaces ]

  unfoldable pub get_mac_address : String → String
  unfolding trim_end_matches
  get_mac_address interface =
      trimmed
        (unwrap_or (sys.address_file ("/sys/class/net/" ++ (interface ++ "/address"))) "Unknown")

  unfoldable pub net_infos : List Interface → List NetInfo
  unfolding get_mac_address
  net_infos [] = []
  net_infos (i ∷ interfaces) =
      let rest = net_infos interfaces in
      if not i.is_loopback || i.is_link_local
      then record { device = i.name; ip = i.ip; mac = get_mac_address i.name } ∷ rest
      else rest

  unfoldable pub get_net_interfaces : List NetInfo
  unfolding net_infos
  get_net_interfaces = elim sys.get_if_addrs [ none ↦ [] | some interfaces ↦ net_infos interfaces ]

  -- Total and free bytes. The products are those of `u64` in a release build.
  unfoldable pub get_fs_stat : String → Option (ℕ × ℕ)
  get_fs_stat device = elim (sys.statvfs device) [
    | none ↦ none
    | some stat ↦
        some (
          stat.blocks * stat.fragment_size % 2 ^ 64,
          stat.blocks_free * stat.fragment_size % 2 ^ 64,
        )
  ]

  abbrev pub storage : String → Option (ℕ × ℕ) → List StorageInfo
  storage name none = []
  storage name (some (total, free)) =
      record { name = name; total_bytes = total; bytes_free = free } ∷ []

  unfoldable pub get_storage_info : List StorageInfo
  unfolding get_fs_stat
  get_storage_info =
      storage "BMC" (get_fs_stat "/")
      +++ (if sys.has_sd_card then storage "SD card" (get_fs_stat "/mnt/sdcard") else [])

-- The loop of `read_os_release`.
unfoldable pub release_lines :
    List (Option String) → List (String × String) → Option (List (String × String))
release_lines [] results = some results
release_lines (none ∷ lines) results = none
release_lines (some line ∷ lines) results = elim (split_once b'=' line) [
  | none ↦ release_lines lines results
  | some (key, value) ↦ release_lines lines (insert key value results)
]

unfoldable pub read_os_release : System → Option (List (String × String))
unfolding release_lines
read_os_release sys = elim sys.os_release [ none ↦ none | some lines ↦ release_lines lines [] ]

unfoldable pub read_hostname : System → Option String
unfolding trim_end_matches
read_hostname sys = elim sys.hostname [ none ↦ none | some text ↦ some (trimmed text) ]
