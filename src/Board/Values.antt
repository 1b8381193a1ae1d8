-- ===== src/Board/Values.antt =====
-- Finding, reading and printing the record of board_info/src/board_info.rs. The text of bytes that may
-- be no UTF-8 and the date a number of days after the 1st of May 2023 (crate `chrono`) are parameters.
pub mod Laws
use Prim.Native.String.{◌++◌}
use tpi_bmcd.Base.{
  ℕ, ◌/◌, ◌%◌, ltb, if◌then◌else◌, String, Option, none, some, List, [], ◌∷◌, length, take, Result,
  ok, err,
}
use tpi_bmcd.Base.Print.{digit, to_string, to_hex}
use tpi_bmcd.Board.{BoardInfo, boardinfo_size, from_bytes, parse_version_field, Version}

pub data BoardInfoAttribute : Type 0 where
  reserved crc32 hdr_version hw_version factory_date factory_serial product_name mac :
      BoardInfoAttribute

-- `{:04x}`
abbrev pub hex4 : ℕ → String
hex4 n =
    if ltb n 16
    then "000" ++ to_hex n
    else if ltb n 256
    then "00" ++ to_hex n
    else if ltb n 4096
    then "0" ++ to_hex n
    else to_hex n

-- `{:02x}` of a byte, in front of a text.
abbrev pub hex_byte : ℕ → String → String
hex_byte b s = String.◌∷◌ (digit (b / 16)) (String.◌∷◌ (digit (b % 16)) s)

unfoldable pub mac_text : List ℕ → String
mac_text [] = ""
mac_text (b ∷ bytes) = hex_byte b (mac_text bytes)

-- `format!("v{}.{}.{}", major, minor, patch)`
unfoldable pub version_text : Version → String
unfolding to_string
version_text v =
    "v" ++ (to_string v.major ++ ("." ++ (to_string v.minor ++ ("." ++ to_string v.patch))))

module _ (from_utf8_lossy : List ℕ → String) (date_text : ℕ → String) where
  unfoldable pub value_of : BoardInfoAttribute → BoardInfo → String
  unfolding to_string to_hex mac_text version_text parse_version_field
  value_of reserved b = "0x" ++ to_hex b.reserved
  value_of crc32 b = "0x" ++ hex4 b.crc32
  value_of hdr_version b = to_string b.hdr_version
  value_of hw_version b = version_text (parse_version_field b.hw_version)
  value_of factory_date b = date_text b.factory_date
  value_of factory_serial b = from_utf8_lossy b.factory_serial
  value_of product_name b = from_utf8_lossy b.product_name
  value_of mac b = mac_text b.mac

-- An entry of /sys/bus/i2c/devices: its name, and what its file `eeprom` holds, if there is one. The
-- file may not open.
pub record I2cDevice : Type 0 where
  pub name : String
  pub eeprom : Option (Result ℕ (List ℕ))

pub data LoadError : Type 0 where
  missing_eeprom unexpected_end : LoadError
  load_io : ℕ → LoadError

-- The listing may break off with an error.
unfoldable pub find_i2c_device : List (Result ℕ I2cDevice) → Result LoadError (Result ℕ (List ℕ))
find_i2c_device [] = err missing_eeprom
find_i2c_device (err e ∷ entries) = err (load_io e)
find_i2c_device (ok entry ∷ entries) = elim entry.eeprom [
  | some file ↦ ok file
  | none ↦ find_i2c_device entries
]

-- The first 50 bytes; fewer are an error. `none` is a panic of `from_bytes`.
unfoldable pub from_reader : List ℕ → Option (Result LoadError BoardInfo)
unfolding from_bytes
from_reader bytes =
    if ltb (length bytes) boardinfo_size
    then some (err unexpected_end)
    else (elim (from_bytes (take boardinfo_size bytes)) [ none ↦ none | some b ↦ some (ok b) ])

unfoldable pub load : Result ℕ (List (Result ℕ I2cDevice)) → Option (Result LoadError BoardInfo)
unfolding find_i2c_device from_reader
load (err e) = some (err (load_io e))
load (ok entries) = elim (find_i2c_device entries) [
  | err e ↦ some (err e)
  | ok (err e) ↦ some (err (load_io e))
  | ok (ok bytes) ↦ from_reader bytes
]
