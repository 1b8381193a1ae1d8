-- ===== src/Board.antt =====
-- board_info/src/board_info.rs: the board's EEPROM record.
pub mod Laws
pub mod VersionField
pub mod Values
use tpi_bmcd.Base.{
  ℕ, zero, suc, ◌+◌, ◌-◌, ◌*◌, ◌/◌, ◌%◌, ◌^◌, ◌==◌, bit_and, if◌then◌else◌, Bool, true, false, List,
  [], ◌∷◌, ◌++◌, length, take, drop, replicate, Option, none, some,
}
use tpi_bmcd.Base.Bits

abbrev pub boardinfo_size : ℕ
boardinfo_size = 50

abbrev pub header_ver : ℕ
header_ver = 1

-- Bytes are numbers below 256; the arrays are lists of 16, 16 and 6 of them.
pub record BoardInfo : Type 0 where
  pub reserved : ℕ
  pub crc32 : ℕ
  pub hdr_version : ℕ
  pub hw_version : ℕ
  pub factory_date : ℕ
  pub factory_serial : List ℕ
  pub product_name : List ℕ
  pub mac : List ℕ

-- Crate `bytes`: big-endian and little-endian writers.
abbrev pub put_u16 : ℕ → List ℕ
put_u16 x = (x / 256 % 256) ∷ (x % 256) ∷ []

abbrev pub put_u16_le : ℕ → List ℕ
put_u16_le x = (x % 256) ∷ (x / 256 % 256) ∷ []

abbrev pub put_u32 : ℕ → List ℕ
put_u32 x = (x / 16777216 % 256) ∷ (x / 65536 % 256) ∷ (x / 256 % 256) ∷ (x % 256) ∷ []

-- `from_bytes`. A buffer that is too short panics in the source, here `none`; `load` reads 50 bytes.
unfoldable pub from_bytes : List ℕ → Option BoardInfo
from_bytes (r1 ∷ r0 ∷ c3 ∷ c2 ∷ c1 ∷ c0 ∷ h0 ∷ h1 ∷ w0 ∷ w1 ∷ d0 ∷ d1 ∷ rest) =
    if length (take 38 rest) == 38
    then some (record {
      reserved = r1 * 256 + r0;
      crc32 = c3 * 16777216 + c2 * 65536 + c1 * 256 + c0;
      hdr_version = h0 + h1 * 256;
      hw_version = w0 + w1 * 256;
      factory_date = d0 + d1 * 256;
      factory_serial = take 16 rest;
      product_name = take 16 (drop 16 rest);
      mac = take 6 (drop 32 rest);
    })
    else none
from_bytes _ = none

-- `serial.as_bytes().take(16)` into 16 zero bytes.
unfoldable pub padded : List ℕ → List ℕ
padded text = let kept = take 16 text in kept ++ replicate (16 - length kept) 0

unfoldable pub set_hw_version : ℕ → BoardInfo → BoardInfo
set_hw_version v b = record b { hw_version = v }

unfoldable pub set_factory_date : ℕ → BoardInfo → BoardInfo
set_factory_date days b = record b { factory_date = days }

unfoldable pub set_factory_serial : List ℕ → BoardInfo → BoardInfo
set_factory_serial text b = record b { factory_serial = padded text }

unfoldable pub set_product_name : List ℕ → BoardInfo → BoardInfo
set_product_name text b = record b { product_name = padded text }

-- `decoded` is what crate `hex` makes of the text: six bytes or an error.
unfoldable pub set_mac : Option (List ℕ) → BoardInfo → Option BoardInfo
set_mac none b = none
set_mac (some bytes) b = some (record b { mac = bytes })

-- The bytes behind the checksum.
abbrev pub payload : BoardInfo → List ℕ
payload b =
    put_u16_le header_ver
    ++ (put_u16_le b.hw_version
        ++ (put_u16_le b.factory_date ++ (b.factory_serial ++ (b.product_name ++ b.mac))))

-- `checksum` is crate `crc32fast`. The bytes that `write_back` sends to the device, and the record
-- after it.
module _ (checksum : List ℕ → ℕ) where
  unfoldable pub write_back : BoardInfo → List ℕ × BoardInfo
  write_back b =
      let bytes = put_u16 b.reserved ++ (put_u32 b.crc32 ++ payload b) in
      let crc = checksum (drop 6 bytes) in
      (take 2 bytes ++ (put_u32 crc ++ drop 6 bytes), record b { crc32 = crc })

  -- Against the 50 bytes that the device gives.
  unfoldable pub verify_eeprom : List ℕ → BoardInfo → Bool
  verify_eeprom bytes b = b.crc32 == checksum (drop 6 (take boardinfo_size bytes))

pub record Version : Type 0 where
  pub major : ℕ
  pub minor : ℕ
  pub patch : ℕ

-- The three numbers of `parse_version_field`, before they are printed.
unfoldable pub parse_version_field : ℕ → Version
parse_version_field version = record {
  major = version / 2 ^ 11;
  minor = bit_and (version / 2 ^ 6) 0x1F;
  patch = bit_and version 0x3F;
}
