-- ===== src/Tests/Records.antt =====
-- A board's record.
use tpi_bmcd.Base.{
  ◌⊎◌, ok, err, none, ℕ, ◌+◌, ◌*◌, ◌<◌, ◌≡◌, refl, true, some, List, [], ◌∷◌, length, replicate,
  Result, ◌++◌, arith,
}
use tpi_bmcd.Board.{BoardInfo, from_bytes, write_back, verify_eeprom, parse_version_field}
use tpi_bmcd.Board.Laws.{IsWellFormed, from_bytes-write_back}
use tpi_bmcd.Board.Values.{mac, value_of, load, find_i2c_device, I2cDevice, unexpected_end}
use tpi_bmcd.Board.Values.Laws.{load_lem, read_pairs}
use tpi_bmcd.Board.VersionField.{parse_version_field_lem}

abbrev board : BoardInfo
board = record {
  reserved = 0;
  crc32 = 0;
  hdr_version = 1;
  hw_version = 4160;
  factory_date = 30;
  factory_serial = replicate 16 65;
  product_name = replicate 16 66;
  mac = 2 ∷ 0 ∷ 0 ∷ 0 ∷ 0 ∷ 1 ∷ [];
}

abbrev byte_count : List ℕ → ℕ
byte_count bytes = length bytes

board-IsWellFormed : IsWellFormed board
board-IsWellFormed = record {
  reserved = omega arith;
  hw_version = omega arith;
  factory_date = omega arith;
  factory_serial = refl;
  product_name = refl;
  mac = refl;
}

from_bytes-write_back_example :
    let (bytes, b') = write_back byte_count board in
    (from_bytes bytes ≡ some (record board { crc32 = 44; hdr_version = 1 }))
    × (length bytes ≡ 50)
    × (verify_eeprom byte_count bytes b' ≡ true)
from_bytes-write_back_example =
    from_bytes-write_back byte_count board board-IsWellFormed (omega arith)

-- 4160 is version 2.1.0.
parse_version_field_lem_example :
    let r = parse_version_field 4160 in
    (r.major < 32)
    × (r.minor < 32)
    × (r.patch < 64)
    × (r.major * 2048 + r.minor * 64 + r.patch ≡ 4160)
parse_version_field_lem_example = parse_version_field_lem 4160 (omega arith)

-- A device without an eeprom, and one with the bytes 0 to 9 five times and two more.
abbrev digits : List ℕ
digits = 0 ∷ 1 ∷ 2 ∷ 3 ∷ 4 ∷ 5 ∷ 6 ∷ 7 ∷ 8 ∷ 9 ∷ []

abbrev stored : List ℕ
stored = digits ++ (digits ++ (digits ++ (digits ++ (digits ++ (250 ∷ 251 ∷ [])))))

abbrev bus : List (Result ℕ I2cDevice)
bus =
    ok (record { name = "0-0051"; eeprom = none })
    ∷ ok (record { name = "0-0050"; eeprom = some (ok stored) })
    ∷ []

found : find_i2c_device bus ≡ ok (ok stored)
unfolding find_i2c_device
found = refl

load_lem_example :
    ((length stored < 50) × (load (ok bus) ≡ some (err unexpected_end)))
    ⊎ ((b : BoardInfo) × (load (ok bus) ≡ some (ok b))
        × (read_pairs (value_of (λ bytes. "") (λ days. "") mac b) ≡ 4 ∷ 5 ∷ 6 ∷ 7 ∷ 8 ∷ 9 ∷ []))
load_lem_example = load_lem (λ bytes. "") (λ days. "") bus stored found (omega arith)
