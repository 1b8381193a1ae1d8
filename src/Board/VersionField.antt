-- ===== src/Board/VersionField.antt =====
-- The version field as three numbers.
use tpi_bmcd.Base.{ℕ, ◌+◌, ◌*◌, ◌<◌, ◌≡◌, ◌/◌, ◌^◌, arith}
use tpi_bmcd.Base.Bits.{bit_and_low5, bit_and_low6}
use tpi_bmcd.Board.{parse_version_field}

-- The largest version that a field of 16 bits can hold is 31.31.63, and the three numbers give the
-- field back.
pub parse_version_field_lem :
    (v : ℕ)
    → v < 2 ^ 16
    → let r = parse_version_field v in
      (r.major < 32)
      × (r.minor < 32)
      × (r.patch < 64)
      × (r.major * 2048 + r.minor * 64 + r.patch ≡ v)
unfolding parse_version_field
parse_version_field_lem v h = omega (arith, bit_and_low5 (v / 2 ^ 6), bit_and_low6 v)
