-- ===== src/Hal.antt =====
-- bmcd/src/hal.rs: the node identifiers, the USB routes and modes, and their conversions.
pub mod Helpers
pub mod Device
pub mod Pins
pub mod Power
pub mod Ids
pub mod Setup
use tpi_bmcd.Base.{
  Result, ok, err, zero, suc, ℕ, ◌^◌, Option, none, some, Bool, true, false, bit_and, ◌==◌,
}
use tpi_bmcd.Base.Signed.{ℤ, low_bits}
use tpi_bmcd.Base.Bits.{not_u8}

pub data NodeId : Type 0 where
  node1 node2 node3 node4 : NodeId

pub data UsbRoute : Type 0 where
  bmc alternative_port : UsbRoute

pub data UsbMode : Type 0 where
  host device flash : UsbMode

-- `self as u8`
unfoldable pub to_u8 : NodeId → ℕ
to_u8 node1 = 0
to_u8 node2 = 1
to_u8 node3 = 2
to_u8 node4 = 3

-- The error is the message "node id {x} does not exist".
pub data NoSuchNode : Type 0 where
  does_not_exist : ℕ → NoSuchNode

unfoldable pub try_from_u8 : ℕ → Result NoSuchNode NodeId
try_from_u8 zero = ok node1
try_from_u8 (suc zero) = ok node2
try_from_u8 (suc (suc zero)) = ok node3
try_from_u8 (suc (suc (suc zero))) = ok node4
try_from_u8 x = err (does_not_exist x)

-- `value as u8` keeps the low eight bits of the `i32`.
unfoldable pub try_from_i32 : ℤ → Result NoSuchNode NodeId
unfolding try_from_u8
try_from_i32 value = try_from_u8 (low_bits value 256)

unfoldable pub to_bitfield : NodeId → ℕ
unfolding to_u8
to_bitfield n = 2 ^ to_u8 n

unfoldable pub to_inverse_bitfield : NodeId → ℕ
unfolding to_u8
to_inverse_bitfield n = bit_and 0b1111 (not_u8 (2 ^ to_u8 n))

-- `none` is the panic of `unreachable!()`.
unfoldable pub mode_of : ℕ → Option UsbMode
mode_of zero = some host
mode_of (suc zero) = some device
mode_of (suc (suc zero)) = some flash
mode_of _ = none

unfoldable pub from_api_mode : ℤ → Option UsbMode
unfolding mode_of
from_api_mode value = mode_of (low_bits value 4)

-- The derived `PartialEq`.
unfoldable pub is_flash : UsbMode → Bool
is_flash flash = true
is_flash _ = false

unfoldable pub is_host : UsbMode → Bool
is_host host = true
is_host _ = false
