-- ===== src/UsbBoot.antt =====
-- bmcd/src/usb_boot.rs and usb_boot/: which driver serves the node on the USB bus, and the boot
-- entries of the Rockchip loader. Crates `rusb`, `rustpiboot` and `rockfile` are parameters.
pub mod Laws
pub mod Drivers
use tpi_bmcd.Base.{
  ℕ, zero, suc, ◌+◌, ◌%◌, ◌^◌, ◌==◌, ltb, ◌&&◌, Bool, true, false, if◌then◌else◌, Option, none,
  some, List, [], ◌∷◌, Result, ok, err, take, drop, length,
}
use tpi_bmcd.Utils.Io.{Bytes}

abbrev pub VidPid : Type 0
VidPid = ℕ × ℕ

pub data UsbBootError : Type 0 where
  not_supported : UsbBootError
  rusb_error : ℕ → UsbBootError

-- The trait object `Box<dyn UsbBoot>`.
pub data Backend : Type 0 where
  rpi_boot rockusb_boot : Backend

abbrev same_id : VidPid → VidPid → Bool
same_id (v, p) (v', p') = v == v' && p == p'

unfoldable pub is_supported : Backend → VidPid → Bool
is_supported rpi_boot vid_pid = same_id vid_pid (0x0a5c, 0x2711)
is_supported rockusb_boot vid_pid = same_id vid_pid (0x2207, 0x350b)

-- `NodeDrivers::new`
abbrev pub backends : List Backend
backends = rpi_boot ∷ rockusb_boot ∷ []

-- A device on the bus: its ids, if its descriptor can be loaded.
abbrev pub Device : Type 0
Device = Option VidPid

abbrev pub supports : Backend → Device → Bool
supports backend none = false
supports backend (some vid_pid) = is_supported backend vid_pid

unfoldable pub first_device : Backend → List Device → Option Device
first_device backend [] = none
first_device backend (dev ∷ devices) =
    let rest = first_device backend devices in if supports backend dev then some dev else rest

unfoldable pub first_backend : List Backend → List Device → Option (Device × Backend)
first_backend [] devices = none
first_backend (backend ∷ others) devices = elim (first_device backend devices) [
  | some dev ↦ some (dev, backend)
  | none ↦ first_backend others devices
]

abbrev found : Option (Device × Backend) → Result UsbBootError (Device × Backend)
found none = err not_supported
found (some x) = ok x

-- `rusb::devices` may fail.
unfoldable pub find_first :
    Result UsbBootError (List Device) → Result UsbBootError (Device × Backend)
find_first (err e) = err e
find_first (ok devices) = found (first_backend backends devices)

pub data BootMode : Type 0 where
  maskrom loader : BootMode

-- `From<DeviceDescriptor>`, on the last digit of the USB version.
unfoldable pub boot_mode : ℕ → BootMode
boot_mode sub_minor = if sub_minor % 2 == 0 then maskrom else loader

-- `RkBootEntry` and `RkBootHeaderEntry` of crate `rockfile`, as far as they are used.
pub record BootEntry : Type 0 where
  pub size : ℕ
  pub data_offset : ℕ
  pub data_size : ℕ
  pub data_delay : ℕ

pub record BootHeaderEntry : Type 0 where
  pub count : ℕ
  pub offset : ℕ
  pub entry_size : ℕ

-- `&blob[start..end]`; `none` is the panic of an end behind the blob.
abbrev pub slice : Bytes → ℕ → ℕ → Option Bytes
slice blob begin size =
    if ltb (length blob) (begin + size) then none else some (take size (drop begin blob))

abbrev pub BootData : Type 0
BootData = ℕ × ℕ × Bytes

abbrev pub prepend : Option BootData → Option (List BootData) → Option (List BootData)
prepend (some x) (some xs) = some (x ∷ xs)
prepend _ _ = none

abbrev pub tagged : ℕ → ℕ → Option Bytes → Option BootData
tagged entry_type delay none = none
tagged entry_type delay (some bytes) = some (entry_type, delay, bytes)

-- `parse_boot_entry` is the first argument: the entry at a place of the blob, `none` if it ends behind
-- the blob.
module _ (parse_boot_entry : ℕ → Option BootEntry) (blob : Bytes) where
  -- The loop, with the start of the range; an entry of size 0 does not move the range.
  unfoldable pub boot_entries : ℕ → ℕ → ℕ → ℕ → Option (List BootData)
  boot_entries entry_type step zero start = some []
  boot_entries entry_type step (suc count) start = elim (parse_boot_entry start) [
    | none ↦ none
    | some entry ↦
        (let again = boot_entries entry_type step count start in
          let next = boot_entries entry_type step count ((start + step) % 2 ^ 32) in
          if entry.size == 0
          then again
          else prepend
              (tagged entry_type entry.data_delay (slice blob entry.data_offset entry.data_size))
              next)
  ]

  unfoldable pub parse_boot_header_entry : ℕ → BootHeaderEntry → Option (List BootData)
  parse_boot_header_entry entry_type header =
      boot_entries entry_type header.entry_size header.count header.offset
