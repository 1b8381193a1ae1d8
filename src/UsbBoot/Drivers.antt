-- ===== src/UsbBoot/Drivers.antt =====
-- bmcd/src/usb_boot/rockusb.rs, rpiboot.rs and usb_boot.rs: how a driver turns the node on the USB bus
-- into a block device. Crates `rusb`, `rockusb`, `rockfile` and `rustpiboot` answer from a bus.
pub mod Laws
use tpi_bmcd.Base.{ℕ, String, Option, none, some, List, [], ◌∷◌, ◌++◌, Result, ok, err}
use tpi_bmcd.Base.Exec.{Exec, pure, raise, ◌>>=◌, ◌>>◌}
use tpi_bmcd.Utils.Io.{Bytes, IoError}
use tpi_bmcd.Utils.Devices.{BlockDevice, DevicePathError, get_device_path}
use tpi_bmcd.UsbBoot.{
  UsbBootError, Device, Backend, rpi_boot, rockusb_boot, find_first, BootMode, maskrom, loader,
  boot_mode, BootEntry, BootHeaderEntry, BootData, parse_boot_header_entry,
}

-- What is tried on the bus.
pub data UsbOp : Type 0 where
  open_device : UsbOp
  write_maskrom_area : ℕ → Bytes → UsbOp
  sleep_ms : ℕ → UsbOp
  rustpiboot : UsbOp
  open_file : String → UsbOp

-- `internal` is `InternalError` with the text of what it wraps, `corrupt_header` the one of a text of
-- its own, and `panicked` a slice that ends behind the loader.
pub data DriverError : Type 0 where
  usb : UsbBootError → DriverError
  internal : ℕ → DriverError
  no_path : DevicePathError → DriverError
  io_error : ℕ → DriverError
  corrupt_header panicked : DriverError

-- The operations that were tried, in their order.
abbrev pub Ops : Type 0
Ops = List UsbOp

abbrev pub Boot : Type 0 → Type 0
Boot A = Exec Ops DriverError A

-- The loader for RK3588, as crate `rockfile` reads it: its two entries, if the header is intact, and
-- the boot entry at a place, if it does not end behind the loader.
pub record Loader : Type 0 where
  pub blob : Bytes
  pub header : Option (BootHeaderEntry × BootHeaderEntry)
  pub parse_boot_entry : ℕ → Option BootEntry

-- The last digit of the USB version in the descriptor of a device, how an operation fails after those
-- before it, and what /sys/block lists then.
pub record Bus : Type 0 where
  pub sub_minor : Device → Result UsbBootError ℕ
  pub outcome : Ops → UsbOp → Option DriverError
  pub block : Ops → Result IoError (List (Result IoError BlockDevice))

unfoldable pub both : Option (List BootData) → Option (List BootData) → Option (List BootData)
both (some a) (some b) = some (a ++ b)
both _ _ = none

-- Both lists are made before either is used.
unfoldable pub parse_boot_entries : Loader → Result DriverError (List BootData)
unfolding both
parse_boot_entries file = elim file.header [
  | none ↦ err corrupt_header
  | some (entry_471, entry_472) ↦
      (elim (both (parse_boot_header_entry file.parse_boot_entry file.blob 0x471 entry_471)
        (parse_boot_header_entry file.parse_boot_entry file.blob 0x472 entry_472)) [
          | none ↦ err panicked
          | some entries ↦ ok entries
        ])
]

module _ (bus : Bus) where
  unfoldable pub try_op : UsbOp → Boot (Unit {0})
  try_op op ops = elim (bus.outcome ops op) [
    | none ↦ (ok tt, ops ++ (op ∷ []))
    | some e ↦ (err e, ops ++ (op ∷ []))
  ]

  -- A pause always returns.
  abbrev pub pause : ℕ → Boot (Unit {0})
  pause ms ops = (ok tt, ops ++ (sleep_ms ms ∷ []))

  unfoldable pub load_boot_entries : List BootData → Boot (Unit {0})
  unfolding try_op
  load_boot_entries [] = pure tt
  load_boot_entries ((area, delay, bytes) ∷ entries) = do
    try_op (write_maskrom_area area bytes)
    pause delay
    load_boot_entries entries

  abbrev parsed : Result DriverError (List BootData) → Boot (List BootData)
  parsed r ops = (r, ops)

  unfoldable pub download_boot : Loader → Boot (Unit {0})
  unfolding load_boot_entries parse_boot_entries
  download_boot file = do
    boot_entries ← parsed (parse_boot_entries file)
    load_boot_entries boot_entries
    pause 5000

  abbrev pub device_path : List String → Boot String
  device_path vendors ops = elim (get_device_path vendors (bus.block ops)) [
    | ok path ↦ (ok path, ops)
    | err e ↦ (err (no_path e), ops)
  ]

  abbrev pub plugged : Loader → BootMode → Boot (Unit {0})
  plugged file maskrom = do try_op open_device; download_boot file
  plugged file loader = pure tt

  abbrev pub with_descriptor : Loader → Result UsbBootError ℕ → Boot (Unit {0})
  with_descriptor file (err e) = raise (usb e)
  with_descriptor file (ok sub_minor) = plugged file (boot_mode sub_minor)

  -- `RockusbBoot::load_as_block_device`
  unfoldable pub rockusb_load_as_block_device : Loader → Device → Boot String
  unfolding try_op download_boot boot_mode
  rockusb_load_as_block_device file device = do
    with_descriptor file (bus.sub_minor device)
    device_path ("Rockchip" ∷ [])

  unfoldable pub load_rpi_boot : Boot (Unit {0})
  unfolding try_op
  load_rpi_boot = do try_op rustpiboot; pause 3000

  -- `RpiBoot::load_as_block_device`
  unfoldable pub rpi_load_as_block_device : Boot String
  unfolding load_rpi_boot
  rpi_load_as_block_device = do load_rpi_boot; device_path ("RPi-MSD-" ∷ [])

  unfoldable pub backend_load_as_block_device : Loader → Backend → Device → Boot String
  unfolding rockusb_load_as_block_device rpi_load_as_block_device
  backend_load_as_block_device file rockusb_boot device = rockusb_load_as_block_device file device
  backend_load_as_block_device file rpi_boot device = rpi_load_as_block_device

  -- The trait's `load_as_stream`: the path of the file that it opens.
  unfoldable pub backend_load_as_stream : Loader → Backend → Device → Boot String
  unfolding backend_load_as_block_device try_op
  backend_load_as_stream file driver device = do
    path ← backend_load_as_block_device file driver device
    try_op (open_file path)
    pure path

  abbrev found : Result UsbBootError (List Device) → Boot (Device × Backend)
  found devices ops = elim (find_first devices) [ ok x ↦ (ok x, ops) | err e ↦ (err (usb e), ops) ]

  -- `NodeDrivers::load_as_block_device`
  unfoldable pub load_as_block_device : Loader → Result UsbBootError (List Device) → Boot String
  unfolding backend_load_as_block_device
  load_as_block_device file devices = do
    (device, driver) ← found devices
    backend_load_as_block_device file driver device

  -- `NodeDrivers::load_as_stream`
  unfoldable pub load_as_stream : Loader → Result UsbBootError (List Device) → Boot String
  unfolding backend_load_as_stream
  load_as_stream file devices = do
    (device, driver) ← found devices
    backend_load_as_stream file driver device
