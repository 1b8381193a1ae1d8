-- ===== src/Utils/Devices.antt =====
-- `get_device_path` of bmcd/src/utils.rs.
use Prim.Native.String.{String, ◌++◌}
use tpi_bmcd.Base.Text.{trim}
use tpi_bmcd.Base.{
  if◌then◌else◌, str_eq, Option, some, List, [], ◌∷◌, ◌++◌ as ◌+++◌, Result, ok, err,
}
use tpi_bmcd.Utils.Io.{IoError}

-- An entry of /sys/block: its name, if it is a text, and what its device/vendor holds, if it can be read.
pub record BlockDevice : Type 0 where
  pub name : Option String
  pub vendor : Option String

pub data DevicePathError : Type 0 where
  no_device several_devices : DevicePathError
  device_io : IoError → DevicePathError

-- A name is pushed for each allowed vendor that it has.
abbrev pushed : List String → String → String → List String
pushed [] vendor name = []
pushed (allowed ∷ vendors) vendor name =
    let rest = pushed vendors vendor name in if str_eq vendor allowed then name ∷ rest else rest

abbrev matches : List String → Option String → Option String → List String
matches vendors (some name) (some vendor) = pushed vendors (trim vendor) name
matches vendors _ _ = []

-- The listing may break off with an error.
unfoldable pub matching_devices :
    List String → List (Result IoError BlockDevice) → Result IoError (List String)
matching_devices vendors [] = ok []
matching_devices vendors (err e ∷ entries) = err e
matching_devices vendors (ok device ∷ entries) = elim (matching_devices vendors entries) [
  | ok names ↦ ok (matches vendors device.name device.vendor +++ names)
  | err e ↦ err e
]

-- The path is still to be made canonical by the file system.
unfoldable pub get_device_path :
    List String → Result IoError (List (Result IoError BlockDevice)) → Result DevicePathError String
get_device_path vendors (err e) = err (device_io e)
get_device_path vendors (ok entries) = elim (matching_devices vendors entries) [
  | err e ↦ err (device_io e)
  | ok [] ↦ err no_device
  | ok (name ∷ []) ↦ ok ("/dev/" ++ name)
  | ok (a ∷ b ∷ rest) ↦ err several_devices
]
