-- ===== src/App/Thermal.antt =====
-- bmcd/src/app/cooling_device.rs: what the daemon reads of the cooling devices under
-- /sys/class/thermal, and what the file that it writes does to them.
pub mod Laws
use tpi_bmcd.Base.{
  ℕ, Bool, true, false, if◌then◌else◌, String, str_eq, Option, none, some, List, [], ◌∷◌,
  filter_map, map,
}
use tpi_bmcd.Base.Results.{unwrap_or}
use tpi_bmcd.Base.Text.{starts_with, trim, replace_char, parse_unsigned}
use mathlib.Core.Option
use tpi_bmcd.Hal.Device.{CoolingDevice, Trace, Event, did, failed, Effect, write_cooling}

-- An entry of /sys/class/thermal: its name, and the contents of its files, if they can be read.
pub record ThermalEntry : Type 0 where
  pub file_name : String
  pub typ : Option String
  pub cur_state : Option String
  pub max_state : Option String

-- The directory of the driver pwm-fan: the name of each entry, with whether it is a directory.
-- `none` is a listing that fails, at once or at an entry.
abbrev pub DriverDir : Type 0
DriverDir = Option (List (String × Bool))

abbrev node_of : String × Bool → Option String
node_of (name, is_dir) = if is_dir then some name else none

unfoldable pub get_pwm_fan_nodes : DriverDir → Option (List String)
get_pwm_fan_nodes dir = Option.map (filter_map node_of) dir

abbrev first : Option (List String) → Option String
first (some (name ∷ _)) = some name
first _ = none

unfoldable pub is_system_fan : DriverDir → ThermalEntry → Option String
is_system_fan dir entry = elim entry.typ [
  | none ↦ none
  | some typ ↦ if str_eq (trim typ) "pwm-fan" then first (get_pwm_fan_nodes dir) else none
]

-- `c_ulong` has `bound` values.
module _ (bound : ℕ) where
  -- A file that cannot be read or is no number counts as 0.
  abbrev pub state_of : Option String → ℕ
  state_of none = 0
  state_of (some text) = unwrap_or (parse_unsigned bound (trim text)) 0

  abbrev pub shown_name : DriverDir → ThermalEntry → String
  shown_name dir entry = elim (is_system_fan dir entry) [
    | none ↦ entry.file_name
    | some name ↦ replace_char b'-' " " name
  ]

  abbrev pub cooling_device : DriverDir → ThermalEntry → Option CoolingDevice
  cooling_device dir entry =
      if starts_with entry.file_name "cooling_device"
      then some (record {
        name = shown_name dir entry;
        speed = state_of entry.cur_state;
        max_speed = state_of entry.max_state;
      })
      else none

  -- `none` is a directory that cannot be read; an entry that cannot be read ends the list.
  unfoldable pub get_cooling_state : DriverDir → Option (List ThermalEntry) → List CoolingDevice
  get_cooling_state dir none = []
  get_cooling_state dir (some entries) = filter_map (cooling_device dir) entries

-- A speed that the kernel took is what the file of the device shows then.
module _ (kernel_text : ℕ → String) where
  abbrev pub written : String → ℕ → ThermalEntry → ThermalEntry
  written device speed entry =
      if str_eq entry.file_name device
      then record entry { cur_state = some (kernel_text speed) }
      else entry

  abbrev pub apply_effect : Effect → Option (List ThermalEntry) → Option (List ThermalEntry)
  apply_effect (write_cooling device speed) thermal =
      Option.map (map (written device speed)) thermal
  apply_effect _ thermal = thermal

  -- The directory after what the daemon has done.
  unfoldable pub thermal_after : Trace → Option (List ThermalEntry) → Option (List ThermalEntry)
  thermal_after [] thermal = thermal
  thermal_after (did e ∷ t) thermal = apply_effect e (thermal_after t thermal)
  thermal_after (failed e ∷ t) thermal = thermal_after t thermal
