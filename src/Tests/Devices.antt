-- ===== src/Tests/Devices.antt =====
-- A board of version 2.5, its fan, and a Rockchip module on the USB bus.
use tpi_bmcd.Base.{
  ℕ, ◌≡◌, refl, ◌==◌, true, false, if◌then◌else◌, String, str_eq, none, some, List, [], ◌∷◌, ok,
}
use tpi_bmcd.Base.Assoc.{lookup, insert, remove, text_key}
use tpi_bmcd.Base.Text.{starts_with, trim, parse_unsigned, digits_value, unsigned, replace_char}
use tpi_bmcd.Hal.Device.{Env, CoolingDevice, perform, flawless}
use tpi_bmcd.Hal.Setup.{
  Board, Chip, Lines, PinLines, PowerLines, usb_hub, new_controllers, load_lines, collect,
}
use tpi_bmcd.Hal.Setup.Labels.{labels, lines_of, Distinct}
use tpi_bmcd.Hal.Setup.Laws.{held_labels, new_controllers_lem}
use tpi_bmcd.App.Cooling.{set_cooling_state, find_device}
use tpi_bmcd.App.Thermal.{
  ThermalEntry, DriverDir, get_cooling_state, is_system_fan, get_pwm_fan_nodes, thermal_after,
}
use tpi_bmcd.App.Thermal.Laws.{get_cooling_state-set_cooling_state}
use tpi_bmcd.Utils.Devices.{get_device_path, matching_devices}
use tpi_bmcd.UsbBoot.{
  Device, BootEntry, boot_mode, find_first, first_backend, first_device, is_supported, boot_entries,
  parse_boot_header_entry,
}
use tpi_bmcd.UsbBoot.Drivers.{
  open_device, write_maskrom_area, sleep_ms, Ops, Loader, Bus, load_as_block_device,
  backend_load_as_block_device, rockusb_load_as_block_device, download_boot, load_boot_entries,
  parse_boot_entries, try_op, both,
}
use tpi_bmcd.UsbBoot.Drivers.Laws.{Prepared, load_as_block_device_lem}

abbrev chip2 : Chip
chip2 =
    some "node1-en"
    ∷ some "node2-en"
    ∷ some "node3-en"
    ∷ some "node4-en"
    ∷ none
    ∷ some "node1-rpiboot"
    ∷ some "node2-rpiboot"
    ∷ some "node3-rpiboot"
    ∷ some "node4-rpiboot"
    ∷ []

abbrev pub v2_5 : Board
v2_5 = record {
  chip = λ path.
      if str_eq path "/dev/gpiochip0"
      then some []
      else if str_eq path "/dev/gpiochip2"
      then some chip2
      else none;
  grants = λ granted l. true;
  exists = λ path. true;
}

abbrev at2 : ℕ → Lines
at2 k = ("/dev/gpiochip2", k ∷ [])

abbrev pins : PinLines
pins = record {
  usb_switch = usb_hub ("/dev/gpiochip0", 194 ∷ []) ("/dev/gpiochip0", 192 ∷ 193 ∷ []);
  rpi_boot = at2 5 ∷ at2 6 ∷ at2 7 ∷ at2 8 ∷ [];
}

abbrev power : PowerLines
power = record {
  enable = at2 0 ∷ at2 1 ∷ at2 2 ∷ at2 3 ∷ [];
  sysfs_power = "/sys/class/leds/fp::power/brightness";
  sysfs_reset = "/sys/class/leds/fp::status/brightness";
}

abbrev requests : List Lines
requests =
    at2 3
    ∷ at2 2
    ∷ at2 1
    ∷ at2 0
    ∷ ("/dev/gpiochip0", 194 ∷ [])
    ∷ ("/dev/gpiochip0", 192 ∷ 193 ∷ [])
    ∷ at2 8
    ∷ at2 7
    ∷ at2 6
    ∷ at2 5
    ∷ []

new_controllers_lem_example :
    (labels v2_5 requests ≡ held_labels v2_5 false) × Distinct (lines_of requests)
unfolding new_controllers load_lines collect lookup insert remove
new_controllers_lem_example = new_controllers_lem v2_5 false pins power requests refl

-- The fan is the second cooling device.
abbrev entry : String → String → String → ThermalEntry
entry name typ cur = record {
  file_name = name;
  typ = some typ;
  cur_state = some cur;
  max_state = some "10\n";
}

abbrev fan_dir : DriverDir
fan_dir = some (("system-fan", true) ∷ ("bind", false) ∷ [])

abbrev thermal : List ThermalEntry
thermal = entry "cooling_device0" "cpufreq\n" "1\n" ∷ entry "cooling_device1" "pwm-fan\n" "2\n" ∷ []

abbrev kernel_text : ℕ → String
kernel_text n = if n == 7 then "7\n" else "0\n"

abbrev fans : Env
fans = record flawless {
  cooling_devices =
      λ t. get_cooling_state 4294967296 fan_dir (thermal_after kernel_text t (some thermal));
}

abbrev reports : String → ℕ → CoolingDevice
reports name speed = record { name = name; speed = speed; max_speed = 10 }

-- The speed of the fan is set, and the other device has it.
get_cooling_state-set_cooling_state_example :
    fans.cooling_devices (set_cooling_state fans "system fan" 7 []).1
    ≡ reports "cooling_device0" 7 ∷ reports "system fan" 2 ∷ []
unfolding is_system_fan get_pwm_fan_nodes get_cooling_state set_cooling_state thermal_after
    find_device starts_with trim parse_unsigned digits_value unsigned replace_char perform
get_cooling_state-set_cooling_state_example =
    get_cooling_state-set_cooling_state fans 4294967296 fan_dir kernel_text (some thermal)
      (λ t. refl) "system fan" 7 [] refl refl

-- A loader with one entry in the first area.
abbrev boot_entry : BootEntry
boot_entry = record { size = 57; data_offset = 1; data_size = 2; data_delay = 10 }

abbrev spl : Loader
spl = record {
  blob = 9 ∷ 8 ∷ 7 ∷ [];
  header = some (
    record { count = 1; offset = 0; entry_size = 57 },
    record { count = 0; offset = 57; entry_size = 57 },
  );
  parse_boot_entry = λ place. some boot_entry;
}

abbrev bus : Bus
bus = record {
  sub_minor = λ device. ok 0;
  outcome = λ ops op. none;
  block = λ ops. ok (ok (record { name = some "sda"; vendor = some "Rockchip \n" }) ∷ []);
}

abbrev rk3588 : Device
rk3588 = some (0x2207, 0x350b)

abbrev tried : Ops
tried = open_device ∷ write_maskrom_area 0x471 (8 ∷ 7 ∷ []) ∷ sleep_ms 10 ∷ sleep_ms 5000 ∷ []

load_as_block_device_lem_example :
    (sub_minor : ℕ) × (bus.sub_minor rk3588 ≡ ok sub_minor)
    × Prepared bus spl (boot_mode sub_minor) tried
    × (get_device_path ("Rockchip" ∷ []) (bus.block tried) ≡ ok "/dev/sda")
unfolding load_as_block_device backend_load_as_block_device rockusb_load_as_block_device find_first
    first_backend first_device is_supported get_device_path matching_devices trim download_boot
    load_boot_entries parse_boot_entries parse_boot_header_entry boot_entries try_op both boot_mode
load_as_block_device_lem_example =
    load_as_block_device_lem bus spl (ok (rk3588 ∷ [])) rk3588 "/dev/sda" refl refl
