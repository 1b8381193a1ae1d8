-- ===== src/Hal/Device.antt =====
-- The board as the daemon sees it: GPIO lines (crate `gpiod`), files under /sys and services. None of
-- it is under bmcd/, so an environment answers each access; what was tried is kept as a trace.
use tpi_bmcd.Base.{
  ℕ, Bool, true, false, Option, none, some, List, [], ◌∷◌, Result, ok, err, String, if◌then◌else◌,
  ◌==◌,
}
use tpi_bmcd.Base.Exec.{Exec}

-- The output lines that `PinController` and `PowerController` request.
pub data Line : Type 0 where
  usb_mux usb_vbus output_switch node1_source : Line
  rpi_boot enable : ℕ → Line

-- The files that the daemon writes. `node_power k` is /sys/bus/platform/devices/node{k}-power/state.
pub data Target : Type 0 where
  usb_port_power sysfs_power sysfs_reset : Target
  node_power : ℕ → Target

pub data GadgetCmd : Type 0 where
  start stop : GadgetCmd

pub data Effect : Type 0 where
  set_values : Line → ℕ → Effect
  write_file : Target → String → Effect
  sleep_ms : ℕ → Effect
  -- /etc/init.d/S11bmc-otg, and its files in the USB gadget's directory
  gadget_service : GadgetCmd → Effect
  remove_msd_link create_msd_dir open_lun symlink_msd : Effect
  write_lun : String → Effect
  -- /dev/mem, and `shutdown -r now`
  open_mem write_fel_magic spawn_shutdown : Effect
  -- the thermal device's cur_state
  write_cooling : String → ℕ → Effect
  -- `SystemTime::now`
  read_clock : Effect
  -- `NodeDrivers::load_as_block_device` and `load_as_stream`
  load_block_device load_stream : Effect

-- What comes back from a failing access, and the errors that bmcd adds to it. `PowerControllerError`
-- converts into `anyhow::Error`; the texts of contexts are left out.
pub data Fault : Type 0 where
  node1_usb_not_applicable host_mode_not_supported : Fault
  mask_is_zero clock_before_epoch : Fault
  no_gadget no_cooling_device speed_exceeds_max : Fault
  io : ℕ → Fault

pub data Event : Type 0 where
  did failed : Effect → Event

-- The newest event first.
abbrev pub Trace : Type 0
Trace = List Event

-- A thermal device as `get_cooling_state` reports it.
pub record CoolingDevice : Type 0 where
  pub name : String
  pub speed : ℕ
  pub max_speed : ℕ

-- Answers may depend on all that has been tried before.
pub record Env : Type 0 where
  -- `none` is success
  pub outcome : Trace → Effect → Option Fault
  -- whether configs/c.1/mass_storage.0 exists
  pub msd_link_exists : Trace → Bool
  -- whether the gadget's directory exists
  pub gadget_exists : Trace → Bool
  -- whether the gadget's UDC file names a controller
  pub gadget_running : Trace → Result Fault Bool
  -- seconds since the epoch, `none` before it
  pub timestamp : Trace → Option ℕ
  -- the block device of the node that a USB driver has loaded
  pub block_device : Trace → String
  -- the devices under /sys/class/thermal
  pub cooling_devices : Trace → List CoolingDevice
  -- std's `DefaultHasher` on a device name
  pub hash : String → ℕ

-- An access that may fail.
unfoldable pub perform : Env → Effect → Exec Trace Fault (Unit {0})
perform env e t = elim (env.outcome t e) [
  | none ↦ (ok tt, did e ∷ t)
  | some f ↦ (err f, failed e ∷ t)
]

-- A board on which nothing fails.
abbrev pub flawless : Env
flawless = record {
  outcome = λ t e. none;
  msd_link_exists = λ t. false;
  gadget_exists = λ t. true;
  gadget_running = λ t. ok true;
  timestamp = λ t. some 1000;
  block_device = λ t. "/dev/sda";
  cooling_devices = λ t. record { name = "system fan"; speed = 1; max_speed = 10 } ∷ [];
  hash = λ s. 7;
}

abbrev pub same_line : Line → Line → Bool
same_line usb_mux usb_mux = true
same_line usb_vbus usb_vbus = true
same_line output_switch output_switch = true
same_line node1_source node1_source = true
same_line (rpi_boot i) (rpi_boot j) = i == j
same_line (enable i) (enable j) = i == j
same_line _ _ = false

-- The value that a line was last set to.
unfoldable pub level : Line → Trace → Option ℕ
level l [] = none
level l (did (set_values k v) ∷ t) = if same_line k l then some v else level l t
level l (_ ∷ t) = level l t
