-- ===== src/Hal/Setup.antt =====
-- The constructors of bmcd/src/hal/pin_controller.rs and power_controller.rs, with hal/helpers.rs and
-- hal/gpio_definitions.rs: which GPIO lines the daemon finds and requests. Crate `gpiod` is a board.
pub mod Labels
pub mod Laws
pub mod Steps
use tpi_bmcd.Base.{
  ℕ, ◌+◌, Bool, true, false, if◌then◌else◌, String, Option, none, some, List, [], ◌∷◌, Result, ok,
  err,
}
use tpi_bmcd.Base.Assoc.{lookup, insert, text_key}
use tpi_bmcd.Base.Exec.{Exec, pure, raise, ◌>>=◌, ◌>>◌}

abbrev gpio_pin_pg : ℕ
gpio_pin_pg = 192

abbrev pub usb_sel1 : ℕ
usb_sel1 = gpio_pin_pg + 1

abbrev pub usb_sel2 : ℕ
usb_sel2 = gpio_pin_pg

abbrev pub usb_oe1 : ℕ
usb_oe1 = gpio_pin_pg + 2

abbrev pub usb_oe2 : ℕ
usb_oe2 = gpio_pin_pg + 3

abbrev pub usb_switch_line : ℕ
usb_switch_line = gpio_pin_pg + 5

abbrev pub usb_switch_v2_5 : ℕ
usb_switch_v2_5 = gpio_pin_pg + 2

abbrev pub node1_output_switch_v2_5 : ℕ
node1_output_switch_v2_5 = gpio_pin_pg

abbrev pub node1_source_switch_v2_5 : ℕ
node1_source_switch_v2_5 = gpio_pin_pg + 1

-- The lines of a chip by their offsets: the name of each, if its info can be read.
abbrev pub Chip : Type 0
Chip = List (Option String)

-- Some lines of the chip at a path, by their offsets.
abbrev pub Lines : Type 0
Lines = String × List ℕ

-- Which chips open, whether a request is granted after those before it, and which files exist.
pub record Board : Type 0 where
  pub chip : String → Option Chip
  pub grants : List Lines → Lines → Bool
  pub exists : String → Bool

pub data SetupError : Type 0 where
  no_chip : String → SetupError
  no_line : String → SetupError
  not_granted : Lines → SetupError

-- The requests that were granted so far, the newest first.
abbrev pub Setup : Type 0 → Type 0
Setup A = Exec (List Lines) SetupError A

-- The pairs that `load_lines` collects; of two lines with one name the later counts.
unfoldable pub collect : ℕ → Chip → List (String × ℕ) → List (String × ℕ)
collect i [] m = m
collect i (none ∷ chip) m = collect (i + 1) chip m
collect i (some name ∷ chip) m = collect (i + 1) chip (insert name i m)

unfoldable pub load_lines : Chip → List (String × ℕ)
load_lines chip = collect 0 chip []

-- `*lines.get(name).ok_or(..)?`
unfoldable pub line : Chip → String → Setup ℕ
line chip name = elim (lookup name (load_lines chip)) [
  | none ↦ raise (no_line name)
  | some i ↦ pure i
]

-- `UsbMuxSwitch` and `UsbHub`, by their lines.
pub data UsbSwitch : Type 0 where
  usb_mux_switch : Lines → Lines → Lines → UsbSwitch
  usb_hub : Lines → Lines → UsbSwitch

pub record PinLines : Type 0 where
  pub usb_switch : UsbSwitch
  pub rpi_boot : List Lines

pub record PowerLines : Type 0 where
  pub enable : List Lines
  pub sysfs_power : String
  pub sysfs_reset : String

abbrev pub chip1_path : Bool → String
chip1_path latching = if latching then "/dev/gpiochip1" else "/dev/gpiochip2"

module _ (board : Board) where
  unfoldable pub open_chip : String → Setup Chip
  open_chip path = elim (board.chip path) [ none ↦ raise (no_chip path) | some chip ↦ pure chip ]

  -- `gpio_output_lines!`
  unfoldable pub gpio_output_lines : String → List ℕ → Setup Lines
  gpio_output_lines path offsets granted =
      if board.grants granted (path, offsets)
      then (ok (path, offsets), (path, offsets) ∷ granted)
      else (err (not_granted (path, offsets)), granted)

  -- `gpio_output_array!` with four lines: a request for each.
  unfoldable pub gpio_output_array : String → ℕ → ℕ → ℕ → ℕ → Setup (List Lines)
  unfolding gpio_output_lines
  gpio_output_array path i1 i2 i3 i4 = do
    l1 ← gpio_output_lines path (i1 ∷ [])
    l2 ← gpio_output_lines path (i2 ∷ [])
    l3 ← gpio_output_lines path (i3 ∷ [])
    l4 ← gpio_output_lines path (i4 ∷ [])
    pure (l1 ∷ l2 ∷ l3 ∷ l4 ∷ [])

  unfoldable pub mux_new : String → String → Chip → Setup UsbSwitch
  unfolding gpio_output_lines line
  mux_new chip0 chip1 chip = do
    usb_mux ← gpio_output_lines chip0 (usb_sel1 ∷ usb_oe1 ∷ usb_sel2 ∷ usb_oe2 ∷ [])
    output_switch ← gpio_output_lines chip0 (usb_switch_line ∷ [])
    usb1 ← line chip "node1-usbotg-dev"
    usb2 ← line chip "node2-usbotg-dev"
    usb3 ← line chip "node3-usbotg-dev"
    usb4 ← line chip "node4-usbotg-dev"
    usb_vbus ← gpio_output_lines chip1 (usb1 ∷ usb2 ∷ usb3 ∷ usb4 ∷ [])
    pure (usb_mux_switch usb_mux usb_vbus output_switch)

  unfoldable pub hub_new : String → Setup UsbSwitch
  unfolding gpio_output_lines
  hub_new chip0 = do
    node1_source ←
        gpio_output_lines chip0 (node1_output_switch_v2_5 ∷ node1_source_switch_v2_5 ∷ [])
    output_switch ← gpio_output_lines chip0 (usb_switch_v2_5 ∷ [])
    pure (usb_hub output_switch node1_source)

  -- `PinController::new`
  unfoldable pub new_pin_controller : Bool → Setup PinLines
  unfolding open_chip line gpio_output_array mux_new hub_new
  new_pin_controller has_usb_switch = do
    _ ← open_chip "/dev/gpiochip0"
    chip1 ← open_chip (chip1_path has_usb_switch)
    rpi1 ← line chip1 "node1-rpiboot"
    rpi2 ← line chip1 "node2-rpiboot"
    rpi3 ← line chip1 "node3-rpiboot"
    rpi4 ← line chip1 "node4-rpiboot"
    rpi_boot ← gpio_output_array (chip1_path has_usb_switch) rpi1 rpi2 rpi3 rpi4
    usb_switch ←
        (if has_usb_switch
          then mux_new "/dev/gpiochip0" (chip1_path has_usb_switch) chip1
          else hub_new "/dev/gpiochip0")
    pure (record { usb_switch = usb_switch; rpi_boot = rpi_boot })

  abbrev pub fallback_if_not_exist : String → String → String
  fallback_if_not_exist sysfs fallback = if board.exists sysfs then sysfs else fallback

  -- `PowerController::new`
  unfoldable pub new_power_controller : Bool → Setup PowerLines
  unfolding open_chip line gpio_output_array
  new_power_controller is_latching_system = do
    chip1 ← open_chip (chip1_path is_latching_system)
    port1 ← line chip1 "node1-en"
    port2 ← line chip1 "node2-en"
    port3 ← line chip1 "node3-en"
    port4 ← line chip1 "node4-en"
    enable ← gpio_output_array (chip1_path is_latching_system) port1 port2 port3 port4
    pure (record {
      enable = enable;
      sysfs_power =
          fallback_if_not_exist "/sys/class/leds/fp::power/brightness"
            "/sys/class/leds/fp:sys/brightness";
      sysfs_reset =
          fallback_if_not_exist "/sys/class/leds/fp::status/brightness"
            "/sys/class/leds/fp:reset/brightness";
    })

  -- The beginning of `BmcApplication::new`.
  unfoldable pub new_controllers : Bool → Setup (PinLines × PowerLines)
  unfolding new_pin_controller new_power_controller
  new_controllers is_legacy_dts = do
    pins ← new_pin_controller is_legacy_dts
    power ← new_power_controller is_legacy_dts
    pure (pins, power)
