-- ===== src/App/Thermal/Laws.antt =====
-- What the devices report after a speed was set.
use tpi_bmcd.Base.{
  ℕ, ◌≡◌, ◌∙◌, refl, if◌then◌else◌, String, str_eq, Option, none, some, List, [], ◌∷◌, filter_map,
  map, ok, arith,
}
use tpi_bmcd.Base.Text.{trim, parse_unsigned}
use mathlib.Core.Option
use tpi_bmcd.Hal.Device.{Env, CoolingDevice, Trace, did, perform, write_cooling}
use tpi_bmcd.App.Cooling.{set_cooling_state, dev_name}
use tpi_bmcd.App.Thermal.{
  ThermalEntry, DriverDir, is_system_fan, get_cooling_state, cooling_device, written, thermal_after,
}

-- A device's report with another speed, if its directory is the one named.
abbrev pub with_speed : String → ℕ → ThermalEntry → CoolingDevice → CoolingDevice
with_speed device speed entry d =
    if str_eq entry.file_name device then record d { speed = speed } else d

module _ (bound : ℕ) (dir : DriverDir) where
  -- What is reported of a directory, with the speed of one device replaced.
  abbrev pub reported : String → ℕ → Option (List ThermalEntry) → List CoolingDevice
  reported device speed none = []
  reported device speed (some entries) =
      filter_map (λ e. Option.map (with_speed device speed e) (cooling_device bound dir e)) entries

  module _ (kernel_text : ℕ → String) (device : String) (speed : ℕ)
      (shows : parse_unsigned bound (trim (kernel_text speed)) ≡ some speed) where
    cooling_device-written :
        (e : ThermalEntry)
        → cooling_device bound dir (written kernel_text device speed e)
          ≡ Option.map (with_speed device speed e) (cooling_device bound dir e)
    unfolding is_system_fan
    cooling_device-written e = ground (arith, shows)

    listed-written :
        (entries : List ThermalEntry)
        → filter_map (cooling_device bound dir) (map (written kernel_text device speed) entries)
          ≡ reported device speed (some entries)
    listed-written [] = refl
    listed-written (e ∷ entries) = λ i. elim (cooling_device-written e i) [
      | none ↦ listed-written entries i
      | some d ↦ d ∷ listed-written entries i
    ]

    get_cooling_state-written :
        (thermal : Option (List ThermalEntry))
        → get_cooling_state bound dir (Option.map (map (written kernel_text device speed)) thermal)
          ≡ reported device speed thermal
    unfolding get_cooling_state
    get_cooling_state-written none = refl
    get_cooling_state-written (some entries) = listed-written entries

-- Crate `std` lists the directory as the environment says.
module _ (env : Env) (bound : ℕ) (dir : DriverDir) (kernel_text : ℕ → String)
    (thermal : Option (List ThermalEntry))
    (listed : (t : Trace)
      → env.cooling_devices t
        ≡ get_cooling_state bound dir (thermal_after kernel_text t thermal)) where
  set_wrote :
      (device : String) (speed : ℕ) (t : Trace)
      → (set_cooling_state env device speed t).0 ≡ ok tt
      → (set_cooling_state env device speed t).1 ≡ did (write_cooling (dev_name device) speed) ∷ t
  unfolding set_cooling_state perform
  set_wrote device speed t h = ground arith

  -- When the kernel shows a speed that it took, and a speed was set on a device, then the devices are
  -- listed as before but for those whose directory is that of the device, which report the speed. The
  -- directory is the one of the device's name, but for the system fan it is cooling_device0, whatever
  -- the directory is that the system fan was found in.
  pub get_cooling_state-set_cooling_state :
      (device : String) (speed : ℕ) (t : Trace)
      → parse_unsigned bound (trim (kernel_text speed)) ≡ some speed
      → (set_cooling_state env device speed t).0 ≡ ok tt
      → env.cooling_devices (set_cooling_state env device speed t).1
        ≡ reported bound dir (dev_name device) speed (thermal_after kernel_text t thermal)
  unfolding thermal_after
  get_cooling_state-set_cooling_state device speed t shows h = rw (set_wrote device speed t h) (
      listed _
      ∙ get_cooling_state-written bound dir kernel_text (dev_name device) speed shows
          (thermal_after kernel_text t thermal))
