-- ===== src/App/Cooling.antt =====
-- bmcd/src/app/cooling_device.rs, and the cooling part of bmc_application.rs. The devices under
-- /sys/class/thermal, their names and values come from the environment.
pub mod Laws
use tpi_bmcd.Base.{
  ℕ, Bool, true, false, ltb, if◌then◌else◌, Option, none, some, List, [], ◌∷◌, length, Result, ok,
  err, String, str_eq,
}
use tpi_bmcd.Base.Assoc.{lookup, insert, nat_key}
use tpi_bmcd.Base.Exec.{Exec, pure, raise, gets, ◌>>=◌, ◌>>◌}
use tpi_bmcd.Hal.Device.{
  Env, Trace, Fault, CoolingDevice, perform, write_cooling, no_cooling_device, speed_exceeds_max,
}
use tpi_bmcd.App.State.{App, Db, Cmd, hal, set_db}

abbrev pub cooling_capacity : ℕ
cooling_capacity = 10

-- `devices.iter().find(|d| d.device == device)`
unfoldable pub find_device : String → List CoolingDevice → Option CoolingDevice
find_device n [] = none
find_device n (d ∷ ds) = if str_eq d.name n then some d else find_device n ds

-- The directory under /sys/class/thermal.
abbrev pub dev_name : String → String
dev_name device = if str_eq device "system fan" then "cooling_device0" else device

module _ (env : Env) where
  abbrev pub set_found : String → ℕ → Option CoolingDevice → Exec Trace Fault (Unit {0})
  set_found device speed none = raise no_cooling_device
  set_found device speed (some d) =
      if ltb d.max_speed speed
      then raise speed_exceeds_max
      else perform env (write_cooling (dev_name device) speed)

  unfoldable pub set_cooling_state : String → ℕ → Exec Trace Fault (Unit {0})
  set_cooling_state device speed t =
      set_found device speed (find_device device (env.cooling_devices t)) t

  -- What is stored once the device has taken the speed.
  unfoldable pub store_speed : ℕ → ℕ → List (ℕ × ℕ) → List (ℕ × ℕ)
  store_speed key speed cooling =
      if ltb (length cooling) cooling_capacity then insert key speed cooling else cooling

  unfoldable pub set_cooling_speed : String → ℕ → Cmd (Unit {0})
  set_cooling_speed device speed = do
    hal (set_cooling_state device speed)
    set_db (λ db. record db { cooling = store_speed (env.hash device) speed db.cooling })

  -- The loop of `initialize_cooling`: the stored speed of each device that is there.
  unfoldable pub restore : List (ℕ × ℕ) → List CoolingDevice → List (ℕ × ℕ) → Cmd (List (ℕ × ℕ))
  restore stored [] set_devices = pure set_devices
  restore stored (d ∷ ds) set_devices = elim (lookup (env.hash d.name) stored) [
    | none ↦ restore stored ds set_devices
    | some speed ↦ (do
      hal (set_cooling_state d.name speed)
      restore stored ds (insert (env.hash d.name) speed set_devices))
  ]

  unfoldable pub initialize_cooling : Cmd (Unit {0})
  initialize_cooling a =
      (do
        kept ← restore a.db.cooling (env.cooling_devices a.trace) []
        set_db (λ db. record db { cooling = kept }))
        a
