-- ===== src/App/Cooling/Laws.antt =====
-- What `set_cooling_speed` and `restore` leave in the store.
use tpi_bmcd.Base.{
  ℕ, ◌≡◌, ltb, Bool, false, not, ◌&&◌, ◌==◌, if◌then◌else◌, Option, none, some, length, is_ok,
  String, arith,
}
use tpi_bmcd.Base.Assoc.{lookup, lookup-insert, nat_key}
use tpi_bmcd.Hal.Device.{Env, CoolingDevice, perform, write_cooling}
use tpi_bmcd.App.State.{App}
use tpi_bmcd.App.Cooling.{
  cooling_capacity, find_device, dev_name, set_cooling_state, store_speed, set_cooling_speed,
}

-- The range that the device `d` takes.
abbrev pub takes : ℕ → Option CoolingDevice → Bool
takes speed none = false
takes speed (some d) = not (ltb d.max_speed speed)

module _ (env : Env) where
  -- A speed is set exactly if the device is there, the speed is within its range and the write
  -- succeeds. Then, if the store has fewer than 10 entries, it has that speed for the device, and as
  -- before for the other hashes. In every other case the database is unchanged, even where a device
  -- that the store already has gets a new speed and the store has 10 entries.
  pub set_cooling_speed_lem :
      (name : String) (speed other : ℕ) (a : App)
      → let found = find_device name (env.cooling_devices a.trace) in
        let (r, b) = set_cooling_speed env name speed a in
        let wrote = (perform env (write_cooling (dev_name name) speed) a.trace).0 in
        let stored = is_ok r && ltb (length a.db.cooling) cooling_capacity in
        (is_ok r ≡ (takes speed found && is_ok wrote))
        × (lookup other b.db.cooling
            ≡ (if stored && env.hash name == other then some speed else lookup other a.db.cooling))
        × (b.db ≡ (if stored then record a.db { cooling = b.db.cooling } else a.db))
  unfolding set_cooling_speed set_cooling_state store_speed
  set_cooling_speed_lem name speed other a =
      ground (arith, lookup-insert (env.hash name) other speed a.db.cooling)
