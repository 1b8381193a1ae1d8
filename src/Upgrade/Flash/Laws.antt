-- ===== src/Upgrade/Flash/Laws.antt =====
-- What flashing a node leaves behind.
use tpi_bmcd.Base.{
  ℕ, ◌<◌, ◌≡◌, ◌∙◌, refl, sym, ap, ◌==◌, Bool, false, if◌then◌else◌, some, Result, ok, err, arith,
}
use tpi_bmcd.Base.Bits.{bit}
use tpi_bmcd.Base.Exec.{bind-ok, ◌>>◌}
use tpi_bmcd.Hal.{NodeId, bmc, to_u8, to_bitfield, to_inverse_bitfield, is_flash}
use tpi_bmcd.Hal.Ids.{bitfields_lem, to_bitfield_range}
use tpi_bmcd.Hal.Device.{Env, Fault, level, rpi_boot, enable, perform, load_stream}
use tpi_bmcd.App.State.{App, Db, Cmd, hal, UsbConfig, flashing}
use tpi_bmcd.App.Usb.{wiring, usb_boot, get_usb_mode, configure_usb, configure_usb_internal}
use tpi_bmcd.App.Usb.Laws.{level-configure_usb_internal, internal_keeps}
use tpi_bmcd.App.Usb.Lines.{configure_usb_internal_lem}
use tpi_bmcd.Hal.Pins.Lines.{set_usb_boot_aside}
use tpi_bmcd.App.Slots.Lines.{level-activate_slot}
use tpi_bmcd.App.Slots.{activate_slot}
use tpi_bmcd.App.Slots.Laws.{activate_slot_stores}
use tpi_bmcd.App.Lifecycle.{reboot_into_usb, node_in_flash}
use tpi_bmcd.App.Lifecycle.Laws.{reboot_into_usb_lem, level-reboot_into_usb}
use tpi_bmcd.Utils.Io.{Hasher}
use tpi_bmcd.Upgrade.{Failure, bmc_fault}
use tpi_bmcd.Upgrade.Copy.{Run, transfer}
use tpi_bmcd.Upgrade.Flash.{returned, restore_board, restore_usb, flash_node}

module _ (env : Env) (n : NodeId) where
  abbrev outcome : Result Fault (Unit {0}) × App → Result Fault (Unit {0})
  outcome r = r.0

  abbrev off : Cmd (Unit {0})
  off = activate_slot env (to_inverse_bitfield n) (to_bitfield n)

  abbrev low : Cmd (Unit {0})
  low = usb_boot env n false

  restore_steps :
      (a : App)
      → (restore_board env n a).0 ≡ ok tt
      → restore_board env n a ≡ configure_usb env (off a).1.db.usb_config (low (off a).1).1
  unfolding restore_board usb_boot get_usb_mode
  restore_steps a e =
      let (_, _, p) = bind-ok off (λ _. low >> restore_usb env) a e in
      let b = (off a).1 in
      let e' : ((low >> restore_usb env) b).0 ≡ ok tt = sym (ap outcome p) ∙ e in
      let (_, _, q) = bind-ok low (λ _. restore_usb env) b e' in p ∙ q

  configured :
      (c : UsbConfig) (a : App)
      → (configure_usb env c a).0 ≡ ok tt
      → ((configure_usb_internal env c a).0 ≡ ok tt)
        × ((configure_usb env c a).1.db.usb_config ≡ c)
        × ((configure_usb env c a).1.db.activated_nodes ≡ a.db.activated_nodes)
        × ((configure_usb env c a).1.trace ≡ (configure_usb_internal env c a).1.trace)
  unfolding configure_usb
  configured c a e = ground (arith, internal_keeps env c a)

  low_aside : (a : App) (i : ℕ) → level (enable i) (low a).1.trace ≡ level (enable i) a.trace
  unfolding usb_boot
  low_aside a i = set_usb_boot_aside env 0 (to_bitfield n) (enable i) a.trace refl

  first_of : (a : App) → (restore_board env n a).0 ≡ ok tt → (off a).0 ≡ ok tt
  unfolding restore_board
  first_of a e = (bind-ok off (λ _. low >> restore_usb env) a e).1 ∙ refl

  level-off :
      (a : App) (i : ℕ)
      → i < 4
      → (off a).0 ≡ ok tt
      → level (enable i) (off a).1.trace
        ≡ (if i == to_u8 n then some 0 else level (enable i) a.trace)
  level-off a i h e =
      let (nonzero, byte) = to_bitfield_range n in
      ground (
        arith,
        level-activate_slot env (to_inverse_bitfield n) (to_bitfield n) i a nonzero e,
        bitfields_lem n i (omega arith),
      )

  restore_lem :
      (a : App) (i : ℕ)
      → i < 4
      → is_flash (wiring a.db.usb_config).mode ≡ false
      → (restore_board env n a).0 ≡ ok tt
      → let after = (restore_board env n a).1 in
        (bit i after.db.activated_nodes ≡ (if i == to_u8 n then 0 else bit i a.db.activated_nodes))
        × (after.db.usb_config ≡ a.db.usb_config)
        × (level (rpi_boot i) after.trace ≡ some 0)
        × (level (enable i) after.trace
            ≡ (if i == to_u8 n then some 0 else level (enable i) a.trace))
  unfolding usb_boot
  restore_lem a i h mode e =
      let (nonzero, byte) = to_bitfield_range n in
      let stores =
        activate_slot_stores env (to_inverse_bitfield n) (to_bitfield n) i a nonzero byte
          (omega arith) in
      let bits = bitfields_lem n i (omega arith) in
      let c = (off a).1.db.usb_config in
      let b = (low (off a).1).1 in
      let e' : (configure_usb env c b).0 ≡ ok tt = sym (ap outcome (restore_steps a e)) ∙ e in
      let done = configured c b e' in
      let same : c ≡ a.db.usb_config = stores.1 in
      rw (restore_steps a e) (
        ground (arith, stores.0, bits, done.2),
        done.1 ∙ same,
        ap (level (rpi_boot i)) done.3
            ∙ level-configure_usb_internal env c b i h done.0
            ∙ rw (same, mode) refl,
        ap (level (enable i)) done.3
            ∙ (configure_usb_internal_lem env c b i done.0).0
            ∙ low_aside (off a).1 i
            ∙ level-off a i h (first_of a e),
      )

  flash_run :
      (c : Hasher ℕ) (crc : Bool) (run : Run) (a : App) (r : Result Failure (Unit {0}))
      → (node_in_flash env n bmc a).0 ≡ ok tt
      → transfer c crc run ≡ some r
      → (restore_board env n (node_in_flash env n bmc a).1).0 ≡ ok tt
      → flash_node env c crc run n a
        ≡ (returned r, (restore_board env n (node_in_flash env n bmc a).1).1)
  unfolding flash_node
  flash_run c crc run a r loaded given restored = rw (loaded, given, restored) refl

  load_aside :
      (a : App) (i : ℕ)
      → level (enable i) (hal (perform env load_stream) a).1.trace ≡ level (enable i) a.trace
  unfolding perform level
  load_aside a i = ground arith

  loaded_steps :
      (a : App)
      → (node_in_flash env n bmc a).0 ≡ ok tt
      → ((reboot_into_usb env n (flashing n bmc) a).0 ≡ ok tt)
        × ((node_in_flash env n bmc a).1.db ≡ (reboot_into_usb env n (flashing n bmc) a).1.db)
        × ((i : ℕ)
            → level (enable i) (node_in_flash env n bmc a).1.trace
              ≡ level (enable i) (reboot_into_usb env n (flashing n bmc) a).1.trace)
  unfolding node_in_flash
  loaded_steps a e =
      let (_, p, q) =
        bind-ok (reboot_into_usb env n (flashing n bmc)) (λ _. hal (perform env load_stream)) a e in
      (
        p,
        ap (λ (x : Result Fault (Unit {0}) × App). x.1.db) q,
        λ i.
            ap (λ (x : Result Fault (Unit {0}) × App). level (enable i) x.1.trace) q
            ∙ load_aside (reboot_into_usb env n (flashing n bmc) a).1 i,
      )

  -- Once the node is in flash mode and has been given its data or not, if the commands that restore the
  -- board succeed: `flash_node` returns what the transfer returned, the stored power state of the node
  -- is off and its enable line low, those of the others are as they were before, and a stored USB configuration other than flashing is still stored
  -- and has all boot lines low.
  pub flash_node_restores :
      (c : Hasher ℕ) (crc : Bool) (run : Run) (a : App) (i : ℕ) (r : Result Failure (Unit {0}))
      → i < 4
      → is_flash (wiring a.db.usb_config).mode ≡ false
      → (node_in_flash env n bmc a).0 ≡ ok tt
      → transfer c crc run ≡ some r
      → (restore_board env n (node_in_flash env n bmc a).1).0 ≡ ok tt
      → let (worker, after) = flash_node env c crc run n a in
        (worker ≡ returned r)
        × (bit i after.db.activated_nodes
            ≡ (if i == to_u8 n then 0 else bit i a.db.activated_nodes))
        × (after.db.usb_config ≡ a.db.usb_config)
        × (level (rpi_boot i) after.trace ≡ some 0)
        × (level (enable i) after.trace
            ≡ (if i == to_u8 n then some 0 else level (enable i) a.trace))
  flash_node_restores c crc run a i r h mode loaded given restored =
      let b = (node_in_flash env n bmc a).1 in
      let (rebooted, kept, lines) = loaded_steps a loaded in
      let before = reboot_into_usb_lem env n (flashing n bmc) a i h rebooted in
      let config : b.db.usb_config ≡ a.db.usb_config =
        ap (λ (x : Db). x.usb_config) kept ∙ before.1 in
      let after = restore_lem b i h (rw config mode) restored in
      rw (flash_run c crc run a r loaded given restored) (
        refl,
        ground (arith, after.0, before.0, ap (λ (x : Db). x.activated_nodes) kept),
        after.1 ∙ config,
        after.2,
        ground
            (arith, after.3, lines i, level-reboot_into_usb env n (flashing n bmc) a i h rebooted),
      )

  load_fails :
      (f : Fault) (a : App)
      → env.outcome a.trace load_stream ≡ some f
      → (hal (perform env load_stream) a).0 ≡ err f
  unfolding perform
  load_fails f a e = rw (perform, e) refl

  -- When the node could be brought into flash mode but no device loads, `flash_node` returns that
  -- failure and leaves the node switched on.
  flash_node_unloaded :
      (c : Hasher ℕ) (crc : Bool) (run : Run) (a : App) (i : ℕ) (f : Fault)
      → i < 4
      → (reboot_into_usb env n (flashing n bmc) a).0 ≡ ok tt
      → env.outcome (reboot_into_usb env n (flashing n bmc) a).1.trace load_stream ≡ some f
      → let (worker, after) = flash_node env c crc run n a in
        (worker ≡ returned (err (bmc_fault f)))
        × (bit i after.db.activated_nodes
            ≡ (if i == to_u8 n then 1 else bit i a.db.activated_nodes))
  unfolding flash_node node_in_flash
  flash_node_unloaded c crc run a i f h rebooted failing =
      let before = reboot_into_usb_lem env n (flashing n bmc) a i h rebooted in
      rw (rebooted, load_fails f (reboot_into_usb env n (flashing n bmc) a).1 failing)
        (refl, before.0)
