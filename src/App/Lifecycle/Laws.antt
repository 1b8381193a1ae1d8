-- ===== src/App/Lifecycle/Laws.antt =====
-- What putting a node into USB mode leaves behind.
use tpi_bmcd.Base.{
  ℕ, ◌<◌, ◌≡◌, ◌∙◌, refl, ◌∷◌, sym, ap, ◌==◌, if◌then◌else◌, some, Result, ok, arith,
}
use tpi_bmcd.Base.Bits.{bit, not_u8, bit-not_u8, bit-nibble, bit-zero}
use tpi_bmcd.Base.Exec.{bind-ok, ◌>>◌}
use tpi_bmcd.Hal.{NodeId, to_u8, to_bitfield}
use tpi_bmcd.Hal.Ids.{bitfields_lem, to_bitfield_range}
use tpi_bmcd.Hal.Device.{Env, Fault, level, rpi_boot, enable, did, sleep_ms}
use tpi_bmcd.Hal.Pins.Routing.{level-set_usb_boot}
use tpi_bmcd.Hal.Pins.Lines.{set_usb_boot_aside}
use tpi_bmcd.Hal.Power.{sleep}
use tpi_bmcd.App.State.{App, Db, Cmd, hal, UsbConfig}
use tpi_bmcd.App.Usb.{configure_usb_internal, clear_usb_boot}
use tpi_bmcd.App.Usb.Laws.{internal_keeps}
use tpi_bmcd.App.Usb.Lines.{configure_usb_internal_lem}
use tpi_bmcd.App.Slots.Lines.{level-activate_slot}
use tpi_bmcd.App.Slots.{activate_slot}
use tpi_bmcd.App.Slots.Laws.{activate_slot_stores}
use tpi_bmcd.App.Lifecycle.{reboot_into_usb}

module _ (env : Env) (n : NodeId) where
  abbrev outcome : Result Fault (Unit {0}) × App → Result Fault (Unit {0})
  outcome r = r.0

  abbrev off : Cmd (Unit {0})
  off = activate_slot env (not_u8 (to_bitfield n)) (to_bitfield n)

  abbrev on : Cmd (Unit {0})
  on = activate_slot env (to_bitfield n) (to_bitfield n)

  abbrev last_steps : Cmd (Unit {0})
  last_steps = hal (sleep env 1000) >> clear_usb_boot env

  abbrev middle : UsbConfig → Cmd (Unit {0})
  middle c = configure_usb_internal env c >> (on >> last_steps)

  -- The application after the second power call, on the way to success.
  abbrev powered : UsbConfig → App → App
  powered c a = (on (configure_usb_internal env c (off a).1).1).1

  steps :
      (c : UsbConfig) (a : App)
      → (reboot_into_usb env n c a).0 ≡ ok tt
      → reboot_into_usb env n c a ≡ last_steps (powered c a)
  unfolding reboot_into_usb
  steps c a e =
      let (_, _, p) = bind-ok off (λ _. middle c) a e in
      let b = (off a).1 in
      let e' : (middle c b).0 ≡ ok tt = sym (ap outcome p) ∙ e in
      let (_, _, q) = bind-ok (configure_usb_internal env c) (λ _. on >> last_steps) b e' in
      let d = (configure_usb_internal env c b).1 in
      let e'' : ((on >> last_steps) d).0 ≡ ok tt = sym (ap outcome q) ∙ e' in
      let (_, _, r) = bind-ok on (λ _. last_steps) d e'' in p ∙ q ∙ r

  last_steps_aside :
      (a : App) (i : ℕ) → level (enable i) (last_steps a).1.trace ≡ level (enable i) a.trace
  unfolding clear_usb_boot level
  last_steps_aside a i =
      set_usb_boot_aside env 0 0b1111 (enable i) (did (sleep_ms 1000) ∷ a.trace) refl

  -- When the node has been put into USB mode, its slot is activated and the other slots are as
  -- before, the stored USB configuration is the one from before, and no boot line is high.
  pub reboot_into_usb_lem :
      (c : UsbConfig) (a : App) (i : ℕ)
      → i < 4
      → (reboot_into_usb env n c a).0 ≡ ok tt
      → let after = (reboot_into_usb env n c a).1 in
        (bit i after.db.activated_nodes ≡ (if i == to_u8 n then 1 else bit i a.db.activated_nodes))
        × (after.db.usb_config ≡ a.db.usb_config)
        × (level (rpi_boot i) after.trace ≡ some 0)
  unfolding clear_usb_boot
  reboot_into_usb_lem c a i h e =
      let b = (off a).1 in
      let d = (configure_usb_internal env c b).1 in
      let (nonzero, byte) = to_bitfield_range n in
      let first =
        activate_slot_stores env (not_u8 (to_bitfield n)) (to_bitfield n) i a nonzero byte
          (omega arith) in
      let second =
        activate_slot_stores env (to_bitfield n) (to_bitfield n) i d nonzero byte (omega arith) in
      let kept : d.db ≡ b.db = internal_keeps env c b in
      let own = (bitfields_lem n i (omega arith)).0 in
      let done : (last_steps (powered c a)).0 ≡ ok tt = sym (ap outcome (steps c a e)) ∙ e in
      rw (steps c a e) (
        ground (
          arith,
          first,
          second,
          ap (λ (x : Db). x.activated_nodes) kept,
          own,
          bit-not_u8 i (to_bitfield n) (omega arith) byte,
        ),
        ground (arith, first, second, ap (λ (x : Db). x.usb_config) kept),
        level-set_usb_boot env 0 0b1111 _ i done ∙ ground (arith, bit-nibble i, bit-zero i),
      )

  -- Its enable line is high then, and the others are as before.
  pub level-reboot_into_usb :
      (c : UsbConfig) (a : App) (i : ℕ)
      → i < 4
      → (reboot_into_usb env n c a).0 ≡ ok tt
      → level (enable i) (reboot_into_usb env n c a).1.trace
        ≡ (if i == to_u8 n then some 1 else level (enable i) a.trace)
  unfolding reboot_into_usb
  level-reboot_into_usb c a i h e =
      let (_, first, p) = bind-ok off (λ _. middle c) a e in
      let b = (off a).1 in
      let e' : (middle c b).0 ≡ ok tt = sym (ap outcome p) ∙ e in
      let (_, second, q) = bind-ok (configure_usb_internal env c) (λ _. on >> last_steps) b e' in
      let d = (configure_usb_internal env c b).1 in
      let e'' : ((on >> last_steps) d).0 ≡ ok tt = sym (ap outcome q) ∙ e' in
      let (_, third, r) = bind-ok on (λ _. last_steps) d e'' in
      let (nonzero, byte) = to_bitfield_range n in
      let mask = to_bitfield n in
      ap (λ (x : Result Fault (Unit {0}) × App). level (enable i) x.1.trace) (steps c a e)
      ∙ last_steps_aside (powered c a) i
      ∙ ground (
        arith,
        level-activate_slot env mask mask i d nonzero (third ∙ refl),
        level-activate_slot env (not_u8 mask) mask i a nonzero (first ∙ refl),
        (configure_usb_internal_lem env c b i (second ∙ refl)).0,
        (bitfields_lem n i (omega arith)).0,
      )
