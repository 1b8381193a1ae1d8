-- ===== src/App/Lifecycle/Start.antt =====
-- What `BmcApplication::initialize` brings about.
use tpi_bmcd.Base.{
  ℕ, ◌<◌, ◌≡◌, ◌∙◌, refl, sym, ap, subst, false, String, some, List, [], ◌∷◌, Result, ok, arith,
}
use tpi_bmcd.Base.Bits.{bit}
use tpi_bmcd.Base.Assoc.{insert, nat_key}
use tpi_bmcd.Base.Exec.{bind-ok, gets, ◌>>=◌, ◌>>◌}
use tpi_bmcd.Hal.Device.{
  Env, Fault, CoolingDevice, Trace, Line, level, enable, perform, output_switch, usb_mux, usb_vbus,
  node1_source, rpi_boot,
}
use tpi_bmcd.Hal.Pins.{PinController, UsbArchitecture, usb_hub, usb_mux_switch}
use tpi_bmcd.App.State.{App, Db, Cmd, hal}
use tpi_bmcd.App.Usb.{initialize_usb_mode}
use tpi_bmcd.App.Usb.Laws.{db-configure_usb}
use tpi_bmcd.App.Usb.Lines.{ShowsUsb, BootLine, initialize_usb_mode_shows}
use tpi_bmcd.App.Slots.Lines.{is_enable, activate_slot_aside}
use tpi_bmcd.App.Slots.{activate_slot}
use tpi_bmcd.App.Slots.Laws.{InSync, activate_all-InSync, activate_slot_run, activate_slot_stores}
use tpi_bmcd.App.Cooling.{set_cooling_state, restore, initialize_cooling}
use tpi_bmcd.App.Lifecycle.{initialize}

module _ (env : Env) where
  cooling_aside :
      (device : String) (speed : ℕ) (l : Line) (t : Trace)
      → level l (set_cooling_state env device speed t).1 ≡ level l t
  unfolding set_cooling_state perform level
  cooling_aside device speed l t = ground arith

  -- Setting the speeds of the fans touches no line, and no stored value.
  restore_aside :
      (stored : List (ℕ × ℕ)) (ds : List CoolingDevice) (m : List (ℕ × ℕ)) (l : Line) (a : App)
      → let b = (restore env stored ds m a).1 in
        (level l b.trace ≡ level l a.trace) × (b.db ≡ a.db) × (b.pins ≡ a.pins)
  unfolding restore
  restore_aside stored [] m l a = (refl, refl, refl)
  restore_aside stored (d ∷ ds) m l a =
      let set = λ (speed : ℕ). (hal (set_cooling_state env d.name speed) a).1 in
      grind (
        arith,
        λ (speed : ℕ). cooling_aside d.name speed l a.trace,
        restore_aside stored ds m l a,
        λ (speed : ℕ). restore_aside stored ds (insert (env.hash d.name) speed m) l (set speed),
      )

  initialize_cooling_aside :
      (l : Line) (a : App)
      → let b = (initialize_cooling env a).1 in
        (level l b.trace ≡ level l a.trace)
        × (b.db.activated_nodes ≡ a.db.activated_nodes)
        × (b.db.usb_config ≡ a.db.usb_config)
        × (b.db.node1_usb ≡ a.db.node1_usb)
        × (b.pins ≡ a.pins)
  unfolding initialize_cooling
  initialize_cooling_aside l a =
      let kept = restore_aside a.db.cooling (env.cooling_devices a.trace) [] l a in
      ground (
        arith,
        kept.0,
        ap (λ (x : Db). x.activated_nodes) kept.1,
        ap (λ (x : Db). x.usb_config) kept.1,
        ap (λ (x : Db). x.node1_usb) kept.1,
        kept.2,
      )

  -- The stored values are applied to the hardware, and stay.
  initialize_usb_mode_keeps : (a : App) → (initialize_usb_mode env a).1.db ≡ a.db
  unfolding initialize_usb_mode
  initialize_usb_mode_keeps a = grind (arith, λ (b : App). db-configure_usb env a.db.usb_config b)

  abbrev outcome : Result Fault (Unit {0}) × App → Result Fault (Unit {0})
  outcome r = r.0

  synced :
      (c d : App)
      → ((i : ℕ) → level (enable i) d.trace ≡ level (enable i) c.trace)
      → d.db.activated_nodes ≡ c.db.activated_nodes
      → InSync c
      → InSync d
  synced c d lines stored (s0, s1, s2, s3) =
      let at = λ (i : ℕ) (s : level (enable i) c.trace ≡ some (bit i c.db.activated_nodes)).
        lines i ∙ s ∙ ap (λ (x : ℕ). some (bit i x)) (sym stored) in
      (at 0 s0, at 1 s1, at 2 s2, at 3 s3)

  -- Which lines a USB configuration asks for does not depend on the enable lines.
  carried :
      (usb : UsbArchitecture) (db : Db) (t t' : Trace)
      → ((l : Line) → is_enable l ≡ false → level l t' ≡ level l t)
      → ShowsUsb env usb db t
      → ShowsUsb env usb db t'
  carried usb_hub db t t' same (way, node1, boot) = (
    same output_switch refl ∙ way,
    same node1_source refl ∙ node1,
    λ i h. subst (BootLine _ _) (sym (same (rpi_boot i) refl)) (boot i h),
  )
  carried usb_mux_switch db t t' same ((way, mux, vbus), node1, boot) = (
    (same output_switch refl ∙ way, same usb_mux refl ∙ mux, same usb_vbus refl ∙ vbus),
    tt,
    λ i h. subst (BootLine _ _) (sym (same (rpi_boot i) refl)) (boot i h),
  )

  -- When the application could be initialized, the enable lines of the four nodes are what their stored
  -- power states say, and the lines of the USB bus, of its way to node 1 and of the boot modes are those
  -- of the stored USB configuration and route. These values are stored as before.
  pub initialize_lem :
      (a : App)
      → (initialize env a).0 ≡ ok tt
      → let after = (initialize env a).1 in
        InSync after
        × ((i : ℕ) → i < 4 → bit i after.db.activated_nodes ≡ bit i a.db.activated_nodes)
        × (after.db.usb_config ≡ a.db.usb_config)
        × (after.db.node1_usb ≡ a.db.node1_usb)
        × ShowsUsb env after.pins.usb_switch a.db after.trace
  unfolding initialize
  initialize_lem a e =
      let powered : Cmd (Unit {0}) = gets (λ (b : App). b.db.activated_nodes) >>= λ p.
      activate_slot env p 15 >> initialize_cooling env in
      let (_, usb, first) = bind-ok (initialize_usb_mode env) (λ _. powered) a e in
      let b = (initialize_usb_mode env a).1 in
      let e' : (powered b).0 ≡ ok tt = sym (ap outcome first) ∙ e in
      let (_, on, second) =
        bind-ok (activate_slot env b.db.activated_nodes 15) (λ _. initialize_cooling env) b e' in
      let c = (activate_slot env b.db.activated_nodes 15 b).1 in
      let sync = activate_all-InSync env b.db.activated_nodes b (on ∙ refl) in
      let all : initialize env a ≡ initialize_cooling env c = first ∙ second in
      let aside = λ (i : ℕ). initialize_cooling_aside (enable i) c in
      let same = initialize_usb_mode_keeps a in
      let stored = λ (i : ℕ) (h : i < 8).
        activate_slot_stores env b.db.activated_nodes 15 i b (λ q. cc) (omega arith) h in
      let (shows, pins) = initialize_usb_mode_shows env a (usb ∙ refl) in
      let run = activate_slot_run env b.db.activated_nodes 15 b (λ q. cc) in
      let on_pins : c.pins ≡ b.pins = ap (λ (x : Result Fault (Unit {0}) × App). x.1.pins) run in
      let all_pins = (aside 0).4 ∙ on_pins ∙ pins in
      rw all (
        synced c (initialize_cooling env c).1 (λ i. (aside i).0) (aside 0).1 sync,
        λ i h.
            ap (bit i) (aside 0).1
            ∙ ground (arith, (stored i (omega arith)).0)
            ∙ ap (λ (x : Db). bit i x.activated_nodes) same,
        (aside 0).2 ∙ (stored 0 (omega arith)).1 ∙ ap (λ (x : Db). x.usb_config) same,
        (aside 0).3 ∙ (stored 0 (omega arith)).2 ∙ ap (λ (x : Db). x.node1_usb) same,
        subst
            (λ (p : PinController).
              ShowsUsb env p.usb_switch a.db (initialize_cooling env c).1.trace)
            (sym all_pins)
            (carried a.pins.usb_switch a.db b.trace _
              (λ l h.
                (initialize_cooling_aside l c).0
                ∙ activate_slot_aside env b.db.activated_nodes 15 b l (λ q. cc) h)
              shows),
      )
