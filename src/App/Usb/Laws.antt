-- ===== src/App/Usb/Laws.antt =====
-- What a USB configuration leaves in the database and on the lines.
use tpi_bmcd.Base.{ℕ, ◌<◌, ◌≡◌, ◌∙◌, sym, ap, ◌==◌, if◌then◌else◌, some, Result, ok, is_ok, arith}
use tpi_bmcd.Base.Exec.{bind-ok, ◌>>◌, pure}
use tpi_bmcd.Hal.{to_u8, is_flash, UsbMode}
use tpi_bmcd.Hal.Device.{Env, Fault, level, rpi_boot}
use tpi_bmcd.Hal.Pins.{set_usb_route, select_usb}
use tpi_bmcd.Hal.Pins.Routing.{level-select_usb, level-set_usb_route}
use tpi_bmcd.App.State.{App, Cmd, hal, logged, UsbConfig}
use tpi_bmcd.App.Gadget.{remove_msd_function}
use tpi_bmcd.App.Usb.{Wiring, wiring, configure_usb_internal, configure_usb}

module _ (env : Env) where
  pub internal_keeps : (c : UsbConfig) (a : App) → (configure_usb_internal env c a).1.db ≡ a.db
  unfolding configure_usb_internal
  internal_keeps c a = ground arith

  -- The database takes the configuration exactly if the hardware did; a failure leaves it as it was.
  pub db-configure_usb :
      (c : UsbConfig) (a : App)
      → (configure_usb env c a).1.db
        ≡ (if is_ok (configure_usb env c a).0 then record a.db { usb_config = c } else a.db)
  unfolding configure_usb
  db-configure_usb c a = ground (arith, internal_keeps c a)

  abbrev outcome : Result Fault (Unit {0}) × App → Result Fault (Unit {0})
  outcome r = r.0

  gadget_aside :
      (a : App) (i : ℕ)
      → level (rpi_boot i) (remove_msd_function env a.trace).1 ≡ level (rpi_boot i) a.trace
  unfolding remove_msd_function level
  gadget_aside a i = ground arith

  gadget_part : UsbMode → Cmd (Unit {0})
  gadget_part m = if is_flash m then pure tt else logged (hal (remove_msd_function env))

  gadget_part_lem :
      (m : UsbMode) (a : App) (i : ℕ)
      → (level (rpi_boot i) (gadget_part m a).1.trace ≡ level (rpi_boot i) a.trace)
        × ((gadget_part m a).1.pins ≡ a.pins)
  unfolding gadget_part
  gadget_part_lem m a i = ground (arith, gadget_aside a i)

  abbrev routing : Wiring → App → Cmd (Unit {0})
  routing w a = hal (set_usb_route env a.pins w.route) >> hal (select_usb env a.pins w.dest w.mode)

  -- After a configuration that succeeds, in flash mode the boot line of the node is high and the
  -- others are as they were; in every other mode all four boot lines are low.
  pub level-configure_usb_internal :
      (c : UsbConfig) (a : App) (i : ℕ)
      → i < 4
      → (configure_usb_internal env c a).0 ≡ ok tt
      → level (rpi_boot i) (configure_usb_internal env c a).1.trace ≡ (
          if is_flash (wiring c).mode
          then (if i == to_u8 (wiring c).dest then some 1 else level (rpi_boot i) a.trace)
          else some 0)
  unfolding configure_usb_internal gadget_part
  level-configure_usb_internal c a i h e =
      let w = wiring c in
      let (_, _, first) = bind-ok (gadget_part w.mode) (λ _. routing w a) a e in
      let b = (gadget_part w.mode a).1 in
      let e' : (routing w a b).0 ≡ ok tt = sym (ap outcome first) ∙ e in
      let (_, _, second) =
        bind-ok (hal (set_usb_route env a.pins w.route))
          (λ _. hal (select_usb env a.pins w.dest w.mode)) b e' in
      let t = (set_usb_route env a.pins w.route b.trace).1 in
      let e'' : (select_usb env a.pins w.dest w.mode t).0 ≡ ok tt = sym (ap outcome second) ∙ e' in
      ap (λ (r : Result Fault (Unit {0}) × App). level (rpi_boot i) r.1.trace) (first ∙ second)
      ∙ level-select_usb env a.pins w.dest w.mode t i h e''
      ∙ rw (level-set_usb_route env a.pins w.route b.trace i, (gadget_part_lem w.mode a i).0)
