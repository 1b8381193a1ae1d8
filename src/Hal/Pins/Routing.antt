-- ===== src/Hal/Pins/Routing.antt =====
-- The USB lines after the pin controller has routed a node.
use tpi_bmcd.Base.{
  ℕ, ◌≡◌, sym, ap, ◌∙◌, refl, ◌==◌, ltb, if◌then◌else◌, ◌&&◌, List, [], ◌∷◌, some, ok, arith,
  Result, ◌<◌,
}
use tpi_bmcd.Base.Bits.{bit, bit-nibble, bit-zero}
use tpi_bmcd.Base.Exec.{bind-ok}
use tpi_bmcd.Hal.{NodeId, UsbRoute, UsbMode, flash, is_host, to_u8, to_bitfield, is_flash}
use tpi_bmcd.Hal.Ids.{bitfields_lem}
use tpi_bmcd.Hal.Helpers.{bit_iterator}
use tpi_bmcd.Hal.Power.Order.{assigned, assigned-bit_iterator}
use tpi_bmcd.Hal.Device.{
  Env, Trace, Fault, perform, level, rpi_boot, usb_mux, usb_vbus, did, set_values,
}
use tpi_bmcd.Hal.Pins.{
  set_usb_route, switch_set_usb_route, hub_set_usb_route, mux_set_usb_route, Io, PinController,
  set_boot_lines, set_usb_boot, select_usb, switch_configure_usb, mux_configure_usb,
  hub_configure_usb,
}

module _ (env : Env) where
  level-set_boot_lines :
      (us : List (ℕ × ℕ)) (t : Trace) (i : ℕ)
      → (set_boot_lines env us t).0 ≡ ok tt
      → level (rpi_boot i) (set_boot_lines env us t).1 ≡ assigned i us (level (rpi_boot i) t)
  unfolding set_boot_lines perform level
  level-set_boot_lines [] t i h = refl
  level-set_boot_lines ((idx, state) ∷ us) t i h =
      ground (arith, level-set_boot_lines us (did (set_values (rpi_boot idx) state) ∷ t) i)

  -- When it succeeds, the boot line of each selected node has that node's bit, and no other boot
  -- line has moved.
  pub level-set_usb_boot :
      (s m : ℕ) (t : Trace) (i : ℕ)
      → (set_usb_boot env s m t).0 ≡ ok tt
      → level (rpi_boot i) (set_usb_boot env s m t).1
        ≡ (if ltb i 4 && bit i m == 1 then some (bit i s) else level (rpi_boot i) t)
  unfolding set_usb_boot
  level-set_usb_boot s m t i h =
      level-set_boot_lines (bit_iterator s m) t i h ∙ assigned-bit_iterator s m i _

  set_boot_lines_aside :
      (us : List (ℕ × ℕ)) (t : Trace)
      → (level usb_mux (set_boot_lines env us t).1 ≡ level usb_mux t)
        × (level usb_vbus (set_boot_lines env us t).1 ≡ level usb_vbus t)
  unfolding set_boot_lines perform level
  set_boot_lines_aside [] t = (refl, refl)
  set_boot_lines_aside ((idx, state) ∷ us) t =
      ground (arith, set_boot_lines_aside us (did (set_values (rpi_boot idx) state) ∷ t))

  configured :
      (pins : PinController) (node : NodeId) (mode : UsbMode) (t : Trace) (i : ℕ)
      → level (rpi_boot i) (switch_configure_usb env pins.usb_switch node mode t).1
        ≡ level (rpi_boot i) t
  unfolding switch_configure_usb mux_configure_usb hub_configure_usb perform level is_host
  configured pins node mode t i = ground arith

  abbrev boot_pins : NodeId → UsbMode → Io env
  boot_pins node mode =
      if is_flash mode
      then set_usb_boot env (to_bitfield node) (to_bitfield node)
      else set_usb_boot env 0 0b1111

  level-boot_pins :
      (node : NodeId) (mode : UsbMode) (t : Trace) (i : ℕ)
      → i < 4
      → (boot_pins node mode t).0 ≡ ok tt
      → level (rpi_boot i) (boot_pins node mode t).1 ≡ (
          if is_flash mode
          then (if i == to_u8 node then some 1 else level (rpi_boot i) t)
          else some 0)
  unfolding is_flash
  level-boot_pins node flash t i h e = ground (
    arith,
    level-set_usb_boot (to_bitfield node) (to_bitfield node) t i,
    (bitfields_lem node i (omega arith)).0,
  )
  level-boot_pins node _ t i h e =
      ground (arith, level-set_usb_boot 0 0b1111 t i, bit-nibble i, bit-zero i)

  -- After a successful selection the boot line of the node is high in flash mode, the others as they
  -- were; in the other modes all four boot lines are low.
  pub level-select_usb :
      (pins : PinController) (node : NodeId) (mode : UsbMode) (t : Trace) (i : ℕ)
      → i < 4
      → (select_usb env pins node mode t).0 ≡ ok tt
      → level (rpi_boot i) (select_usb env pins node mode t).1 ≡ (
          if is_flash mode
          then (if i == to_u8 node then some 1 else level (rpi_boot i) t)
          else some 0)
  unfolding select_usb
  level-select_usb pins node mode t i h e =
      let route = switch_configure_usb env pins.usb_switch node mode in
      let (_, done, same) = bind-ok route (λ _. boot_pins node mode) t e in
      ap (λ (r : Result Fault (Unit {0}) × Trace). level (rpi_boot i) r.1) same
      ∙ level-boot_pins node mode (route t).1 i h
          (sym (ap (λ (r : Result Fault (Unit {0}) × Trace). r.0) same) ∙ e)
      ∙ rw (configured pins node mode t i)

  -- Routing the bus leaves the boot lines alone.
  pub level-set_usb_route :
      (pins : PinController) (r : UsbRoute) (t : Trace) (i : ℕ)
      → level (rpi_boot i) (set_usb_route env pins r t).1 ≡ level (rpi_boot i) t
  unfolding set_usb_route switch_set_usb_route hub_set_usb_route mux_set_usb_route perform level
  level-set_usb_route pins r t i = ground arith
