-- ===== src/Hal/Pins/Lines.antt =====
-- Which lines the pin controller sets, and to what.
use tpi_bmcd.Base.{
  ℕ, ◌≡◌, ◌∙◌, ap, refl, Bool, true, false, if◌then◌else◌, List, [], ◌∷◌, some, Result, ok, arith,
}
use tpi_bmcd.Base.Exec.{bind-ok}
use tpi_bmcd.Hal.{NodeId, UsbRoute, alternative_port, bmc, UsbMode, is_flash, to_bitfield}
use tpi_bmcd.Hal.Device.{
  Env, Trace, Fault, Line, usb_mux, usb_vbus, output_switch, node1_source, rpi_boot, enable, level,
  perform, did, set_values,
}
use tpi_bmcd.Hal.Pins.{
  UsbArchitecture, usb_hub, usb_mux_switch, PinController, Io, mux_values, vbus_values,
  set_usb_route, switch_set_usb_route, mux_set_usb_route, hub_set_usb_route, set_boot_lines,
  set_usb_boot, select_usb, switch_configure_usb, mux_configure_usb, hub_configure_usb,
}

-- The value of the output switch that leads the bus to the port or to the BMC.
abbrev pub route_value : UsbRoute → ℕ
route_value alternative_port = 0
route_value bmc = 1

-- The lines that selecting a node leaves alone.
abbrev pub is_kept : Line → Bool
is_kept output_switch = true
is_kept node1_source = true
is_kept (enable i) = true
is_kept _ = false

-- The lines that are no boot line.
abbrev pub is_other : Line → Bool
is_other (rpi_boot i) = false
is_other _ = true

module _ (env : Env) where
  -- The lines that lead the bus somewhere, select the node on it and give the node its power.
  abbrev pub RoutesBus : UsbArchitecture → NodeId → UsbMode → UsbRoute → Trace → Type 0
  RoutesBus usb_hub n mode route t = level output_switch t ≡ some (route_value route)
  RoutesBus usb_mux_switch n mode route t =
      (level output_switch t ≡ some (route_value route))
      × (level usb_mux t ≡ some (mux_values env n))
      × (level usb_vbus t ≡ some (vbus_values env n mode))

  -- Setting boot lines moves no other line.
  set_boot_lines_aside :
      (us : List (ℕ × ℕ)) (l : Line) (t : Trace)
      → is_other l ≡ true
      → level l (set_boot_lines env us t).1 ≡ level l t
  unfolding set_boot_lines perform level
  set_boot_lines_aside [] l t h = refl
  set_boot_lines_aside ((idx, state) ∷ us) l t h =
      ground (arith, set_boot_lines_aside us l (did (set_values (rpi_boot idx) state) ∷ t))

  pub set_usb_boot_aside :
      (s m : ℕ) (l : Line) (t : Trace)
      → is_other l ≡ true
      → level l (set_usb_boot env s m t).1 ≡ level l t
  unfolding set_usb_boot
  set_usb_boot_aside s m l t h = set_boot_lines_aside _ l t h

  abbrev boot_part : NodeId → UsbMode → Io env
  boot_part node mode =
      if is_flash mode
      then set_usb_boot env (to_bitfield node) (to_bitfield node)
      else set_usb_boot env 0 0b1111

  boot_part_aside :
      (node : NodeId) (mode : UsbMode) (l : Line) (t : Trace)
      → is_other l ≡ true
      → level l (boot_part node mode t).1 ≡ level l t
  boot_part_aside node mode l t h = ground (
    arith,
    set_usb_boot_aside (to_bitfield node) (to_bitfield node) l t,
    set_usb_boot_aside 0 0b1111 l t,
  )

  switch_aside :
      (usb : UsbArchitecture) (node : NodeId) (mode : UsbMode) (l : Line) (t : Trace)
      → is_kept l ≡ true
      → level l (switch_configure_usb env usb node mode t).1 ≡ level l t
  unfolding switch_configure_usb mux_configure_usb hub_configure_usb perform level
  switch_aside usb node mode l t h = ground arith

  -- Whether it succeeds or not, selecting a node leaves these lines alone.
  pub select_usb_aside :
      (pins : PinController) (node : NodeId) (mode : UsbMode) (l : Line) (t : Trace)
      → is_kept l ≡ true
      → level l (select_usb env pins node mode t).1 ≡ level l t
  unfolding select_usb
  select_usb_aside pins node mode l t h =
      let configured = switch_configure_usb env pins.usb_switch node mode t in
      ground (
        arith,
        switch_aside pins.usb_switch node mode l t,
        boot_part_aside node mode l configured.1,
      )

  pub set_usb_route_aside :
      (pins : PinController) (r : UsbRoute) (i : ℕ) (t : Trace)
      → (level (enable i) (set_usb_route env pins r t).1 ≡ level (enable i) t)
        × (level node1_source (set_usb_route env pins r t).1 ≡ level node1_source t)
  unfolding set_usb_route switch_set_usb_route hub_set_usb_route mux_set_usb_route perform level
  set_usb_route_aside pins r i t = ground arith

  level-output_switch :
      (pins : PinController) (r : UsbRoute) (t : Trace)
      → (set_usb_route env pins r t).0 ≡ ok tt
      → level output_switch (set_usb_route env pins r t).1 ≡ some (route_value r)
  unfolding set_usb_route switch_set_usb_route hub_set_usb_route mux_set_usb_route perform level
  level-output_switch pins r t h = ground arith

  switched :
      (node : NodeId) (mode : UsbMode) (t : Trace)
      → (switch_configure_usb env usb_mux_switch node mode t).0 ≡ ok tt
      → let t' = (switch_configure_usb env usb_mux_switch node mode t).1 in
        (level usb_mux t' ≡ some (mux_values env node))
        × (level usb_vbus t' ≡ some (vbus_values env node mode))
  unfolding switch_configure_usb mux_configure_usb perform level
  switched node mode t h = ground arith

  abbrev outcome : Result Fault (Unit {0}) × Trace → Result Fault (Unit {0})
  outcome r = r.0

  selected :
      (usb : UsbArchitecture) (node : NodeId) (mode : UsbMode) (r : UsbRoute) (t : Trace)
      → level output_switch t ≡ some (route_value r)
      → (select_usb env (record { usb_switch = usb }) node mode t).0 ≡ ok tt
      → RoutesBus usb node mode r (select_usb env (record { usb_switch = usb }) node mode t).1
  unfolding select_usb
  selected usb_hub node mode r t way e =
      select_usb_aside (record { usb_switch = usb_hub }) node mode output_switch t refl ∙ way
  selected usb_mux_switch node mode r t way e =
      let (_, done, steps) =
        bind-ok (switch_configure_usb env usb_mux_switch node mode) (λ _. boot_part node mode) t
          e in
      let t' = (switch_configure_usb env usb_mux_switch node mode t).1 in
      let (mux, vbus) = switched node mode t (done ∙ refl) in
      let aside = λ (l : Line) (h : is_other l ≡ true).
        ap (λ (x : Result Fault (Unit {0}) × Trace). level l x.1) steps
        ∙ boot_part_aside node mode l t' h in
      (
        select_usb_aside (record { usb_switch = usb_mux_switch }) node mode output_switch t refl
            ∙ way,
        aside usb_mux refl ∙ mux,
        aside usb_vbus refl ∙ vbus,
      )

  -- Routing the bus and then selecting a node, if both succeed, sets all lines of the bus.
  pub routed :
      (pins : PinController) (node : NodeId) (mode : UsbMode) (r : UsbRoute) (t : Trace)
      → (set_usb_route env pins r t).0 ≡ ok tt
      → (select_usb env pins node mode (set_usb_route env pins r t).1).0 ≡ ok tt
      → RoutesBus pins.usb_switch node mode r
          (select_usb env pins node mode (set_usb_route env pins r t).1).1
  routed pins node mode r t first second =
      selected pins.usb_switch node mode r (set_usb_route env pins r t).1
        (level-output_switch pins r t first) second
