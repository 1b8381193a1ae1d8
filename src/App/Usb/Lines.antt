-- ===== src/App/Usb/Lines.antt =====
-- What a USB configuration leaves on the lines of the board.
use tpi_bmcd.Base.{
  ℕ, ◌<◌, ◌≡◌, ◌∙◌, refl, sym, ap, subst, Bool, true, false, if◌then◌else◌, Option, some, Result,
  ok, ◌==◌, arith,
}
use tpi_bmcd.Base.Exec.{bind-ok, ◌>>◌, pure}
use tpi_bmcd.Hal.{UsbMode, is_flash, to_u8}
use tpi_bmcd.Hal.Device.{Env, Fault, Trace, level, enable, node1_source, rpi_boot, perform}
use tpi_bmcd.Hal.Pins
use tpi_bmcd.Hal.Pins.{
  PinController, UsbArchitecture, set_usb_route, select_usb, usb_hub, usb_mux_switch,
  switch_set_node1_usb_route, hub_set_node1_usb_route,
}
use tpi_bmcd.Hal.Pins.Lines.{RoutesBus, routed, select_usb_aside, set_usb_route_aside}
use tpi_bmcd.App.State.{App, Db, Cmd, hal, logged, UsbConfig}
use tpi_bmcd.App.Gadget.{remove_msd_function}
use tpi_bmcd.App.Usb.{
  Wiring, wiring, configure_usb_internal, configure_usb, initialize_usb_mode, is_hub,
}
use tpi_bmcd.App.Usb.Laws.{level-configure_usb_internal}

-- A boot line: `low` unless the mode is flash, and else high if the node is the one that is flashed.
abbrev pub BootLine : Bool → Bool → Option ℕ → Type 0
BootLine false own v = v ≡ some 0
BootLine true true v = v ≡ some 1
BootLine true false v = Unit {0}

-- The lines that lead the bus of node 1, which only the hub has.
abbrev pub Node1Line : UsbArchitecture → Bool → Option ℕ → Type 0
Node1Line usb_hub alternative v = v ≡ some (if alternative then 3 else 0)
Node1Line usb_mux_switch alternative v = Unit {0}

module _ (env : Env) where
  abbrev pub BootLines : Db → Trace → Type 0
  BootLines db t =
      let w = wiring db.usb_config in
      (i : ℕ) → i < 4 → BootLine (is_flash w.mode) (i == to_u8 w.dest) (level (rpi_boot i) t)

  -- The lines of the board are those of the stored USB configuration and route of node 1.
  abbrev pub ShowsUsb : UsbArchitecture → Db → Trace → Type 0
  ShowsUsb usb db t =
      let w = wiring db.usb_config in
      RoutesBus env usb w.dest w.mode w.route t
      × Node1Line usb db.node1_usb (level node1_source t)
      × BootLines db t

  abbrev outcome : Result Fault (Unit {0}) × App → Result Fault (Unit {0})
  outcome r = r.0

  gadget_aside :
      (t : Trace) (i : ℕ)
      → (level (enable i) (remove_msd_function env t).1 ≡ level (enable i) t)
        × (level node1_source (remove_msd_function env t).1 ≡ level node1_source t)
  unfolding remove_msd_function level
  gadget_aside t i = ground arith

  gadget_part : UsbMode → Cmd (Unit {0})
  gadget_part m = if is_flash m then pure tt else logged (hal (remove_msd_function env))

  gadget_part_lem :
      (m : UsbMode) (a : App) (i : ℕ)
      → (level (enable i) (gadget_part m a).1.trace ≡ level (enable i) a.trace)
        × (level node1_source (gadget_part m a).1.trace ≡ level node1_source a.trace)
        × ((gadget_part m a).1.pins ≡ a.pins)
  unfolding gadget_part
  gadget_part_lem m a i = ground (arith, gadget_aside a.trace i)

  abbrev routing : Wiring → App → Cmd (Unit {0})
  routing w a = hal (set_usb_route env a.pins w.route) >> hal (select_usb env a.pins w.dest w.mode)

  -- The trace after the gadget and the way of the bus, before the node is selected.
  abbrev before_select : Wiring → App → Trace
  before_select w a = (set_usb_route env a.pins w.route (gadget_part w.mode a).1.trace).1

  -- The steps of a configuration that succeeds.
  internal_steps :
      (c : UsbConfig) (a : App)
      → (configure_usb_internal env c a).0 ≡ ok tt
      → let w = wiring c in
        let t = before_select w a in
        ((set_usb_route env a.pins w.route (gadget_part w.mode a).1.trace).0 ≡ ok tt)
        × ((select_usb env a.pins w.dest w.mode t).0 ≡ ok tt)
        × ((configure_usb_internal env c a).1.trace ≡ (select_usb env a.pins w.dest w.mode t).1)
        × ((configure_usb_internal env c a).1.pins ≡ a.pins)
  unfolding configure_usb_internal gadget_part
  internal_steps c a e =
      let w = wiring c in
      let (_, _, first) = bind-ok (gadget_part w.mode) (λ _. routing w a) a e in
      let b = (gadget_part w.mode a).1 in
      let e' : (routing w a b).0 ≡ ok tt = sym (ap outcome first) ∙ e in
      let (_, way, second) =
        bind-ok (hal (set_usb_route env a.pins w.route))
          (λ _. hal (select_usb env a.pins w.dest w.mode)) b e' in
      let all = first ∙ second in
      (
        way ∙ refl,
        sym (ap outcome second) ∙ e',
        ap (λ (r : Result Fault (Unit {0}) × App). r.1.trace) all,
        ap (λ (r : Result Fault (Unit {0}) × App). r.1.pins) all ∙ (gadget_part_lem w.mode a 0).2,
      )

  -- A configuration that succeeds moves no enable line and not the line of node 1, and sets the lines
  -- of the bus.
  pub configure_usb_internal_lem :
      (c : UsbConfig) (a : App) (i : ℕ)
      → (configure_usb_internal env c a).0 ≡ ok tt
      → let w = wiring c in
        let t = (configure_usb_internal env c a).1.trace in
        (level (enable i) t ≡ level (enable i) a.trace)
        × (level node1_source t ≡ level node1_source a.trace)
        × RoutesBus env a.pins.usb_switch w.dest w.mode w.route t
        × ((configure_usb_internal env c a).1.pins ≡ a.pins)
  configure_usb_internal_lem c a i e =
      let w = wiring c in
      let (way, select, trace, pins) = internal_steps c a e in
      let t0 = (gadget_part w.mode a).1.trace in
      let t = before_select w a in
      let gadget = gadget_part_lem w.mode a i in
      let route = set_usb_route_aside env a.pins w.route i t0 in
      let aside = select_usb_aside env a.pins w.dest w.mode in
      rw trace (
        aside (enable i) t refl ∙ route.0 ∙ gadget.0,
        aside node1_source t refl ∙ route.1 ∙ gadget.1,
        routed env a.pins w.dest w.mode w.route t0 way select,
        pins,
      )

  configured :
      (c : UsbConfig) (a : App)
      → (configure_usb env c a).0 ≡ ok tt
      → ((configure_usb_internal env c a).0 ≡ ok tt)
        × ((configure_usb env c a).1.trace ≡ (configure_usb_internal env c a).1.trace)
        × ((configure_usb env c a).1.pins ≡ (configure_usb_internal env c a).1.pins)
  unfolding configure_usb
  configured c a e = ground arith

  boot_line :
      (flashed own : Bool) (old v : Option ℕ)
      → v ≡ (if flashed then (if own then some 1 else old) else some 0)
      → BootLine flashed own v
  boot_line false own old v e = e
  boot_line true true old v e = e
  boot_line true false old v e = tt

  configure_usb_shows :
      (usb : UsbArchitecture) (c : UsbConfig) (a : App)
      → a.pins.usb_switch ≡ usb
      → (configure_usb env c a).0 ≡ ok tt
      → Node1Line usb a.db.node1_usb (level node1_source a.trace)
      → ShowsUsb usb (record a.db { usb_config = c }) (configure_usb env c a).1.trace
        × ((configure_usb env c a).1.pins ≡ a.pins)
  configure_usb_shows usb c a is e node1 =
      let (done, trace, pins) = configured c a e in
      let (_, source, routes, kept) = configure_usb_internal_lem c a 0 done in
      let w = wiring c in
      let t = (configure_usb_internal env c a).1.trace in
      (
        rw trace (
          subst (λ (u : UsbArchitecture). RoutesBus env u w.dest w.mode w.route t) is routes,
          subst (Node1Line usb a.db.node1_usb) (sym source) node1,
          λ i h.
              boot_line (is_flash w.mode) (i == to_u8 w.dest) (level (rpi_boot i) a.trace) _
                (level-configure_usb_internal env c a i h done),
        ),
        pins ∙ kept,
      )

  node1_routed :
      (alternative : Bool) (a : App)
      → let set = hal (hub_set_node1_usb_route env alternative) in
        (set a).0 ≡ ok tt → level node1_source (set a).1.trace ≡ some (if alternative then 3 else 0)
  unfolding hub_set_node1_usb_route perform level
  node1_routed alternative a e = ground arith

  -- When the stored USB mode could be initialized, the board shows it.
  pub initialize_usb_mode_shows :
      (a : App)
      → (initialize_usb_mode env a).0 ≡ ok tt
      → ShowsUsb a.pins.usb_switch a.db (initialize_usb_mode env a).1.trace
        × ((initialize_usb_mode env a).1.pins ≡ a.pins)
  unfolding initialize_usb_mode Pins.set_node1_usb_route switch_set_node1_usb_route is_hub
  initialize_usb_mode_shows a e = go a.pins.usb_switch a.db a.trace e
    where
      go :
          (usb : UsbArchitecture) (db : Db) (t : Trace)
          → let a : App = record { pins = record { usb_switch = usb }; db = db; trace = t } in
            (initialize_usb_mode env a).0 ≡ ok tt
            → ShowsUsb usb db (initialize_usb_mode env a).1.trace
              × ((initialize_usb_mode env a).1.pins ≡ a.pins)
      go usb_hub db t e =
          let a : App = record { pins = record { usb_switch = usb_hub }; db = db; trace = t } in
          let set : Cmd (Unit {0}) = hal (hub_set_node1_usb_route env db.node1_usb) in
          let (_, done, steps) = bind-ok set (λ _. configure_usb env db.usb_config) a e in
          let b = (set a).1 in
          let (shows, pins) =
            configure_usb_shows usb_hub db.usb_config b refl (sym (ap outcome steps) ∙ e)
              (node1_routed db.node1_usb a (done ∙ refl)) in
          rw steps (shows, pins)
      go usb_mux_switch db t e =
          configure_usb_shows usb_mux_switch db.usb_config
            (record { pins = record { usb_switch = usb_mux_switch }; db = db; trace = t }) refl e tt
