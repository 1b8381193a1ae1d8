-- ===== src/Tests/Application.antt =====
-- The application on a fresh board, and on one with the first two nodes on.
use tpi_bmcd.Base.{◌≡◌, refl, true, false, some, [], ◌∷◌, ok, arith, get_elem?, is_ok}
use tpi_bmcd.Base.Bits.{bit}
use tpi_bmcd.Hal.{node1}
use tpi_bmcd.Hal.Helpers.{bit_update, bit_iterator}
use tpi_bmcd.Hal.Device.{flawless, perform, level, enable, did, set_values}
use tpi_bmcd.Hal.Pins.{usb_hub}
use tpi_bmcd.Hal.Power.{set_power_node, power_nodes, power_led}
use tpi_bmcd.App.State.{App, default_db, no_info, NodeInfo, usb_a}
use tpi_bmcd.App.Slots.{activate_slot, update_power_on_times, stamp_all}
use tpi_bmcd.App.Slots.Laws.{InSync, activate_slot-InSync, activate_slot_stores}
use tpi_bmcd.App.Slots.Times.{running_node_restarts}
use tpi_bmcd.App.Cooling.{set_cooling_speed, set_cooling_state, find_device}
use tpi_bmcd.App.Cooling.Laws.{set_cooling_speed_lem}
use tpi_bmcd.Base.Assoc.{lookup, nat_key}

abbrev fresh_board : App
fresh_board = record { pins = record { usb_switch = usb_hub }; db = default_db; trace = [] }

abbrev old_info : NodeInfo
old_info = record no_info { power_on_time = some 5 }

-- Nodes 1 and 2 are on since time 5, and the lines show it.
abbrev pub two_on : App
two_on = record fresh_board {
  db = record default_db {
    activated_nodes = 0b0011;
    node_infos = old_info ∷ old_info ∷ no_info ∷ no_info ∷ [];
  };
  trace =
      did (set_values (enable 0) 1)
      ∷ did (set_values (enable 1) 1)
      ∷ did (set_values (enable 2) 0)
      ∷ did (set_values (enable 3) 0)
      ∷ [];
}

two_on-InSync : InSync two_on
unfolding level bit
two_on-InSync = (refl, refl, refl, refl)

switch_third : (activate_slot flawless 0b0100 0b0110 two_on).0 ≡ ok tt
unfolding activate_slot update_power_on_times stamp_all power_led set_power_node power_nodes perform
    bit_iterator bit_update
switch_third = refl

activate_slot-InSync_example : InSync (activate_slot flawless 0b0100 0b0110 two_on).1
activate_slot-InSync_example =
    activate_slot-InSync flawless 0b0100 0b0110 two_on (λ e. cc) (omega arith) two_on-InSync
      switch_third

switch_all : (activate_slot flawless 0b1001 0b1111 fresh_board).0 ≡ ok tt
unfolding activate_slot update_power_on_times stamp_all power_led set_power_node power_nodes perform
    bit_iterator bit_update
switch_all = refl

activate_slot_stores_example :
    let db = (activate_slot flawless 0b0100 0b0110 two_on).1.db in
    (bit 1 db.activated_nodes ≡ 0)
    × (db.usb_config ≡ usb_a node1)
    × (db.node1_usb ≡ false)
    × (db.cooling ≡ [])
unfolding bit
activate_slot_stores_example =
    activate_slot_stores flawless 0b0100 0b0110 1 two_on (λ e. cc) (omega arith) (omega arith)

-- Node 2 has been on since 5, and is asked to be on at time 1000.
running_node_restarts_example :
    get_elem? (activate_slot flawless 0b0010 0b0010 two_on).1.db.node_infos 1
    ≡ some (record old_info { power_on_time = some 1000 })
unfolding bit
running_node_restarts_example =
    running_node_restarts flawless 0b0010 0b0010 1 two_on old_info (λ e. cc) (omega arith) refl refl
      refl refl

set_cooling_speed_lem_example :
    let (r, b) = set_cooling_speed flawless "system fan" 4 fresh_board in
    (is_ok r ≡ true)
    × (lookup 7 b.db.cooling ≡ some 4)
    × (b.db ≡ record default_db { cooling = b.db.cooling })
unfolding set_cooling_speed find_device perform set_cooling_state lookup
set_cooling_speed_lem_example = set_cooling_speed_lem flawless "system fan" 4 7 fresh_board
