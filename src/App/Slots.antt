-- ===== src/App/Slots.antt =====
-- The power part of bmc_application.rs: which slots are activated, and since when nodes are on.
pub mod Laws
pub mod Lines
pub mod Times
use tpi_bmcd.Base.{
  ℕ, ◌^◌, ◌-◌, ◌+◌, ◌%◌, bit_and, bit_or, Bool, true, false, not, ◌&&◌, ◌==◌, if◌then◌else◌, Option,
  none, some, List, [], ◌∷◌, map, Result, ok, err, String,
}
use tpi_bmcd.Base.Bits.{not_u8}
use tpi_bmcd.Base.Exec.{Exec, pure, raise, gets, ◌>>=◌, ◌>>◌}
use tpi_bmcd.Hal.{NodeId, to_u8, to_bitfield}
use tpi_bmcd.Hal.Helpers.{bit_iterator}
use tpi_bmcd.Hal.Device.{Env, Fault, mask_is_zero, clock_before_epoch}
use tpi_bmcd.Hal.Power.{power_led, set_power_node}
use tpi_bmcd.Hal.Power
use tpi_bmcd.App.State.{App, Db, NodeInfo, Cmd, hal, logged, set_db, now, modify_at}

-- The body of the loop of `update_power_on_times`: `new_state` is 0 or 1, while `current_state` is
-- the bit in its place.
unfoldable pub stamp : ℕ → ℕ → ℕ → Option ℕ → NodeInfo → NodeInfo
stamp activated_nodes idx new_state current_time info =
    let current_state = bit_and activated_nodes (2 ^ idx) in
    if new_state == current_state
    then info
    else record info { power_on_time = if new_state == 1 then current_time else none }

-- `(state & !mask) | (node_states & mask)`
unfoldable pub merge_state : ℕ → ℕ → ℕ → ℕ
merge_state state node_states mask = bit_or (bit_and state (not_u8 mask)) (bit_and node_states mask)

module _ (env : Env) where
  unfoldable pub stamp_all : ℕ → List (ℕ × ℕ) → List NodeInfo → Cmd (List NodeInfo)
  stamp_all activated_nodes [] infos = pure infos
  stamp_all activated_nodes ((idx, new_state) ∷ updates) infos = do
    current_time ← now env
    stamp_all activated_nodes updates
        (modify_at idx (stamp activated_nodes idx new_state current_time) infos)

  unfoldable pub update_power_on_times : ℕ → ℕ → ℕ → Cmd (Unit {0})
  update_power_on_times activated_nodes node_states mask a =
      (do
        infos ← stamp_all activated_nodes (bit_iterator node_states mask) a.db.node_infos
        set_db (λ db. record db { node_infos = infos }))
        a

  unfoldable pub activate_slot : ℕ → ℕ → Cmd (Unit {0})
  activate_slot node_states mask a =
      let state = a.db.activated_nodes in
      let new_state = merge_state state node_states mask in
      if mask == 0
      then (err mask_is_zero, a)
      else (do
        update_power_on_times state node_states mask
        set_db (λ db. record db { activated_nodes = new_state })
        logged (hal (power_led env (not (new_state == 0))))
        hal (set_power_node env node_states mask))
          a

  unfoldable pub toggle_power_states : Bool → Cmd (Unit {0})
  toggle_power_states inverse_toggle a =
      let node_values = a.db.activated_nodes in
      let on = node_values == 0 in
      let flip = inverse_toggle && (not (node_values == 0) && not (node_values == 0b1111)) in
      activate_slot (if (if flip then not on else on) then 0b1111 else 0) 0b1111 a

  unfoldable pub get_node_power : NodeId → Cmd Bool
  get_node_power n = gets (λ a. not (bit_and a.db.activated_nodes (to_bitfield n) == 0))

  unfoldable pub reset_node : NodeId → Cmd (Unit {0})
  reset_node n = hal (Power.reset_node env n)

  -- `u64` subtraction, as it wraps in a release build.
  abbrev sub_u64 : ℕ → ℕ → ℕ
  sub_u64 a b = (a + 2 ^ 64 - b) % 2 ^ 64

  abbrev elapsed : ℕ → NodeInfo → NodeInfo
  elapsed current_time info = record info {
    power_on_time = elim info.power_on_time [
      | none ↦ none
      | some t ↦ some (sub_u64 current_time t)
    ];
  }

  abbrev report : Option ℕ → List NodeInfo → Result Fault (List NodeInfo)
  report none infos = err clock_before_epoch
  report (some current_time) infos = ok (map (elapsed current_time) infos)

  unfoldable pub get_node_infos : Cmd (List NodeInfo)
  get_node_infos = do current_time ← now env; λ a. (report current_time a.db.node_infos, a)

abbrev or_else {ℓ} : {A : Type ℓ} → Option A → Option A → Option A
or_else none old = old
or_else (some new) old = some new

-- One entry of the request: the fields that it gives replace the stored ones.
unfoldable pub merge_info : NodeInfo → NodeInfo → NodeInfo
merge_info info stored = record stored {
  name = or_else info.name stored.name;
  module_name = or_else info.module_name stored.module_name;
  uart_baud = or_else info.uart_baud stored.uart_baud;
}

unfoldable pub merge_infos : List (NodeId × NodeInfo) → List NodeInfo → List NodeInfo
merge_infos [] stored = stored
merge_infos ((k, info) ∷ rest) stored =
    merge_infos rest (modify_at (to_u8 k) (merge_info info) stored)

unfoldable pub set_node_info : List (NodeId × NodeInfo) → Cmd (Unit {0})
set_node_info new_info =
    set_db (λ db. record db { node_infos = merge_infos new_info db.node_infos })
