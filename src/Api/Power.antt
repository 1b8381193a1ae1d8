-- ===== src/Api/Power.antt =====
-- The power handlers of bmcd/src/api/legacy.rs.
pub mod Laws
use tpi_bmcd.Base.{
  ℕ, zero, suc, ◌+◌, ◌^◌, bit_or, Bool, true, false, if◌then◌else◌, String, str_eq, Option, none,
  some, List, [], ◌∷◌, Result, ok, err,
}
use Prim.Native.String.{◌++◌}
use tpi_bmcd.Base.Assoc.{lookup, text_key}
use tpi_bmcd.Hal.{NodeId, node1, node2, node3, node4}
use tpi_bmcd.Hal.Device.{Env, Fault}
use tpi_bmcd.App.Slots
use tpi_bmcd.App.State.{App}
use tpi_bmcd.Api.{
  Query, LegacyResponse, success, object, bad_request, Handler, reply, run, replied, or_refuse,
  get_node_param, Json,
}

-- `format!("node{}", idx + 1)`, for the four places.
abbrev pub param : ℕ → String
param zero = "node1"
param (suc zero) = "node2"
param (suc (suc zero)) = "node3"
param (suc (suc (suc _))) = "node4"

-- The match on a parameter's text.
pub data Requested : Type 0 where
  absent : Requested
  power : Bool → Requested
  invalid : String → Requested

abbrev pub requested : Option String → Requested
requested none = absent
requested (some x) =
    if str_eq x "0" then power false else if str_eq x "1" then power true else invalid x

abbrev pub invalid_value : String → String → LegacyResponse
invalid_value x name = bad_request ("Invalid value `" ++ x ++ "` for parameter `" ++ name ++ "`")

-- The loop: the states and the mask, or the refusal.
unfoldable pub power_masks : Query → List ℕ → ℕ → ℕ → Result LegacyResponse (ℕ × ℕ)
power_masks query [] states mask = ok (states, mask)
power_masks query (idx ∷ places) states mask = elim (requested (lookup (param idx) query)) [
  | absent ↦ power_masks query places states mask
  | power req_status ↦
      power_masks query places (if req_status then bit_or states (2 ^ idx) else states)
        (bit_or mask (2 ^ idx))
  | invalid x ↦ err (invalid_value x (param idx))
]

module _ (env : Env) where
  unfoldable pub set_node_power : Query → Handler
  set_node_power query =
      or_refuse (power_masks query (0 ∷ 1 ∷ 2 ∷ 3 ∷ []) 0 0)
        λ (states, mask). run (Slots.activate_slot env states mask)

  -- `u8::from(status).to_string()`; reading the status cannot fail here.
  abbrev status_text : Result Fault Bool → String
  status_text (ok true) = "1"
  status_text (ok false) = "0"
  status_text (err e) = "Unknown"

  abbrev pub power_status : App → NodeId → String
  power_status a n = status_text (Slots.get_node_power env n a).0

  unfoldable pub get_node_power : Handler
  get_node_power a =
      reply
        (success (
          some (
            object (
              ("node1", power_status a node1)
              ∷ ("node2", power_status a node2)
              ∷ ("node3", power_status a node3)
              ∷ ("node4", power_status a node4)
              ∷ []))))
        a

  unfoldable pub reset_node : Query → Handler
  reset_node query = or_refuse (get_node_param query) λ n. run (Slots.reset_node env n)
