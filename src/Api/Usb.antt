-- ===== src/Api/Usb.antt =====
-- The USB handlers of bmcd/src/api/legacy.rs.
pub mod Laws
use tpi_bmcd.Base.{
  ℕ, ◌/◌, ◌==◌, Bool, true, false, if◌then◌else◌, String, Option, none, some, List, [], ◌∷◌, Result,
  ok, err,
}
use tpi_bmcd.Base.Results.{◌>>=◌, ok_or}
use tpi_bmcd.Base.Text.{parse_i32}
use tpi_bmcd.Base.Signed.{ℤ, low_bits}
use tpi_bmcd.Base.Assoc.{lookup, text_key}
use tpi_bmcd.Hal.{
  NodeId, node1, node2, node3, node4, UsbRoute, bmc, alternative_port, UsbMode, host, device, flash,
  from_api_mode,
}
use tpi_bmcd.Hal.Device.{Env}
use tpi_bmcd.Hal.Pins.{UsbArchitecture, usb_hub, usb_mux_switch}
use tpi_bmcd.App.State.{App, UsbConfig, usb_a, bmc_host, node, flashing}
use tpi_bmcd.App.Usb
use tpi_bmcd.App.Lifecycle
use tpi_bmcd.Api.{
  Query, LegacyResponse, success, object, boolean, bad_request, Handler, Reply, panicked, reply,
  run, or_refuse, get_node_param,
}

unfoldable pub usb_config : NodeId → UsbMode → UsbRoute → UsbConfig
usb_config n device alternative_port = usb_a n
usb_config n device bmc = bmc_host n
usb_config n host route = node n route
usb_config n flash route = flashing n route

-- `(mode_num >> 2) & 1`
unfoldable pub api_route : ℤ → UsbRoute
api_route mode_num = if low_bits mode_num 8 / 4 == 1 then bmc else alternative_port

unfoldable pub mode_param : Query → Result LegacyResponse ℤ
mode_param query =
    ok_or (lookup "mode" query) (bad_request "Missing `mode` parameter") >>= λ mode_str.
    ok_or (parse_i32 mode_str) (bad_request "Parameter `mode` is not a number")

-- `Display` of a node, and the serialised mode, route and bus type.
unfoldable pub node_text : NodeId → String
node_text node1 = "Node 1"
node_text node2 = "Node 2"
node_text node3 = "Node 3"
node_text node4 = "Node 4"

unfoldable pub mode_text : UsbMode → String
mode_text host = "Host"
mode_text device = "Device"
mode_text flash = "Flash"

unfoldable pub route_text : UsbRoute → String
route_text bmc = "Bmc"
route_text alternative_port = "AlternativePort"

unfoldable pub bus_text : UsbArchitecture → String
bus_text usb_hub = "Usb hub"
bus_text usb_mux_switch = "Single bus"

-- The tuple `(node, mode, route)` of a configuration.
unfoldable pub shown : UsbConfig → NodeId × UsbMode × UsbRoute
shown (usb_a n) = (n, device, alternative_port)
shown (bmc_host n) = (n, device, bmc)
shown (node n route) = (n, host, route)
shown (flashing n route) = (n, flash, route)

abbrev pub usb_report : NodeId × UsbMode × UsbRoute → UsbArchitecture → LegacyResponse
usb_report (n, mode, route) bus = success (
    some (
      object (
        ("mode", mode_text mode)
        ∷ ("node", node_text n)
        ∷ ("route", route_text route)
        ∷ ("bus_type", bus_text bus)
        ∷ [])))

module _ (env : Env) where
  abbrev pub configure : NodeId → ℤ → Option UsbMode → Handler
  configure n mode_num none a = (panicked, a)
  configure n mode_num (some mode) a =
      run (Usb.configure_usb env (usb_config n mode (api_route mode_num))) a

  unfoldable pub set_usb_mode : Query → Handler
  set_usb_mode query =
      or_refuse (get_node_param query)
        λ n. or_refuse (mode_param query) λ mode_num. configure n mode_num (from_api_mode mode_num)

  unfoldable pub get_usb_mode : Handler
  get_usb_mode a = reply (usb_report (shown a.db.usb_config) a.pins.usb_switch) a

  abbrev pub contains_key : String → Query → Bool
  contains_key k query = elim (lookup k query) [ none ↦ false | some _ ↦ true ]

  unfoldable pub set_node1_usb_mode : Query → Handler
  set_node1_usb_mode query =
      run (Usb.set_node1_usb_route env (contains_key "alternative_port" query))

  unfoldable pub get_node1_usb_mode : Handler
  get_node1_usb_mode a = reply (success (some (boolean a.db.node1_usb))) a

  unfoldable pub usb_boot : Query → Handler
  usb_boot query = or_refuse (get_node_param query) λ n. run (Usb.usb_boot env n true)

  unfoldable pub clear_usb_boot : Handler
  clear_usb_boot = run (Usb.clear_usb_boot env)

  unfoldable pub set_node_to_msd : Query → Handler
  set_node_to_msd query = or_refuse (get_node_param query) λ n a.
      let (r, b) = Lifecycle.node_in_msd env n a in
      run (λ c. (elim r [ ok _ ↦ ok tt | err e ↦ err e ], c)) b

  unfoldable pub reboot : Query → Handler
  reboot query = run (Lifecycle.reboot env (contains_key "fel" query))
