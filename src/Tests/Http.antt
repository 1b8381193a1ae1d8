-- ===== src/Tests/Http.antt =====
-- Requests to the API.
use tpi_bmcd.Base.{◌≡◌, refl, String, true, false, none, some, [], ◌∷◌, ok, err, is_ok, arith}
use tpi_bmcd.Base.Bits.{bit}
use tpi_bmcd.Base.Signed.{pos}
use tpi_bmcd.Base.Text.{parse_i32, parse_unsigned, unsigned, digits_value}
use tpi_bmcd.Base.Assoc.{lookup, text_key}
use tpi_bmcd.Hal.{
  node1, node2, flash, host, alternative_port, from_api_mode, mode_of, try_from_i32, try_from_u8,
}
use tpi_bmcd.Hal.Device.{flawless}
use tpi_bmcd.Hal.Pins.{usb_hub, usb_mux_switch}
use tpi_bmcd.App.State.{App, default_db}
use tpi_bmcd.App.Usb.{configure_usb}
use tpi_bmcd.Stream.{Service, transferring, take_sender, cancel_all}
use tpi_bmcd.Api.{Query, replied, success, error, missing_bytes, get_node_param}
use tpi_bmcd.Api.Power.{set_node_power}
use tpi_bmcd.Api.Power.Laws.{set_node_power_lem}
use tpi_bmcd.Api.Usb.{mode_param, set_usb_mode, get_usb_mode, usb_report, api_route, usb_config}
use tpi_bmcd.Api.Usb.Laws.{get_usb_mode-set_usb_mode}
use tpi_bmcd.Api.Upload.{handle_file_upload}
use tpi_bmcd.Api.Upload.Laws.{handle_file_upload_lem}

abbrev board : App
board = record {
  pins = record { usb_switch = usb_mux_switch };
  db = record default_db { activated_nodes = 0b0011 };
  trace = [];
}

abbrev power_query : Query
power_query = ("opt", "set") ∷ ("type", "power") ∷ ("node1", "0") ∷ ("node3", "1") ∷ []

set_node_power_lem_example :
    let b = (set_node_power flawless power_query board).1 in
    (bit 2 b.db.activated_nodes ≡ 1) × (board ≡ board)
unfolding lookup
set_node_power_lem_example = set_node_power_lem flawless power_query 2 board (omega arith)

abbrev usb_query : String → Query
usb_query mode = ("node", "1") ∷ ("mode", mode) ∷ []

second_node : get_node_param (usb_query "3") ≡ ok node2
unfolding get_node_param lookup parse_i32 parse_unsigned unsigned digits_value try_from_i32
    try_from_u8
second_node = refl

mode_three : mode_param (usb_query "3") ≡ ok (pos 3)
unfolding mode_param lookup parse_i32 parse_unsigned unsigned digits_value
mode_three = refl

node_two : get_node_param (usb_query "2") ≡ ok node2
unfolding get_node_param lookup parse_i32 parse_unsigned unsigned digits_value try_from_i32
    try_from_u8
node_two = refl

mode_two : mode_param (usb_query "2") ≡ ok (pos 2)
unfolding mode_param lookup parse_i32 parse_unsigned unsigned digits_value
mode_two = refl

flash_mode : from_api_mode (pos 2) ≡ some flash
unfolding from_api_mode mode_of
flash_mode = refl

flashed : (set_usb_mode flawless (usb_query "2") board).0 ≡ replied (success none)
unfolding set_usb_mode get_node_param lookup parse_i32 unsigned try_from_i32 mode_param
    from_api_mode configure_usb tpi_bmcd.App.Usb.configure_usb_internal tpi_bmcd.Hal.is_flash
    tpi_bmcd.App.Usb.wiring usb_config tpi_bmcd.Hal.Pins.set_usb_route
    tpi_bmcd.Hal.Pins.switch_set_usb_route tpi_bmcd.Hal.Pins.mux_set_usb_route api_route
    tpi_bmcd.Hal.Device.perform tpi_bmcd.App.Gadget.remove_msd_function digits_value parse_unsigned
    tpi_bmcd.Hal.Helpers.bit_iterator tpi_bmcd.Hal.Helpers.bit_update
    tpi_bmcd.Hal.Pins.mux_configure_usb tpi_bmcd.Hal.Pins.select_usb
    tpi_bmcd.Hal.Pins.set_boot_lines tpi_bmcd.Hal.Pins.set_usb_boot
    tpi_bmcd.Hal.Pins.switch_configure_usb tpi_bmcd.Hal.is_host mode_of tpi_bmcd.Hal.to_bitfield
    try_from_u8
flashed = refl

get_usb_mode-set_usb_mode_example :
    let b = (set_usb_mode flawless (usb_query "2") board).1 in
    (get_usb_mode flawless b).0
    ≡ replied (usb_report (node2, flash, api_route (pos 2)) b.pins.usb_switch)
get_usb_mode-set_usb_mode_example =
    get_usb_mode-set_usb_mode flawless (usb_query "2") node2 (pos 2) flash board node_two mode_two
      flash_mode flashed

abbrev uploading : Service
uploading = record {
  status =
      transferring
        (record { id = 11; process_name = "upload"; size = 100; data_sender = true; token = 1 });
  cancelled = [];
}

sender : (take_sender 11 uploading).0 ≡ ok (1, 100)
unfolding take_sender
sender = refl

-- 120 bytes for an upload of 100.
handle_file_upload_lem_example :
    let (r, s') =
      handle_file_upload 11 (some ((60, true) ∷ (60, true) ∷ [])) (λ s. s) [] uploading in
    (is_ok r ≡ false)
    × (s' ≡ cancel_all (take_sender 11 uploading).1)
    × (r ≡ err (error 400 (missing_bytes 18446744073709551596)))
handle_file_upload_lem_example =
    handle_file_upload_lem 11 1 100 ((60, true) ∷ (60, true) ∷ []) (λ s. s) [] uploading sender
      (omega arith) (omega arith)
