-- ===== src/Tests/Requests.antt =====
-- A local image is flashed to the third node, and the copy is cut off.
use tpi_bmcd.Base.{◌≡◌, refl, true, false, some, [], ◌∷◌, ok, err, arith}
use tpi_bmcd.Base.Bits.{bit}
use tpi_bmcd.Base.Text.{starts_with, parse_i32, parse_unsigned, digits_value, unsigned}
use tpi_bmcd.Base.Assoc.{lookup, text_key}
use tpi_bmcd.Hal.{node1, node3, to_u8, is_flash, try_from_i32, try_from_u8}
use tpi_bmcd.Hal.Device.{flawless, level, rpi_boot, enable}
use tpi_bmcd.App.State.{usb_a}
use tpi_bmcd.App.Usb.{wiring}
use tpi_bmcd.Utils.Io.{interrupted}
use tpi_bmcd.Upgrade.{io, local, Files, size, sender_half, reader, with_decompression_support}
use tpi_bmcd.Upgrade.Path.{has_extension}
use tpi_bmcd.Upgrade.Copy.{transfer, try_write_node, copy_or_cancel}
use tpi_bmcd.Upgrade.Request.{TransferRequest, module_upgrade, try_into}
use tpi_bmcd.Stream.{done, error}
use tpi_bmcd.Stream
use tpi_bmcd.Api.{Query, get_node_param}
use tpi_bmcd.Api.Transfer.{
  handle_transfer_request, transfer_request, initialize_transfer, choose_command,
  create_data_transfer, try_map_sha256,
}
use tpi_bmcd.Api.Transfer.Worker.{Machine, Copies, run_to_end}
use tpi_bmcd.Api.Transfer.Worker.Laws.{flash_request_lem}
use tpi_bmcd.Tests.Application.{two_on}
use tpi_bmcd.Tests.Flashing.{
  adder, three_bytes, cut_off, obedient, no_web, unlimited, loaded, restored,
}

abbrev flash_query : Query
flash_query = ("type", "flash") ∷ ("node", "2") ∷ ("file", "/mnt/image.img") ∷ ("local", "") ∷ []

abbrev disk : Files
disk path = ok 3

abbrev flash_request : TransferRequest
flash_request = record {
  process = "Node 3 os install service";
  total = 3;
  sender = false;
  worker =
      (module_upgrade node3, record { crc_validation = true; source = local "/mnt/image.img" });
}

abbrev copies : Copies
copies = record { flashing = cut_off; updating = three_bytes }

abbrev machine : Machine
machine = record { app = two_on; log = [] }

flash_request_lem_example :
    let (answer, s) = handle_transfer_request no_web disk 11 1 flash_query Stream.new in
    let (m, s') =
      run_to_end flawless obedient unlimited disk adder
        (λ e. "stopped")
        7
        1
        flash_request
        copies
        machine
        s in
    (answer ≡ some (ok 11))
    × (s'.status ≡ error "stopped")
    × (bit 2 m.app.db.activated_nodes ≡ 0)
    × (m.app.db.usb_config ≡ usb_a node1)
    × (level (rpi_boot 2) m.app.trace ≡ some 0)
    × (level (enable 2) m.app.trace ≡ some 0)
unfolding wiring is_flash to_u8 transfer_request initialize_transfer choose_command
    create_data_transfer try_map_sha256 lookup starts_with parse_i32 parse_unsigned digits_value
    unsigned try_into sender_half size get_node_param try_from_i32 try_from_u8 transfer
    try_write_node copy_or_cancel reader with_decompression_support has_extension Stream.drop_state
flash_request_lem_example =
    flash_request_lem flawless obedient unlimited disk adder no_web (λ e. "stopped") 11 1 7
      flash_query flash_request node3 copies machine Stream.new 2 (err (io interrupted)) refl refl
      refl (omega arith) refl loaded refl restored
