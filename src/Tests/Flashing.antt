-- ===== src/Tests/Flashing.antt =====
-- An interrupted flash, a validated one, and firmware upgrades.
use tpi_bmcd.Base.{
  ℕ, ◌+◌, ◌≡◌, refl, Bool, List, true, false, none, some, [], ◌∷◌, ◌++◌, ok, err, is_ok, arith,
}
use tpi_bmcd.Base.Text.{starts_with, parse_unsigned, digits_value, unsigned}
use tpi_bmcd.Base.Assoc.{lookup, text_key}
use tpi_bmcd.Hal.{node3, bmc, to_bitfield, to_inverse_bitfield, is_host, is_flash}
use tpi_bmcd.Hal.Helpers.{bit_update, bit_iterator}
use tpi_bmcd.Hal.Device.{flawless, perform}
use tpi_bmcd.Hal.Pins.{
  select_usb, set_usb_boot, set_boot_lines, switch_configure_usb, hub_configure_usb, set_usb_route,
  switch_set_usb_route, hub_set_usb_route,
}
use tpi_bmcd.Hal.Power.{set_power_node, power_nodes, power_led}
use tpi_bmcd.App.Gadget.{remove_msd_function}
use tpi_bmcd.App.Usb.{
  configure_usb, configure_usb_internal, wiring, clear_usb_boot, usb_boot, get_usb_mode,
}
use tpi_bmcd.App.Slots.{activate_slot, update_power_on_times, stamp_all}
use tpi_bmcd.App.Lifecycle.{reboot_into_usb, node_in_flash}
use tpi_bmcd.Utils.Io.{Bytes, Hasher, ready, poll_write, new_monitor}
use tpi_bmcd.Utils.Io.Laws.{Feeds}
use tpi_bmcd.Upgrade.{
  Failure, io, Reader, new_remote, Memory, reader, sender_half, build_reader_object,
  with_decompression_support, size,
}
use tpi_bmcd.Upgrade.Path.{push}
use tpi_bmcd.Upgrade.Copy.{
  Copy, exhausted, cancelled, Run, transfer, try_write_node, try_validate_crc, copy_or_cancel,
}
use tpi_bmcd.Upgrade.Flash.{returned, restore_board}
use tpi_bmcd.Upgrade.Copy.Laws.{transfer_validated}
use tpi_bmcd.Upgrade.Update.{Os, create_dir, remove_dir, open_image, os_update_command, os_update}
use tpi_bmcd.Upgrade.Update.Laws.{os_update_lem}
use tpi_bmcd.Upgrade.Request.{TransferRequest, os_upgrade, try_into}
use tpi_bmcd.Api.{Query}
use tpi_bmcd.Api.Transfer.{
  handle_transfer_request, Web, transfer_request, initialize_transfer, choose_command,
  create_data_transfer, try_map_sha256,
}
use tpi_bmcd.Api.Transfer.Uploads.{upload_after_request}
use tpi_bmcd.Api.Upload.{handle_file_upload}
use tpi_bmcd.Stream
use tpi_bmcd.Stream.{take_sender}
use tpi_bmcd.Tests.Application.{two_on}

abbrev pub sum : Bytes → ℕ
sum [] = 0
sum (b ∷ bytes) = b + sum bytes

sum-append : (s : ℕ) (a b : Bytes) → s + sum a + sum b ≡ s + sum (a ++ b)
sum-append s [] b = omega arith
sum-append s (x ∷ a) b = omega (arith, sum-append (s + x) a b)

-- A sum in the place of the checksum.
abbrev pub adder : Hasher ℕ
adder = record { State = ℕ; start = 0; update = λ s bytes. s + sum bytes; finalize = λ s. s }

adder-Feeds : Feeds adder
adder-Feeds = record { nothing = λ s. omega arith; parts = sum-append }

abbrev pub plain : Reader
plain = record { expected_sha = none; xz_limit = none }

-- Two writes, of which the first takes one byte of two.
abbrev pub three_bytes : Copy
three_bytes = record {
  writes = (5 ∷ 6 ∷ [], ready (ok 1)) ∷ (6 ∷ 7 ∷ [], ready (ok 2)) ∷ [];
  ending = exhausted;
  flushed = ok tt;
}

abbrev pub whole : Copy
whole = record { writes = (5 ∷ 6 ∷ 7 ∷ [], ready (ok 3)) ∷ []; ending = exhausted; flushed = ok tt }

abbrev pub good_run : Run
good_run = record {
  reader = some (ok plain);
  writing = three_bytes;
  seek = ok tt;
  flush_file_caches = ok tt;
  reading = λ n. whole;
}

abbrev pub cut_off : Run
cut_off = record good_run { writing = record three_bytes { ending = cancelled } }

pub loaded : (node_in_flash flawless node3 bmc two_on).0 ≡ ok tt
unfolding node_in_flash reboot_into_usb clear_usb_boot activate_slot update_power_on_times stamp_all
    power_led set_power_node power_nodes configure_usb_internal wiring remove_msd_function
    set_usb_route switch_set_usb_route hub_set_usb_route select_usb set_usb_boot set_boot_lines
    switch_configure_usb hub_configure_usb perform bit_iterator bit_update to_bitfield is_host
    is_flash
loaded = refl

pub restored : (restore_board flawless node3 (node_in_flash flawless node3 bmc two_on).1).0 ≡ ok tt
unfolding restore_board usb_boot get_usb_mode configure_usb to_inverse_bitfield node_in_flash
    reboot_into_usb clear_usb_boot activate_slot update_power_on_times stamp_all power_led
    set_power_node power_nodes configure_usb_internal wiring remove_msd_function set_usb_route
    switch_set_usb_route hub_set_usb_route select_usb set_usb_boot set_boot_lines
    switch_configure_usb hub_configure_usb perform bit_iterator bit_update to_bitfield is_host
    is_flash
restored = refl

good_transfer : transfer adder true good_run ≡ some (ok tt)
unfolding transfer try_write_node try_validate_crc copy_or_cancel poll_write new_monitor
good_transfer = refl

transfer_validated_example :
    (three_bytes.ending ≡ exhausted) × (whole.ending ≡ exhausted) × (sum (5 ∷ 6 ∷ 7 ∷ []) ≡ 18)
transfer_validated_example =
    transfer_validated adder adder-Feeds good_run (omega arith) (omega arith) good_transfer

-- A system on which every action works, and the updater succeeds.
abbrev pub obedient : Os
obedient = record { outcome = λ log x. none; exit_success = λ log. true }

os_update_lem_example :
    os_update obedient adder three_bytes (new_remote "firmware.swu" 3 none) (some (ok plain)) [] ≡ (
      returned (ok tt),
      remove_dir
          ∷ os_update_command "/tmp/os_upgrade/firmware.swu"
          ∷ open_image "/tmp/os_upgrade/firmware.swu"
          ∷ create_dir
          ∷ [],
    )
unfolding push copy_or_cancel tpi_bmcd.Upgrade.transfer_name new_remote
os_update_lem_example =
    os_update_lem obedient (λ log x. refl) adder three_bytes (new_remote "firmware.swu" 3 none)
      plain "firmware.swu" refl

abbrev pub no_web : Web
no_web = record { decode_hex = λ s. err s; parse_url = λ s. err s }

abbrev pub unlimited : Memory
unlimited = record { pages = ok none; page_size = ok none }

abbrev upgrade_query : Query
upgrade_query =
    ("opt", "set")
    ∷ ("type", "firmware")
    ∷ ("file", "firmware.swu")
    ∷ ("length", "3")
    ∷ ("skip_crc", "")
    ∷ []

abbrev expected : TransferRequest
expected = record {
  process = "firmware upgrade service";
  total = 3;
  sender = true;
  worker = (
    os_upgrade,
    record { crc_validation = false; source = (sender_half (new_remote "firmware.swu" 3 none)).1 },
  );
}

accepted : transfer_request no_web (λ path. ok 0) upgrade_query ≡ some (ok expected)
unfolding transfer_request initialize_transfer choose_command create_data_transfer try_map_sha256
    lookup starts_with parse_unsigned digits_value unsigned try_into new_remote sender_half size
accepted = refl

abbrev two_chunks : List (ℕ × Bool)
two_chunks = (1, true) ∷ (2, true) ∷ []

upload_after_request_example :
    let s = (handle_transfer_request no_web (λ path. ok 0) 11 1 upgrade_query Stream.new).1 in
    let (r, after) = handle_file_upload 11 (some two_chunks) (λ x. x) [] s in
    ((handle_transfer_request no_web (λ path. ok 0) 11 1 upgrade_query Stream.new).0 ≡ some (ok 11))
    × (is_ok r ≡ true)
    × (after ≡ (take_sender 11 s).1)
    × (is_ok (handle_file_upload 12 (some two_chunks) (λ x. x) [] s).0 ≡ false)
upload_after_request_example =
    upload_after_request no_web (λ path. ok 0) 11 1 upgrade_query expected Stream.new 12 two_chunks
      (λ x. x) [] accepted refl (omega arith) refl refl (λ e. omega arith)
