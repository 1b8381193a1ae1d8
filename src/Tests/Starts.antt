-- ===== src/Tests/Starts.antt =====
-- A daemon that is started again on a board of version 2.5 on which nothing fails.
use tpi_bmcd.Base.{
  ℕ, ◌≡◌, refl, ◌∙◌, true, false, String, some, none, List, [], ◌∷◌, Result, ok, arith, ap,
}
use tpi_bmcd.Base.Assoc.{lookup, insert, remove, nat_key, text_key}
use tpi_bmcd.Base.Text.{starts_with, contains}
use tpi_bmcd.Hal.{node1, to_bitfield, to_inverse_bitfield, is_host, is_flash, to_u8}
use tpi_bmcd.Hal.Helpers.{bit_update, bit_iterator}
use tpi_bmcd.Hal.Device.{
  Trace, did, set_values, enable, rpi_boot, output_switch, node1_source, sleep_ms, write_file,
  node_power, sysfs_power, read_clock, flawless, perform,
}
use tpi_bmcd.Hal.Pins.{
  usb_hub, select_usb, set_usb_boot, set_boot_lines, switch_configure_usb, hub_configure_usb,
  set_usb_route, switch_set_usb_route, hub_set_usb_route, hub_set_node1_usb_route,
  switch_set_node1_usb_route,
}
use tpi_bmcd.Hal.Pins
use tpi_bmcd.Hal.Power.{set_power_node, power_nodes, power_led}
use tpi_bmcd.Hal.Setup.{
  new_controllers, new_pin_controller, new_power_controller, load_lines, collect, line, open_chip,
  gpio_output_lines, gpio_output_array, hub_new,
}
use tpi_bmcd.App.State.{default_db, usb_a, no_info}
use tpi_bmcd.App.Gadget.{remove_msd_function}
use tpi_bmcd.App.Usb.{configure_usb, configure_usb_internal, initialize_usb_mode, is_hub, wiring}
use tpi_bmcd.App.Slots.{activate_slot, update_power_on_times, stamp_all}
use tpi_bmcd.App.Cooling.{initialize_cooling, restore}
use tpi_bmcd.App.Lifecycle.{initialize}
use tpi_bmcd.Persistency.{
  Bytes, PersistencyStore, new, write, new_header, from_keys, try_deserialize_source, try_set,
  try_get,
}
use tpi_bmcd.Persistency.Writer.{Disk, start, commit_to_file}
use tpi_bmcd.Persistency.Builder.{build, register_key, with_write_timeout}
use tpi_bmcd.App.Store.{set_changes, get_db, register_keys, get, set, set_change, change_dbs}
use tpi_bmcd.App.Start
use tpi_bmcd.App.Start.{StartError, Started, is_legacy_dts, initial_sets}
use tpi_bmcd.App.Start.Laws.{Restored, new_after_restart}
use tpi_bmcd.Auth.Ban
use tpi_bmcd.Auth.Watch
use tpi_bmcd.Stream
use tpi_bmcd.Server.{Config, World, Daemon, https, http}
use tpi_bmcd.Tests.Devices.{v2_5}
use tpi_bmcd.Tests.Encodings.{format, codecs, defaults, reads, read_back}
use tpi_bmcd.Tests.Restarts.{no_file, changes, first_run, committed}

abbrev cache : List (ℕ × Bytes)
cache =
    (1010900, 1 ∷ [])
    ∷ (793239703, 5 ∷ [])
    ∷ (792215451, [])
    ∷ (1068815, 0 ∷ 0 ∷ 0 ∷ 0 ∷ [])
    ∷ (3058419, [])
    ∷ []

abbrev last : PersistencyStore
last = record { cache = cache; watcher = false; notified = 0; dirty = true }

set_last : set_changes format codecs changes first_run.0.inner ≡ some last
unfolding set_changes set_change set try_set lookup start new try_deserialize_source from_keys
    insert remove
set_last = refl

abbrev disk : Disk
disk = record {
  current = some (
      1 ∷ 16 ∷ 17 ∷ 0 ∷ 0 ∷ 0 ∷ 0 ∷ 0 ∷ 0 ∷ 0 ∷ 0 ∷ 0 ∷ 0 ∷ 0 ∷ 0 ∷ 0 ∷ 0 ∷ 0 ∷ 1010901 ∷ 2 ∷ 0
      ∷ 793239704 ∷ 6 ∷ 0 ∷ 792215452 ∷ 0 ∷ 1068816 ∷ 1 ∷ 1 ∷ 1 ∷ 1 ∷ 0 ∷ 3058420 ∷ []);
  pending = none;
}

committed_disk :
    (commit_to_file format 1000 (record first_run.0 { inner = last }) first_run.1).2 ≡ disk
unfolding commit_to_file write new_header start new try_deserialize_source from_keys insert remove
committed_disk = refl

-- The events of the second start, the newest first.
abbrev events : Trace
events =
    did (set_values (enable 3) 0)
    ∷ did (sleep_ms 100)
    ∷ did (write_file (node_power 4) "disabled")
    ∷ did (set_values (enable 2) 1)
    ∷ did (sleep_ms 100)
    ∷ did (write_file (node_power 3) "enabled")
    ∷ did (set_values (enable 1) 0)
    ∷ did (sleep_ms 100)
    ∷ did (write_file (node_power 2) "disabled")
    ∷ did (set_values (enable 0) 1)
    ∷ did (sleep_ms 100)
    ∷ did (write_file (node_power 1) "enabled")
    ∷ did (write_file sysfs_power "1")
    ∷ did read_clock
    ∷ did read_clock
    ∷ did read_clock
    ∷ did read_clock
    ∷ did (set_values (rpi_boot 3) 0)
    ∷ did (set_values (rpi_boot 2) 0)
    ∷ did (set_values (rpi_boot 1) 0)
    ∷ did (set_values (rpi_boot 0) 0)
    ∷ did (set_values output_switch 0)
    ∷ did (set_values node1_source 3)
    ∷ []

-- The store with the sets of the second start.
abbrev after_start : PersistencyStore
after_start = record {
  cache =
      (792215451, [])
      ∷ (793239703, 5 ∷ [])
      ∷ (1068815, 0 ∷ 0 ∷ 1001 ∷ 0 ∷ [])
      ∷ (3058419, [])
      ∷ (1010900, 1 ∷ [])
      ∷ [];
  watcher = false;
  notified = 0;
  dirty = true;
}

abbrev restarted : Started
restarted = record {
  lines =
      ("/dev/gpiochip2", 3 ∷ [])
      ∷ ("/dev/gpiochip2", 2 ∷ [])
      ∷ ("/dev/gpiochip2", 1 ∷ [])
      ∷ ("/dev/gpiochip2", 0 ∷ [])
      ∷ ("/dev/gpiochip0", 194 ∷ [])
      ∷ ("/dev/gpiochip0", 192 ∷ 193 ∷ [])
      ∷ ("/dev/gpiochip2", 8 ∷ [])
      ∷ ("/dev/gpiochip2", 7 ∷ [])
      ∷ ("/dev/gpiochip2", 6 ∷ [])
      ∷ ("/dev/gpiochip2", 5 ∷ [])
      ∷ [];
  context = record { file = true; inner = after_start };
  disk = disk;
  app = record {
    pins = record { usb_switch = usb_hub };
    db = record {
      activated_nodes = 5;
      usb_config = usb_a node1;
      node_infos = no_info ∷ no_info ∷ record no_info { power_on_time = some 1000 } ∷ no_info ∷ [];
      node1_usb = true;
      cooling = [];
    };
    trace = events;
  };
}

abbrev model : Result ℕ String
model = ok "Turing Pi (v2.5)"

started_from : Start.new v2_5 flawless format codecs model none false true disk [] ≡ ok restarted
unfolding Start.new initial_sets set_changes set_change set try_set new_controllers lookup
    load_lines collect insert register_keys get_db try_get build new try_deserialize_source
    tpi_bmcd.Persistency.try_load_data tpi_bmcd.Persistency.extend initialize initialize_usb_mode
    Pins.set_node1_usb_route switch_set_node1_usb_route initialize_cooling restore
    remove_msd_function activate_slot tpi_bmcd.App.Slots.merge_state tpi_bmcd.App.Slots.stamp
    stamp_all update_power_on_times contains is_legacy_dts tpi_bmcd.App.State.modify_at get
    configure_usb configure_usb_internal is_hub wiring remove starts_with perform bit_iterator
    bit_update hub_configure_usb hub_set_node1_usb_route hub_set_usb_route select_usb set_boot_lines
    set_usb_boot set_usb_route switch_configure_usb switch_set_usb_route power_led power_nodes
    set_power_node gpio_output_array gpio_output_lines hub_new line new_pin_controller
    new_power_controller open_chip is_flash is_host to_bitfield to_inverse_bitfield to_u8
    register_key with_write_timeout start from_keys
started_from = refl

started :
    Start.new v2_5 flawless format codecs model none false true
      (commit_to_file format 1000 (record first_run.0 { inner = last }) first_run.1).2
      []
    ≡ ok restarted
started =
    ap (λ d. Start.new v2_5 flawless format codecs model none false true d []) committed_disk
    ∙ started_from

new_after_restart_example :
    Restored v2_5 flawless format codecs (change_dbs changes default_db) restarted
unfolding build
new_after_restart_example =
    new_after_restart v2_5 flawless format codecs (λ h. refl) reads
      (λ m. ap (λ (x : Bytes × List (ℕ × Bytes)). ok x.1) (read_back m)) (omega arith) defaults
      (omega arith) (omega arith) model none no_file changes 1000 [] restarted refl
      ((5 ∷ [], refl, refl), ((1 ∷ [], refl, refl), tt)) committed last set_last started

abbrev settings : Config
settings = record {
  tls = record { private_key = "key.pem"; certificate = "cert.pem" };
  write_timeout = none;
  authentication_attempts = 5;
  token_expires = 10800;
  host = "::";
  port = 443;
  www = "/srv/bmcd/www/";
  redirect_http = true;
}

abbrev world : World
world = record {
  config = ok settings;
  pem = λ path. ok path;
  private_key_from_pem = λ text. ok text;
  certificate_from_pem = λ text. ok text;
  accepts = λ key certificate. ok tt;
  board = v2_5;
  env = flawless;
  format = format;
  codecs = codecs;
  model = model;
  readonly = false;
  opens = true;
  disk = disk;
  shadow = ok [];
  watchable = true;
  listens = ok tt;
  binds = λ server. ok tt;
}

abbrev daemon : Daemon
daemon = record {
  started = restarted;
  authenticator = record {
    context = record {
      token_store = [];
      passwds = [];
      expire_timeout = 10800;
      ban_patrol = record { penalties = []; max_authentication_attempts = 5 };
    };
    watching = true;
  };
  streaming = Stream.new;
  servers = https "::" 443 ∷ http "::" 80 ∷ [];
}
