-- ===== src/Lib.antt =====
-- A model of bmcd, the daemon of the Turing Pi 2 board: it powers the four nodes, routes USB,
-- flashes modules, keeps its state over restarts and guards an HTTP API.
--
-- The parts, and the files that model them (paths from the root of the repository):
--
-- - Hal: bmcd/src/hal.rs (node numbers and bit fields), hal/helpers.rs (Hal/Helpers),
--   hal/pin_controller.rs (Hal/Pins) and hal/power_controller.rs (Hal/Power). GPIO lines, files
--   under /sys and services are answered by a record `Env`, and every access that was tried is an
--   event of a trace (Hal/Device); `level` is the value that a line was last set to, and Hal/Pins/Lines
--   says which lines a USB configuration sets. Hal/Setup has the
--   constructors, which find and request the lines, with hal/gpio_definitions.rs.
-- - App: bmcd/src/app/bmc_application.rs. App/State has the stored values and the state of the
--   application, App/Usb the USB configuration, App/Slots the power states and node infos,
--   App/Lifecycle start, reboot and the USB boot flows; App/Gadget is app/usb_gadget.rs,
--   App/Cooling and App/Thermal are app/cooling_device.rs (setting a speed, and listing the devices),
--   App/Store is how the application keeps its values by Persistency, App/Start is
--   `BmcApplication::new` on top of Hal/Setup, App/Store and App/Lifecycle, with the sets that a start
--   makes in its store, App/Info is app/bmc_info.rs with
--   the files that legacy.rs reads, and App/Button is app/event_application.rs with
--   utils/event_listener.rs. The application calls Hal; what was done before a
--   failure stays done.
-- - Auth: bmcd/src/authentication/. Auth/Ban is ban_patrol.rs, Auth/Context is
--   authentication_context.rs, Auth/Errors is authentication_errors.rs and passwd_validator.rs,
--   Auth/Shadow is the parser of linux_authenticator.rs and Auth/Watch its start and the task that
--   watches the shadow file, and Auth/Service is the guard of
--   authentication_service.rs, which calls the context. Each reading of the clock is an argument,
--   so theorems hold for every clock.
-- - Stream: bmcd/src/streaming_data_service.rs and transfer_context.rs. Each section under the lock
--   is a function; Stream/Steps interleaves requests, workers, timers and clients as a step
--   relation.
-- - Api: bmcd/src/api.rs, api/into_legacy_response.rs and api/legacy.rs. Api/Routes and Api/Entry are
--   the choice of the handler, Api/Power, Api/Usb and Api/Cooling are the handlers that call the
--   application, Api/Info the handlers for information (with answers of Api/Tree), Api/Upload is the
--   upload that calls Stream, and Api/Transfer makes a transfer of Upgrade from a request, which
--   Api/Transfer/Worker runs to its end. Error texts of the lower layers are kept as values.
-- - Persistency: bmcd/src/persistency/binary_persistency.rs and error.rs, the key/value store that
--   keeps the application's values over restarts, and its file format; Persistency/Writer is
--   app_persistency.rs, which replaces the file by a finished copy, as the processes see the file (what a
--   loss of power leaves of a copy that was not synced is not modelled), and Persistency/Builder is how a
--   store is set up. Apart from App/Store and App/Start, App
--   works on the decoded values.
-- - Upgrade: bmcd/src/streaming_data_service/data_transfer.rs, app/upgrade_worker.rs (Upgrade/Copy,
--   Upgrade/Flash and Upgrade/Update) and app/transfer_action.rs (Upgrade/Request). Flashing a node
--   runs the operations of App around the transfer.
-- - UsbBoot: bmcd/src/usb_boot.rs and usb_boot/, the choice of the driver and the boot entries;
--   UsbBoot/Drivers is how a driver turns the node into a block device.
-- - Serial: bmcd/src/serial_service.rs and serial_service/. Serial/Handler is serial_handler.rs: a
--   handler with the channels and workers that it has made, under any order of calls and worker
--   rounds; Serial/Connections is serial.rs and the HTTP handlers, Serial/Console is the loop of
--   serial_websocket.rs over what its `select!` yields.
-- - Utils: bmcd/src/utils.rs (Utils/Utf, Utils/Devices) and utils/io.rs (Utils/Io).
-- - Board: board_info/src/board_info.rs, the EEPROM record of the board; Board/Values finds,
--   reads and prints it.
-- - Server: bmcd/src/main.rs and config.rs, the start of the daemon in its order, on top of App/Start and
--   Auth/Watch.
-- - Base: shared notation, lists, results, bits of numbers, maps, texts, printing of numbers and state
--   passing.
-- - Tests: each theorem applied to a concrete run.
--
-- Operations keep the names of the source's functions; a name that the source overloads has a
-- prefix (`mux_`, `hub_` and `switch_` for the two USB architectures, `set_` for the setters of the
-- board's record). Numbers are natural numbers; where the code's width matters the reduction is
-- written out, for `u8` in `not_u8` and `low_bits`, for bytes in the writers of Board. The
-- loops of the code are structural. Only printing a number (Base/Print) uses fuel: one more than the
-- number, of which each digit takes off at least one.
--
-- Parameters stand for code that is not here: crates pwhash, bincode, base64, serde_json, crc32fast,
-- hex, sha2, crc, url, circular_buffer, rockfile, gpiod, rusb,
-- rockusb, rustpiboot, inotify, chrono, if_addrs and nix's statvfs, config and openssl, what tokio's copy does to a writer, the hash of
-- std, the random token, the clock and the hardware.
--
-- Not modelled: the stub hardware, whose operations only log. Of the modelled files, the log's setup and
-- the command line, the merge of the settings (crate config), the backup, reload and network handlers
-- of legacy.rs, which run a program and wrap its output, failing reads of the store's file, the xz
-- decoder, the capacities of queues (a call that has to wait is a later call) and the tracing output
-- are left out.
pub mod Base
pub mod Hal
pub mod App
pub mod Auth
pub mod Board
pub mod Stream
pub mod Persistency
pub mod Api
pub mod Utils
pub mod UsbBoot
pub mod Serial
pub mod Upgrade
pub mod Server
pub mod Tests
