-- ===== src/App.antt =====
-- bmcd/src/app/bmc_application.rs: the application's state, and the operations on power, USB and
-- node information. The database holds one value for each registered key, as `get` and `set` of the
-- persistency layer see it.
pub mod State
pub mod Gadget
pub mod Usb
pub mod Slots
pub mod Start
pub mod Cooling
pub mod Thermal
pub mod Info
pub mod Store
pub mod Lifecycle
pub mod Button
