-- ===== src/Serial.antt =====
-- bmcd/src/serial_service.rs and serial_service/: the serial consoles of the nodes.
pub mod Ring
pub mod Handler
pub mod Connections
pub mod Console
