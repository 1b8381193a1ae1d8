-- ===== src/Utils.antt =====
-- bmcd/src/utils.rs and utils/: decoding of texts, and the wrappers around byte streams.
pub mod Utf
pub mod Io
pub mod Devices
