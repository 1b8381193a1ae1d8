-- ===== src/Auth.antt =====
-- bmcd/src/authentication: who may use the API.
pub mod Errors
pub mod Ban
pub mod Context
pub mod Shadow
pub mod Watch
pub mod Service
