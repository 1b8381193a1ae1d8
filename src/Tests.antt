-- ===== src/Tests.antt =====
-- Concrete runs: each theorem applied to one state of the board, the store or the service.
mod Application
mod Access
mod Transfers
mod Records
mod Http
mod Storage
mod Texts
mod Flashing
mod Consoles
mod Encodings
mod Restarts
mod Starts
mod Devices
mod Requests
