-- ===== src/Ble.antt =====
-- The Bluetooth Low Energy side of the program: src/ble.
pub mod Api
pub mod CommTypes
pub mod Buffer
pub mod Requester
pub mod Server
pub mod MobileComm
pub mod Session
pub mod Exchange
pub mod Clients
