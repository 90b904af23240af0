-- ===== src/Ble/Clients.antt =====
-- The GATT clients: src/ble/clients.
pub mod WriteStream
pub mod Packets
pub mod Provisioner
pub mod SdpExchanger
pub mod MobileProp
pub mod Advertising
