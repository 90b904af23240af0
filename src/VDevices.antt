-- ===== src/VDevices.antt =====
-- src/vdevice_builder: the devices of an offer, one to each camera. Building has the builder over
-- `VDevice::new`, which Device models.
pub mod Modules
pub mod Pipeline
pub mod Device
pub mod Building
use webcam_direct_linux.Prelude.{Text, codes, ◌++◌}
use webcam_direct_linux.Ble.CommTypes.{CameraSdp}

-- The name of a camera's device.
abbrev pub vdevice_name : Text → CameraSdp → Text
vdevice_name mobile_name camera_offer = mobile_name ++ (codes ": " ++ camera_offer.name)
