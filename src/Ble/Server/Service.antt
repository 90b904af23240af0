-- ===== src/Ble/Server/Service.antt =====
-- `CommDataService` of src/ble/server/mod.rs, the interface that the server's handler uses, and
-- the codecs of the messages, one `TryFrom` pair of src/ble/comm_types.rs to each.
use webcam_direct_linux.Prelude.{Exec}
use webcam_direct_linux.AppData.Schemas.{MobileSchema}
use webcam_direct_linux.Ble.Api.{Address}
use webcam_direct_linux.Ble.CommTypes.{
  DataChunk, HostProvInfo, MobileSdpOffer, MobileSdpAnswer, SdpAnswerReady, Codec,
}
use webcam_direct_linux.Ble.Requester.{BlePublisher}

pub record CommDataService (S Tx : Type 0) : Type 0 where
  pub register_mobile : Address → MobileSchema → Exec S (Unit {0})
  pub get_host_info : Address → Exec S HostProvInfo
  pub set_mobile_sdp_offer : Address → MobileSdpOffer → Exec S (Unit {0})
  pub sub_to_ready_answer : Address → BlePublisher Tx → Exec S (Unit {0})
  pub get_sdp_answer : Address → Exec S MobileSdpAnswer
  pub mobile_disconnected : Address → Exec S (Unit {0})

pub record Codecs : Type 0 where
  pub data_chunk : Codec DataChunk
  pub host_prov_info : Codec HostProvInfo
  pub mobile_schema : Codec MobileSchema
  pub mobile_sdp_offer : Codec MobileSdpOffer
  pub mobile_sdp_answer : Codec MobileSdpAnswer
  pub sdp_answer_ready : Codec SdpAnswerReady
