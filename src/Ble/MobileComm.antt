-- ===== src/Ble/MobileComm.antt =====
-- src/ble/server/mobile_comm.rs: the service behind the server, for the mobiles that are connected.
-- The data store, the builder of virtual devices and the broadcast channels are interfaces over the
-- state `S` of what is outside.
pub mod Calls
use webcam_direct_linux.Prelude.{
  Text, Bytes, Option, none, some, List, [], ◌∷◌, map, Exec, Result, ok, anyhow, lift, pure, on,
  ◌>>=◌, ◌>>◌, list_key, number_key,
}
use webcam_direct_linux.HashMap.{HashMap, get, insert, remove}
use webcam_direct_linux.AppData.Schemas.{MobileSchema}
use webcam_direct_linux.Ble.Api.{Address}
use webcam_direct_linux.Ble.CommTypes.{
  DataChunk, HostProvInfo, CameraSdp, MobileSdpOffer, MobileSdpAnswer, SdpAnswerReady, Codec,
  default_video,
}
use webcam_direct_linux.Ble.Requester.{Broadcast, BlePublisher, publish}
use webcam_direct_linux.Ble.Server.Service.{CommDataService, Codecs}

-- The trait `AppDataStore`.
pub record AppDataStore (S : Type 0) : Type 0 where
  pub get_host_prov_info : Exec S HostProvInfo
  pub add_mobile : MobileSchema → Exec S (Unit {0})
  pub get_mobile : Text → Exec S MobileSchema

-- A virtual device, by what the service asks of it: the answer of its pipeline. What its drop does to
-- the outside is the builder's `drop_vdevices`.
pub record VDevice : Type 0 where
  pub get_sdp_answer : Text

abbrev pub VDeviceMap : Type 0
VDeviceMap = HashMap Text VDevice

pub record VDeviceBuilderOps (S : Type 0) : Type 0 where
  pub create_from : Text → List CameraSdp → Exec S VDeviceMap
  -- What the drop of each device of a map does.
  pub drop_vdevices : VDeviceMap → S → S

pub record DeviceInfo (Tx : Type 0) : Type 0 where
  pub publisher : Option (BlePublisher Tx)
  pub vdevices : VDeviceMap

pub record MobileComm (S Tx : Type 0) : Type 0 where
  pub mobiles_connected : HashMap Address (DeviceInfo Tx)
  pub outside : S

unfoldable pub new : {S Tx : Type 0} → S → MobileComm S Tx
new outside = record { mobiles_connected = []; outside = outside }

-- One camera's part of an answer.
abbrev pub camera_answer_of : Text × VDevice → CameraSdp
camera_answer_of (name, vdevice) = record {
  name = name;
  format = default_video;
  sdp = vdevice.get_sdp_answer;
}

module _ {S Tx Rx : Type 0} (db : AppDataStore S) (vdev_builder : VDeviceBuilderOps S)
    (bus : Broadcast S Tx Rx) (codecs : Codecs) where
  abbrev pub outside {ℓ} : {A : Type ℓ} → Exec S A → Exec (MobileComm S Tx) A
  outside = on (λ c. c.outside) (λ t c. record c { outside = t })

  abbrev pub set_info : Address → DeviceInfo Tx → Exec (MobileComm S Tx) (Unit {0})
  set_info addr info c =
      (ok tt, record c { mobiles_connected = insert c.mobiles_connected addr info })

  -- Devices that are not kept any longer are dropped.
  abbrev pub drop_kept : DeviceInfo Tx → Exec (MobileComm S Tx) (Unit {0})
  drop_kept info c =
      (ok tt, record c { outside = vdev_builder.drop_vdevices info.vdevices c.outside })

  unfoldable pub get_host_info : Address → Exec (MobileComm S Tx) HostProvInfo
  get_host_info addr = outside db.get_host_prov_info

  unfoldable pub register_mobile : Address → MobileSchema → Exec (MobileComm S Tx) (Unit {0})
  register_mobile addr mobile = outside (db.add_mobile mobile)

  -- Replaces what was kept for the mobile, its virtual devices too.
  unfoldable pub sub_to_ready_answer : Address → BlePublisher Tx → Exec (MobileComm S Tx) (Unit {0})
  sub_to_ready_answer addr publisher c =
      let info : DeviceInfo Tx = record { publisher = some publisher; vdevices = [] } in
      elim (get c.mobiles_connected addr) [
        | none ↦ set_info addr info c
        | some old ↦ (set_info addr info >> drop_kept old) c
      ]

  -- The devices of an offer are made, kept, and announced.
  unfoldable pub answer_offer :
      Address → DeviceInfo Tx → MobileSchema → MobileSdpOffer → Exec (MobileComm S Tx) (Unit {0})
  answer_offer addr info mobile offer = elim info.publisher [
    | none ↦ lift (anyhow "Publisher not found for mobile")
    | some publisher ↦ (do
      vdevices ← outside (vdev_builder.create_from mobile.name offer.camera_offer)
      drop_kept info
      set_info addr (record info { vdevices = vdevices })
      ready ← lift (codecs.sdp_answer_ready.ser (record { mobile_id = offer.mobile_id }))
      outside (publish bus codecs.data_chunk publisher ready))
  ]

  unfoldable pub set_mobile_sdp_offer : Address → MobileSdpOffer → Exec (MobileComm S Tx) (Unit {0})
  set_mobile_sdp_offer addr offer = do
    mobile ← outside (db.get_mobile offer.mobile_id)
    (λ c. elim (get c.mobiles_connected addr) [
      | none ↦ (anyhow "Mobile not found in connected devices", c)
      | some info ↦ answer_offer addr info mobile offer c
    ])

  -- The answers come in the order of the map, which the program does not fix.
  unfoldable pub get_sdp_answer : Address → Exec (MobileComm S Tx) MobileSdpAnswer
  get_sdp_answer addr c = elim (get c.mobiles_connected addr) [
    | none ↦ (anyhow "Mobile not found in connected devices", c)
    | some info ↦ (ok (record { camera_answer = map camera_answer_of info.vdevices }), c)
  ]

  unfoldable pub mobile_disconnected : Address → Exec (MobileComm S Tx) (Unit {0})
  mobile_disconnected addr c = elim (get c.mobiles_connected addr) [
    | some info ↦ drop_kept info (record c { mobiles_connected = remove c.mobiles_connected addr })
    | none ↦ (anyhow "Mobile not found in connected devices", c)
  ]

  abbrev pub service : CommDataService (MobileComm S Tx) Tx
  service = record {
    register_mobile = register_mobile;
    get_host_info = get_host_info;
    set_mobile_sdp_offer = set_mobile_sdp_offer;
    sub_to_ready_answer = sub_to_ready_answer;
    get_sdp_answer = get_sdp_answer;
    mobile_disconnected = mobile_disconnected;
  }
