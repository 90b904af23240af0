-- ===== src/Examples/Calling.antt =====
-- A call with one mobile, over a store that knows it and a builder that makes one device.
use webcam_direct_linux.Prelude.{
  ◌≡◌, refl, Bytes, codes, List, [], ◌∷◌, some, ok, anyhow, list_key, number_key,
}
use webcam_direct_linux.HashMap.{get}
use webcam_direct_linux.AppData.Schemas.{MobileSchema}
use webcam_direct_linux.Ble.Api.{Address}
use webcam_direct_linux.Ble.CommTypes.{MobileSdpOffer}
use webcam_direct_linux.Ble.Requester.{BlePublisher, publish, chunks, send_chunks}
use webcam_direct_linux.Ble.Server.Service.{Codecs}
use webcam_direct_linux.Ble.MobileComm.{
  AppDataStore, VDeviceMap, VDeviceBuilderOps, DeviceInfo, MobileComm,
}
use webcam_direct_linux.Examples.World.{chunk_codec, no_codec, log_bus}

abbrev mobile_a : Address
mobile_a = codes "a"

abbrev mobile_b : Address
mobile_b = codes "b"

abbrev codecs : Codecs
codecs = record {
  data_chunk = chunk_codec;
  host_prov_info = no_codec;
  mobile_schema = no_codec;
  mobile_sdp_offer = no_codec;
  mobile_sdp_answer = no_codec;
  sdp_answer_ready = record { ser = λ a. ok a.mobile_id; des = λ b. anyhow "unreadable" };
}

abbrev pub phone : MobileSchema
phone = record { id = 1 ∷ []; name = codes "phone" }

abbrev pub store : AppDataStore (List Bytes)
store = record {
  get_host_prov_info = λ s. (anyhow "Host info not found", s);
  add_mobile = λ m s. (ok tt, s);
  get_mobile = λ id s. (ok phone, s);
}

abbrev pub devices : VDeviceMap
devices = (codes "front", record { get_sdp_answer = codes "answer" }) ∷ []

abbrev pub builder : VDeviceBuilderOps (List Bytes)
builder = record { create_from = λ name offer s. (ok devices, s); drop_vdevices = λ old s. s }

abbrev pub publisher : BlePublisher (Unit {0})
publisher = record { publisher_tx = tt; resp_buffer_len = 4 }

abbrev pub subscribed : DeviceInfo (Unit {0})
subscribed = record { publisher = some publisher; vdevices = [] }

abbrev pub connected : MobileComm (List Bytes) (Unit {0})
connected = record { mobiles_connected = (mobile_a, subscribed) ∷ []; outside = [] }

abbrev pub offer : MobileSdpOffer
offer = record { mobile_id = 1 ∷ []; camera_offer = [] }

pub is_connected : get connected.mobiles_connected mobile_a ≡ some subscribed
unfolding get
is_connected = refl

pub ready_sent : publish log_bus chunk_codec publisher (1 ∷ []) [] ≡ (ok tt, (0 ∷ 1 ∷ []) ∷ [])
unfolding publish send_chunks chunks
ready_sent = refl
