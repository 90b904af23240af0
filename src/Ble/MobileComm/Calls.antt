-- ===== src/Ble/MobileComm/Calls.antt =====
-- A call with a mobile: subscription, offer, answer and disconnection.
use webcam_direct_linux.Prelude.{
  Bytes, ◌≡◌, ◌≢◌, arith, none, some, [], map, ok, anyhow, list_key, number_key, if◌then◌else◌,
  ◌=?◌,
}
use webcam_direct_linux.HashMap.{get, get-insert_self, get-insert_ne, get-remove, get-remove_self}
use webcam_direct_linux.AppData.Schemas.{MobileSchema}
use webcam_direct_linux.Ble.Api.{Address}
use webcam_direct_linux.Ble.CommTypes.{MobileSdpOffer}
use webcam_direct_linux.Ble.Requester.{Broadcast, BlePublisher, publish}
use webcam_direct_linux.Ble.Server.Service.{Codecs}
use webcam_direct_linux.Ble.MobileComm.{
  AppDataStore, VDeviceMap, VDeviceBuilderOps, DeviceInfo, MobileComm, camera_answer_of,
  sub_to_ready_answer, answer_offer, set_mobile_sdp_offer, get_sdp_answer, mobile_disconnected,
}

module _ {S Tx Rx : Type 0} (db : AppDataStore S) (builder : VDeviceBuilderOps S)
    (bus : Broadcast S Tx Rx) (codecs : Codecs) where
  -- The offer of a registered and subscribed mobile has its devices made and announced to its
  -- publisher; an answer asked for afterwards holds the answers of exactly those devices.
  pub get_sdp_answer-set_offer :
      (addr : Address) (offer : MobileSdpOffer) (c : MobileComm S Tx) (mobile : MobileSchema)
      (info : DeviceInfo Tx) (p : BlePublisher Tx) (devices : VDeviceMap) (ready : Bytes)
      (s1 s2 s3 : S)
      → db.get_mobile offer.mobile_id c.outside ≡ (ok mobile, s1)
      → get c.mobiles_connected addr ≡ some info
      → info.publisher ≡ some p
      → builder.create_from mobile.name offer.camera_offer s1 ≡ (ok devices, s2)
      → codecs.sdp_answer_ready.ser (record { mobile_id = offer.mobile_id }) ≡ ok ready
      → publish bus codecs.data_chunk p ready (builder.drop_vdevices info.vdevices s2) ≡ (ok tt, s3)
      → ((set_mobile_sdp_offer db builder bus codecs addr offer c).0 ≡ ok tt)
        × ((set_mobile_sdp_offer db builder bus codecs addr offer c).1.outside ≡ s3)
        × ((get_sdp_answer db builder bus codecs addr
              (set_mobile_sdp_offer db builder bus codecs addr offer c).1).0
            ≡ ok (record { camera_answer = map camera_answer_of devices }))
  unfolding set_mobile_sdp_offer answer_offer get_sdp_answer
  get_sdp_answer-set_offer addr offer c mobile info p devices ready s1 s2 s3 g e q b r w =
      ground (arith, get-insert_self c.mobiles_connected addr (record info { vdevices = devices }))

  -- An offer changes nothing that is kept for another mobile, whether it succeeds or not.
  pub set_offer-others :
      (addr other : Address) (offer : MobileSdpOffer) (c : MobileComm S Tx)
      → addr ≢ other
      → get (set_mobile_sdp_offer db builder bus codecs addr offer c).1.mobiles_connected other
        ≡ get c.mobiles_connected other
  unfolding set_mobile_sdp_offer answer_offer
  set_offer-others addr other offer c h = grind (arith, get-insert_ne)

  -- Subscribing again forgets the devices of the call that was under way: the answer is then an
  -- empty one.
  pub get_sdp_answer-resubscribe :
      (addr : Address) (p : BlePublisher Tx) (c : MobileComm S Tx)
      → (get_sdp_answer db builder bus codecs addr
          (sub_to_ready_answer db builder bus codecs addr p c).1).0
        ≡ ok (record { camera_answer = [] })
  unfolding sub_to_ready_answer get_sdp_answer
  get_sdp_answer-resubscribe addr p c =
      let kept : DeviceInfo Tx = record { publisher = some p; vdevices = [] } in
      ground (arith, get-insert_self c.mobiles_connected addr kept)

  -- After a disconnection the mobile has no answer, and a second disconnection is refused; the
  -- other mobiles are kept.
  mobile_disconnected_lem :
      (addr other : Address) (c : MobileComm S Tx) (info : DeviceInfo Tx)
      → get c.mobiles_connected addr ≡ some info
      → let c' = (mobile_disconnected db builder bus codecs addr c).1 in
        ((mobile_disconnected db builder bus codecs addr c).0 ≡ ok tt)
        × ((get_sdp_answer db builder bus codecs addr c').0
            ≡ anyhow "Mobile not found in connected devices")
        × (mobile_disconnected db builder bus codecs addr c'
            ≡ (anyhow "Mobile not found in connected devices", c'))
        × (get c'.mobiles_connected other
            ≡ (if addr =? other then none else get c.mobiles_connected other))
  unfolding mobile_disconnected get_sdp_answer
  mobile_disconnected_lem addr other c info h =
      ground
        (arith, get-remove_self c.mobiles_connected addr, get-remove c.mobiles_connected addr other)
