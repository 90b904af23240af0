-- ===== src/Main/Registration.antt =====
-- A mobile's registration, from the characteristic of src/ble/clients/provisioner.rs through the
-- server and the service to the store of src/app_data/mod.rs.
use webcam_direct_linux.Prelude.{
  ℕ, ◌≤◌, ◌≡◌, refl, arith, Bytes, List, [], ◌∷◌, ◌++◌, length, some, ok, true, list_key,
  number_key,
}
use webcam_direct_linux.AppData.{host_key, get_mobile}
use webcam_direct_linux.AppData.Laws.{get_mobile-add_mobile}
use webcam_direct_linux.AppData.Schemas.{MobileSchema, HostSchema, host_schema}
use webcam_direct_linux.AppData.KvDb.{KvDbOps}
use webcam_direct_linux.AppData.KvDb.Laws.{IsStore}
use webcam_direct_linux.Ble.Api.{Address, register_mobile, max_buffer_len}
use webcam_direct_linux.Ble.Buffer.Reader.{payloads}
use webcam_direct_linux.Ble.Buffer.ReadAll.{IsTransfer}
use webcam_direct_linux.Ble.Buffer.Writer.{collected}
use webcam_direct_linux.Ble.Clients.WriteStream.{write}
use webcam_direct_linux.Ble.Clients.Packets.{reads_of, Nonempty}
use webcam_direct_linux.Ble.Clients.Provisioner.{provisioner, provisioner-register_mobile}
use webcam_direct_linux.Ble.CommTypes.{DataChunk}
use webcam_direct_linux.Ble.MobileComm
use webcam_direct_linux.Ble.MobileComm.{MobileComm, VDeviceBuilderOps}
use webcam_direct_linux.Ble.Requester.{Broadcast}
use webcam_direct_linux.Ble.Requester.Publishing.{ReadAs}
use webcam_direct_linux.Ble.Requester.Requests.{mailbox}
use webcam_direct_linux.Ble.Server.Service.{Codecs}
use webcam_direct_linux.Ble.Server.{System}
use webcam_direct_linux.Ble.Session.{comm_service}
use webcam_direct_linux.Main.Program.{app_data_store}

module _ {X Tx Rx : Type 0} (data_db : KvDbOps X) (store : IsStore data_db)
    (vdev_builder : VDeviceBuilderOps X) (bus : Broadcast X Tx Rx)
    (server_bus : Broadcast (MobileComm X Tx) Tx Rx) (codecs : Codecs) where
  -- The service hands the record to the application's data.
  register_mobile_lem :
      (addr : Address) (mobile : MobileSchema) (host : HostSchema) (c : MobileComm X Tx)
      → (data_db.read host_schema host_key c.outside).0 ≡ ok (some host)
      → let db = app_data_store data_db in
        let c' = (MobileComm.register_mobile db vdev_builder bus codecs addr mobile c).1 in
        (MobileComm.register_mobile db vdev_builder bus codecs addr mobile c ≡ (ok tt, c'))
        × ((get_mobile data_db mobile.id c'.outside).0 ≡ ok mobile)
        × ((data_db.read host_schema host_key c'.outside).0
            ≡ ok (
                some
                  (record host { registered_mobiles = host.registered_mobiles ++ mobile.id ∷ [] })))
  unfolding MobileComm.register_mobile
  register_mobile_lem addr mobile host c held =
      let (added, found, listed) = get_mobile-add_mobile data_db store mobile host c.outside held in
      (ground (arith, added), found, listed)

  -- A mobile that writes the packets of its encoded record to the provisioner's characteristic is
  -- in the store afterwards, and the host's record lists it behind the others; the server's task
  -- and the client go on. The store keeps its promises and has the host's record; the task runs
  -- and has nothing collected of the mobile, the record fits in the buffer, and no packet is
  -- empty.
  pub provisioner-get_mobile :
      {Reader : Type 0} (addr : Address) (mtu : ℕ) (reader : Reader) (len : ℕ)
      (messages : List Bytes) (chunks : List DataChunk) (buffer : Bytes) (mobile : MobileSchema)
      (host : HostSchema) (s : System (MobileComm X Tx) Tx)
      → ReadAs codecs.data_chunk messages chunks
      → Nonempty messages
      → IsTransfer len chunks
      → payloads chunks ≡ buffer
      → length buffer ≤ max_buffer_len
      → collected s.handler.buffer_map addr register_mobile ≡ []
      → codecs.mobile_schema.des buffer ≡ ok mobile
      → (data_db.read host_schema host_key s.outside.outside).0 ≡ ok (some host)
      → let svc = comm_service (app_data_store data_db) vdev_builder bus server_bus codecs in
        let run =
          provisioner
            (mailbox svc server_bus codecs)
            {Reader = Reader}
            (write addr mtu (ok reader) ∷ reads_of messages)
            (record { alive = true; system = s }) in
        (run.0 ≡ ok tt)
        × (run.1.alive ≡ true)
        × ((get_mobile data_db mobile.id run.1.system.outside.outside).0 ≡ ok mobile)
        × ((data_db.read host_schema host_key run.1.system.outside.outside).0
            ≡ ok (
                some
                  (record host { registered_mobiles = host.registered_mobiles ++ mobile.id ∷ [] })))
  provisioner-get_mobile {Reader} addr mtu reader len messages chunks buffer mobile host s a n t
        joined fits idle des held =
      let svc = comm_service (app_data_store data_db) vdev_builder bus server_bus codecs in
      let db = app_data_store data_db in
      let c' = (MobileComm.register_mobile db vdev_builder bus codecs addr mobile s.outside).1 in
      let (registered, found, listed) = register_mobile_lem addr mobile host s.outside held in
      let run =
        provisioner-register_mobile svc server_bus codecs {Reader = Reader} addr mtu reader len
          messages chunks buffer mobile s (ok tt) c' a n t joined fits idle des registered refl in
      rw run (refl, refl, found, listed)
