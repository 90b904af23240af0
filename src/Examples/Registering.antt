-- ===== src/Examples/Registering.antt =====
-- A mobile registers over the provisioner's characteristic, on a host with a record.
use webcam_direct_linux.Prelude.{
  ℕ, ◌≡◌, refl, arith, Bytes, List, [], ◌∷◌, some, ok, true, list_key, number_key,
}
use webcam_direct_linux.HashMap.{get}
use webcam_direct_linux.AppData.{host_key, get_mobile}
use webcam_direct_linux.AppData.Schemas.{host_schema}
use webcam_direct_linux.Ble.Api.{register_mobile}
use webcam_direct_linux.Ble.Buffer.{writer_at, get_cursors}
use webcam_direct_linux.Ble.Buffer.Writer.{collected}
use webcam_direct_linux.Ble.Clients.WriteStream.{write}
use webcam_direct_linux.Ble.Clients.Packets.{reads_of}
use webcam_direct_linux.Ble.Clients.Provisioner.{provisioner}
use webcam_direct_linux.Ble.CommTypes.{DataChunk}
use webcam_direct_linux.Ble.MobileComm.{MobileComm}
use webcam_direct_linux.Ble.Requester.Requests.{mailbox}
use webcam_direct_linux.Ble.Server.Service.{Codecs}
use webcam_direct_linux.Ble.Server.{System}
use webcam_direct_linux.Ble.Session.{comm_service}
use webcam_direct_linux.Main.Program.{app_data_store}
use webcam_direct_linux.Main.Registration.{provisioner-get_mobile}
use webcam_direct_linux.Examples.Encoding.{Disk}
use webcam_direct_linux.Examples.Serving.{mobile_a, codecs, fresh}
use webcam_direct_linux.Examples.Starting.{no_devices, silent_bus}
use webcam_direct_linux.Examples.Storing.{db, db-IsStore, host, phone, host_disk, has_host}

abbrev phone_codecs : Codecs
phone_codecs = record codecs { mobile_schema = record { ser = λ m. ok []; des = λ b. ok phone } }

abbrev packets : List Bytes
packets = (1 ∷ 5 ∷ []) ∷ (0 ∷ 6 ∷ []) ∷ []

abbrev chunks : List DataChunk
chunks = record { r = 1; d = 5 ∷ [] } ∷ record { r = 0; d = 6 ∷ [] } ∷ []

abbrev system : System (MobileComm Disk (Unit {0})) (Unit {0})
system = record {
  handler = fresh;
  outside = record { mobiles_connected = []; outside = host_disk };
}

nothing_collected : collected system.handler.buffer_map mobile_a register_mobile ≡ []
unfolding writer_at get_cursors get
nothing_collected = refl

provisioner-get_mobile_example :
    let svc = comm_service (app_data_store db) no_devices silent_bus silent_bus phone_codecs in
    let run =
      provisioner
        (mailbox svc silent_bus phone_codecs)
        {Reader = ℕ}
        (write mobile_a 20 (ok 0) ∷ reads_of packets)
        (record { alive = true; system = system }) in
    (run.0 ≡ ok tt)
    × (run.1.alive ≡ true)
    × ((get_mobile db (1 ∷ []) run.1.system.outside.outside).0 ≡ ok phone)
    × ((db.read host_schema host_key run.1.system.outside.outside).0
        ≡ ok (some (record host { registered_mobiles = (1 ∷ []) ∷ [] })))
provisioner-get_mobile_example =
    provisioner-get_mobile db db-IsStore no_devices silent_bus silent_bus phone_codecs {Reader = ℕ}
      mobile_a 20 0 1 packets chunks (5 ∷ 6 ∷ []) phone host system (refl, (refl, tt))
      (omega arith, (omega arith, tt)) (refl, omega arith, omega arith, (refl, omega arith)) refl
      (omega arith) nothing_collected refl has_host
