-- ===== src/Ble/Exchange.antt =====
-- A call with one mobile over the characteristic of src/ble/clients/sdp_exchanger.rs, with the server
-- (src/ble/server/mod.rs) and the service (src/ble/server/mobile_comm.rs) behind it.
mod Notified
mod Reading
use webcam_direct_linux.Prelude.{
  ℕ, zero, suc, ◌+◌, ◌-◌, ◌≤◌, ◌<◌, ◌≡◌, refl, ap, ◌∙◌, arith, Bytes, List, [], ◌∷◌, ◌++◌, length,
  map, none, some, ok, Exec, usize_bound, list_key, number_key, true, false,
}
use webcam_direct_linux.HashMap.{get}
use webcam_direct_linux.AppData.Schemas.{MobileSchema}
use webcam_direct_linux.Ble.Api.{Address, sdp_offer, sdp_answer, sdp_answer_ready, max_buffer_len}
use webcam_direct_linux.Ble.CommTypes.{DataChunk, ReadsBack, AlwaysWrites, MobileSdpOffer}
use webcam_direct_linux.Ble.Buffer.{reader_at}
use webcam_direct_linux.Ble.Buffer.Reader.{payloads}
use webcam_direct_linux.Ble.Buffer.ReadAll.{IsTransfer}
use webcam_direct_linux.Ble.Buffer.Writer.{collected}
use webcam_direct_linux.Ble.Requester.{Broadcast, BlePublisher, publish}
use webcam_direct_linux.Ble.Requester.Publishing.{ReadAs}
use webcam_direct_linux.Ble.Requester.Requests.{ServerTask, mailbox, subscribe}
use webcam_direct_linux.Ble.Server.Service.{Codecs}
use webcam_direct_linux.Ble.Server.{System, dispatch}
use webcam_direct_linux.Ble.Server.Rounds.{AllOfOthers, read_between}
use webcam_direct_linux.Ble.Server.Sends.{alone, after_sends, after_sends-alone}
use webcam_direct_linux.Ble.MobileComm.{
  AppDataStore, VDeviceMap, VDeviceBuilderOps, DeviceInfo, MobileComm, camera_answer_of,
  set_mobile_sdp_offer, get_sdp_answer,
}
use webcam_direct_linux.Ble.MobileComm.Calls.{get_sdp_answer-set_offer}
use webcam_direct_linux.Ble.Session.{comm_service, dispatch_offer, download_answer, answered}
use webcam_direct_linux.Ble.Clients.WriteStream.{
  WriteStream, Client, WriteEvent, write, zeros, new_stream, write_loop, handle_write, accept_write,
}
use webcam_direct_linux.Ble.Clients.Packets.{reads_of, Nonempty, write_loop-dispatch}
use webcam_direct_linux.Ble.Clients.SdpExchanger.{
  SdpExchanger, SdpEvent, on_write, notify, handle_event, accept_notify, sdp_exchanger,
  mtu_metadata_overhead,
}
pub use Notified.{notify_all, all_received}
use Notified.{IsKept, sdp_exchanger_run}
pub use webcam_direct_linux.Ble.Server.Serving.{running}
pub use Reading.{read_value, answer_req}
use Reading.{undisturbed, read_value-read_between}

undisturbed-AllOfOthers : (addr : Address) (n : ℕ) → AllOfOthers addr (undisturbed n)
undisturbed-AllOfOthers addr zero = tt
undisturbed-AllOfOthers addr (suc n) = (tt, undisturbed-AllOfOthers addr n)

length-undisturbed : (n : ℕ) → length (undisturbed n) ≡ n
length-undisturbed zero = refl
length-undisturbed (suc n) = ap suc (length-undisturbed n)

reads_of-IsKept :
    (Reader : Type 0) (packets : List Bytes) → IsKept {Reader = Reader} (reads_of packets)
reads_of-IsKept Reader [] = tt
reads_of-IsKept Reader (b ∷ packets) = reads_of-IsKept Reader packets

module _ {S Tx Rx Reader Notifier B : Type 0} (db : AppDataStore S) (builder : VDeviceBuilderOps S)
    (bus : Broadcast S Tx Rx) (server_bus : Broadcast (MobileComm S Tx) Tx Rx) (codecs : Codecs)
    (write_notifier : Notifier → Bytes → Exec B (Unit {0})) where
  -- The exchanger as its loop starts.
  abbrev pub exchanger :
      B
      → System (MobileComm S Tx) Tx
      → SdpExchanger Reader Notifier Rx (ServerTask (MobileComm S Tx) Tx) B
  exchanger b s = record {
    client = record { stream = new_stream; server = running s };
    notifier_opt = none;
    sub_recv_opt = none;
    bluetooth = b;
  }

  -- A mobile asks to be notified, writes its offer packet by packet, and is notified.
  abbrev pub call_events :
      Address
      → ℕ
      → ℕ
      → Notifier
      → Reader
      → List Bytes
      → List Bytes
      → List (SdpEvent Reader Notifier)
  call_events addr mtu write_mtu n reader packets messages =
      notify addr mtu n
      ∷ (map on_write (write addr write_mtu (ok reader) ∷ reads_of packets)
          ++ all_received messages)

  -- The packets of an offer end in what the service does with it.
  write_offer :
      (addr : Address) (write_mtu len : ℕ) (reader : Reader) (packets : List Bytes)
      (chunks : List DataChunk) (buffer : Bytes) (offer : MobileSdpOffer)
      (s : System (MobileComm S Tx) Tx) (c : MobileComm S Tx) (stream : WriteStream Reader)
      → codecs.mobile_sdp_offer.des buffer ≡ ok offer
      → ReadAs codecs.data_chunk packets chunks
      → Nonempty packets
      → IsTransfer len chunks
      → payloads chunks ≡ buffer
      → length buffer ≤ max_buffer_len
      → collected s.handler.buffer_map addr sdp_offer ≡ []
      → let svc = comm_service db builder bus server_bus codecs in
        let after = after_sends svc server_bus codecs addr sdp_offer (alone chunks) s in
        set_mobile_sdp_offer db builder bus codecs addr offer after.outside ≡ (ok tt, c)
        → (stream' : WriteStream Reader) × (write_loop
              (mailbox svc server_bus codecs)
              sdp_offer
              (write addr write_mtu (ok reader) ∷ reads_of packets)
              (record { stream = stream; server = running s })
            ≡ (ok tt, record { stream = stream'; server = running (record after { outside = c }) }))
  unfolding write_loop handle_write accept_write
  write_offer addr write_mtu len reader packets chunks buffer offer s c stream des a some_data
        transfer joined fits idle set =
      let svc = comm_service db builder bus server_bus codecs in
      let after = after_sends svc server_bus codecs addr sdp_offer (alone chunks) s in
      let opened : WriteStream Reader = record {
        current_device_addr = addr;
        read_buf = zeros write_mtu;
        reader_opt = some reader;
      } in
      let whole : collected s.handler.buffer_map addr sdp_offer ++ payloads chunks ≡ buffer =
        rw idle joined in
      write_loop-dispatch {Reader = Reader} svc server_bus codecs sdp_offer len packets chunks
        opened s (record after { outside = c }) (ok tt) a some_data transfer
        (omega (arith, ap length idle, ap length joined))
        (rw whole (dispatch_offer svc server_bus codecs addr buffer offer after c des set)) refl

  -- A mobile that asks to be notified and writes the packets of its offer to the exchanger's
  -- characteristic is notified of every message that is received from the server, and reading the
  -- characteristic then gives it the encoding of the answers of exactly the devices that were made
  -- for its offer, within one read more than the encoding has bytes. The mobile is registered, and
  -- its subscription, the making of the devices, the announcement and the notifications succeed;
  -- its transfers were idle and no answer was cached; the chunk encoding writes and reads back, no
  -- packet is empty, the offer fits in the buffer, the MTU leaves room for 1 to max_buffer_len
  -- bytes, and the lengths stay within usize.
  pub sdp_exchanger-call :
      (reads : ReadsBack codecs.data_chunk) (writes : AlwaysWrites codecs.data_chunk)
      (addr : Address) (mtu write_mtu read_mtu len len' : ℕ) (n : Notifier) (reader : Reader)
      (packets messages : List Bytes) (chunks : List DataChunk) (buffer d ready : Bytes)
      (offer : MobileSdpOffer) (b b' : B) (rx : Rx) (s0 s : System (MobileComm S Tx) Tx)
      (mobile : MobileSchema) (info : DeviceInfo Tx) (p : BlePublisher Tx) (devices : VDeviceMap)
      (s1 s2 s3 : S)
      → let svc = comm_service db builder bus server_bus codecs in
        let server_conn = mailbox svc server_bus codecs in
        subscribe server_conn addr sdp_answer_ready mtu (running s0) ≡ (ok rx, running s)
        → ReadAs codecs.data_chunk packets chunks
        → Nonempty packets
        → IsTransfer len chunks
        → payloads chunks ≡ buffer
        → length buffer ≤ max_buffer_len
        → codecs.mobile_sdp_offer.des buffer ≡ ok offer
        → collected s.handler.buffer_map addr sdp_offer ≡ []
        → db.get_mobile offer.mobile_id s.outside.outside ≡ (ok mobile, s1)
        → get s.outside.mobiles_connected addr ≡ some info
        → info.publisher ≡ some p
        → builder.create_from mobile.name offer.camera_offer s1 ≡ (ok devices, s2)
        → codecs.sdp_answer_ready.ser (record { mobile_id = offer.mobile_id }) ≡ ok ready
        → publish bus codecs.data_chunk p ready (builder.drop_vdevices info.vdevices s2)
          ≡ (ok tt, s3)
        → notify_all write_notifier n messages b ≡ (ok tt, b')
        → codecs.mobile_sdp_answer.ser (record { camera_answer = map camera_answer_of devices })
          ≡ ok d
        → get s.handler.server_data_cache.sdp_answer addr ≡ none
        → reader_at s.handler.buffer_map addr sdp_answer ≡ none
        → read_mtu - mtu_metadata_overhead - s.handler.buffer_map.chunk_len ≡ len'
        → 0 < len'
        → len' ≤ max_buffer_len
        → length d + len' < usize_bound
        → let run =
            sdp_exchanger server_conn write_notifier
              (call_events addr mtu write_mtu n reader packets messages)
              (exchanger b s0) in
          (run.0 ≡ ok tt)
          × (run.1.notifier_opt ≡ some n)
          × (run.1.bluetooth ≡ b')
          × ((out : List DataChunk) × (t : ServerTask (MobileComm S Tx) Tx) × (read_value
                  server_conn codecs.data_chunk
                  (suc (length d))
                  addr
                  read_mtu
                  run.1.client.server
                ≡ (ok out, t))
              × (payloads out ≡ d)
              × IsTransfer len' out)
  sdp_exchanger-call reads writes addr mtu write_mtu read_mtu len len' n reader packets messages
        chunks buffer d ready offer b b' rx s0 s mobile info p devices s1 s2 s3 subscribed a
        some_data transfer joined fits des idle g e pe made rd announced told ae no_answer quiet
        size room short bound =
      let svc = comm_service db builder bus server_bus codecs in
      let server_conn = mailbox svc server_bus codecs in
      let after = after_sends svc server_bus codecs addr sdp_offer (alone chunks) s in
      let (same, cache, size', readers) =
        after_sends-alone svc server_bus codecs reads writes addr sdp_offer chunks s in
      let (set, _, answers) =
        get_sdp_answer-set_offer db builder bus codecs addr offer s.outside mobile info p devices
          ready s1 s2 s3 g e pe made rd announced in
      let c' = (set_mobile_sdp_offer db builder bus codecs addr offer s.outside).1 in
      let u : System (MobileComm S Tx) Tx = record after { outside = c' } in
      let (stream', written) =
        write_offer addr write_mtu len reader packets chunks buffer offer s c' new_stream des a
          some_data transfer joined fits idle (ground (arith, same, set)) in
      let (out, t, down, whole, parts) =
        download_answer svc server_bus codecs reads writes addr (answer_req read_mtu) _ d len'
          (undisturbed (length d)) u refl (rw cache no_answer)
          (answered db builder bus server_bus codecs addr c' _ answers) ae
          (undisturbed-AllOfOthers addr (length d)) (readers sdp_answer ∙ quiet) (rw size' size)
          (omega (arith, length-undisturbed (length d))) room short bound in
      let ran =
        sdp_exchanger_run server_conn write_notifier addr mtu n
          (write addr write_mtu (ok reader) ∷ reads_of packets) messages (exchanger b s0) rx
          (running s) (record { stream = stream'; server = running u }) b' refl refl subscribed
          (reads_of-IsKept Reader packets) written told in
      let reading =
        read_value-read_between svc server_bus codecs (suc (length d)) addr read_mtu out u t
          (omega arith) down in
      rw ran (refl, refl, refl, (out, running t, reading, whole, parts))
