-- ===== src/Ble/Clients/Provisioner.antt =====
-- src/ble/clients/provisioner.rs: the characteristic through which a mobile reads the host's
-- information and registers itself. Advertising and serving it are `bluer`'s.
use webcam_direct_linux.Prelude.{
  ℕ, ◌≤◌, ◌≡◌, refl, ap, arith, Bytes, List, [], ◌∷◌, ◌++◌, length, some, Result, ok, err, panic,
  Exec, true, false, list_key, number_key,
}
use webcam_direct_linux.AppData.Schemas.{MobileSchema}
use webcam_direct_linux.Ble.Api.{Address, register_mobile, host_info, CommBuffer, max_buffer_len}
use webcam_direct_linux.Ble.CommTypes.{DataChunk}
use webcam_direct_linux.Ble.Buffer.Reader.{payloads}
use webcam_direct_linux.Ble.Buffer.ReadAll.{IsTransfer}
use webcam_direct_linux.Ble.Buffer.Writer.{collected}
use webcam_direct_linux.Ble.Requester.{Broadcast}
use webcam_direct_linux.Ble.Requester.Publishing.{ReadAs}
use webcam_direct_linux.Ble.Requester.Requests.{Mailbox, ServerTask, query, mailbox, panicked}
use webcam_direct_linux.Ble.Server.Service.{CommDataService, Codecs}
use webcam_direct_linux.Ble.Server.{System, dispatch}
use webcam_direct_linux.Ble.Server.Sends.{alone, after_sends, outside-after_sends}
use webcam_direct_linux.Ble.Clients.WriteStream.{
  WriteStream, Client, WriteEvent, write, zeros, new_stream, accept_write, handle_write, write_loop,
}
use webcam_direct_linux.Ble.Clients.Packets.{reads_of, Nonempty, write_loop-dispatch}

-- Reading the characteristic: an error is only logged, and the mobile is given nothing.
abbrev pub or_nothing : Result CommBuffer → Result CommBuffer
or_nothing (ok bytes) = ok bytes
or_nothing (err e) = ok []
or_nothing panic = panic

module _ {M Rx : Type 0} (server_conn : Mailbox M Rx) where
  unfoldable pub read_host_info : Address → ℕ → Exec M CommBuffer
  read_host_info device_address mtu m =
      let (r, m') = query server_conn device_address host_info mtu m in (or_nothing r, m')

  -- The loop over the writes, from its start.
  unfoldable pub provisioner : {Reader : Type 0} → List (WriteEvent Reader) → Exec M (Unit {0})
  provisioner {Reader} events m =
      let (r, c) =
        write_loop {Reader = Reader} server_conn register_mobile events
          (record { stream = new_stream; server = m }) in
      (r, c.server)

module _ {S Tx Rx : Type 0} (service : CommDataService S Tx) (bus : Broadcast S Tx Rx)
    (codecs : Codecs) where
  dispatch_register :
      (addr : Address) (buffer : Bytes) (mobile : MobileSchema) (s : System S Tx)
      (r : Result (Unit {0})) (o : S)
      → codecs.mobile_schema.des buffer ≡ ok mobile
      → service.register_mobile addr mobile s.outside ≡ (r, o)
      → dispatch service bus codecs register_mobile addr buffer s ≡ (r, record s { outside = o })
  unfolding dispatch
  dispatch_register addr buffer mobile s r o e f = rw (e, f) refl

  -- A mobile that writes the packets of its encoded record to the provisioner's characteristic is
  -- handed to the service once, with the record that the packets read as; the client goes on, also
  -- where the service refuses. The server's task runs and has nothing collected of the mobile, the
  -- record fits in the buffer, no packet is empty, and the service does not panic.
  pub provisioner-register_mobile :
      {Reader : Type 0} (addr : Address) (mtu : ℕ) (reader : Reader) (len : ℕ)
      (messages : List Bytes) (chunks : List DataChunk) (buffer : Bytes) (mobile : MobileSchema)
      (s : System S Tx) (r : Result (Unit {0})) (o : S)
      → ReadAs codecs.data_chunk messages chunks
      → Nonempty messages
      → IsTransfer len chunks
      → payloads chunks ≡ buffer
      → length buffer ≤ max_buffer_len
      → collected s.handler.buffer_map addr register_mobile ≡ []
      → codecs.mobile_schema.des buffer ≡ ok mobile
      → service.register_mobile addr mobile s.outside ≡ (r, o)
      → panicked r ≡ false
      → let after = after_sends service bus codecs addr register_mobile (alone chunks) s in
        provisioner
          (mailbox service bus codecs)
          {Reader = Reader}
          (write addr mtu (ok reader) ∷ reads_of messages)
          (record { alive = true; system = s })
        ≡ (ok tt, record { alive = true; system = record after { outside = o } })
  unfolding provisioner write_loop handle_write accept_write
  provisioner-register_mobile {Reader} addr mtu reader len messages chunks buffer mobile s r o a n t
        joined fits idle des registered quiet =
      let after = after_sends service bus codecs addr register_mobile (alone chunks) s in
      let stream : WriteStream Reader = record {
        current_device_addr = addr;
        read_buf = zeros mtu;
        reader_opt = some reader;
      } in
      let whole : collected s.handler.buffer_map addr register_mobile ++ payloads chunks ≡ buffer =
        rw idle joined in
      let given : service.register_mobile addr mobile after.outside ≡ (r, o) =
        rw (outside-after_sends service bus codecs addr register_mobile chunks s) registered in
      let (stream', run) =
        write_loop-dispatch {Reader = Reader} service bus codecs register_mobile len messages chunks
          stream s (record after { outside = o }) r a n t
          (omega (arith, ap length idle, ap length joined))
          (rw whole (dispatch_register addr buffer mobile after r o des given)) quiet in
      ap (λ (p : Result (Unit {0}) × Client Reader (ServerTask S Tx)). (p.0, p.1.server)) run
