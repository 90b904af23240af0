-- ===== src/Ble/Clients/Packets.antt =====
-- The packets of a mobile's write stream, as the server takes them: together they are a command.
use webcam_direct_linux.Prelude.{
  ℕ, ◌+◌, ◌≤◌, ◌<◌, ◌≡◌, refl, subst, ap, ◌∙◌, arith, Bytes, List, [], ◌∷◌, ◌++◌, append-nil,
  append_assoc, length, length-append, Result, ok, true, false, ◌==◌, list_key, number_key,
}
use webcam_direct_linux.Ble.Api.{CmdApi, max_buffer_len}
use webcam_direct_linux.Ble.CommTypes.{DataChunk}
use webcam_direct_linux.Ble.Buffer.Reader.{payloads}
use webcam_direct_linux.Ble.Buffer.ReadAll.{IsTransfer}
use webcam_direct_linux.Ble.Buffer.Writer.{collected}
use webcam_direct_linux.Ble.Requester.{Broadcast}
use webcam_direct_linux.Ble.Requester.Publishing.{ReadAs}
use webcam_direct_linux.Ble.Requester.Requests.{ServerTask, mailbox, panicked, cmd-handle_command}
use webcam_direct_linux.Ble.Server.Service.{CommDataService, Codecs}
use webcam_direct_linux.Ble.Server.{System, dispatch, handle_command}
use webcam_direct_linux.Ble.Server.Serving.{handle_all}
use webcam_direct_linux.Ble.Server.Sends.{
  alone, after_sends, put, command_last, command_more, collected-put,
}
use webcam_direct_linux.Ble.Clients.WriteStream.{
  WriteStream, Client, WriteEvent, read, filled, write_loop, write_loop_read,
}

-- The packets that a stream gives.
abbrev pub reads_of : {Reader : Type 0} → List Bytes → List (WriteEvent Reader)
reads_of [] = []
reads_of (b ∷ bs) = read (ok b) ∷ reads_of bs

abbrev pub Nonempty : List Bytes → Type 0
Nonempty [] = Unit {0}
Nonempty (b ∷ bs) = (0 < length b) × Nonempty bs

-- The client with its server's task running.
abbrev pub Running :
    {S Tx Reader : Type 0} → WriteStream Reader → System S Tx → Client Reader (ServerTask S Tx)
Running stream s = record { stream = stream; server = record { alive = true; system = s } }

module _ {S Tx Rx Reader : Type 0} (service : CommDataService S Tx) (bus : Broadcast S Tx Rx)
    (codecs : Codecs) (cmd_type : CmdApi) where
  abbrev WithBuf : WriteStream Reader → Bytes → WriteStream Reader
  WithBuf stream b = record stream { read_buf = filled b stream.read_buf }

  one_packet :
      (b : Bytes) (events : List (WriteEvent Reader)) (stream : WriteStream Reader)
      (s t : System S Tx) (r : Result (Unit {0}))
      → 0 < length b
      → handle_command service bus codecs stream.current_device_addr
          (record { cmd_type = cmd_type; payload = b })
          s
        ≡ (r, t)
      → panicked r ≡ false
      → write_loop (mailbox service bus codecs) cmd_type (read (ok b) ∷ events) (Running stream s)
        ≡ write_loop (mailbox service bus codecs) cmd_type events (Running (WithBuf stream b) t)
  one_packet b events stream s t r some_data e quiet =
      write_loop_read (mailbox service bus codecs) cmd_type b events (Running stream s) r
        (record { alive = true; system = t }) some_data
        (cmd-handle_command service bus codecs stream.current_device_addr cmd_type b s t r e quiet)

  -- Packets that read as a complete transfer of a command end in one dispatch of its bytes, behind
  -- those that were there, for the mobile that asked to write last.
  pub write_loop-dispatch :
      (len : ℕ) (messages : List Bytes) (chunks : List DataChunk) (stream : WriteStream Reader)
      (s u : System S Tx) (r : Result (Unit {0}))
      → let addr = stream.current_device_addr in
        ReadAs codecs.data_chunk messages chunks
        → Nonempty messages
        → IsTransfer len chunks
        → length (collected s.handler.buffer_map addr cmd_type) + length (payloads chunks)
          ≤ max_buffer_len
        → dispatch service bus codecs cmd_type addr
            (collected s.handler.buffer_map addr cmd_type ++ payloads chunks)
            (after_sends service bus codecs addr cmd_type (alone chunks) s)
          ≡ (r, u)
        → panicked r ≡ false
        → (stream' : WriteStream Reader) × (write_loop
              (mailbox service bus codecs)
              cmd_type
              (reads_of messages)
              (Running stream s)
            ≡ (ok tt, Running stream' u))
  unfolding after_sends handle_all
  write_loop-dispatch len messages [] stream s u r a n t fits e quiet = absurd t
  write_loop-dispatch len [] (c ∷ chunks) stream s u r a n t fits e quiet = absurd a
  write_loop-dispatch len (b ∷ b' ∷ messages) (c ∷ []) stream s u r a n t fits e quiet = absurd a.1
  write_loop-dispatch len (b ∷ []) (c ∷ []) stream s u r a n t fits e quiet =
      let addr = stream.current_device_addr in
      (
        WithBuf stream b,
        one_packet b [] stream s u r n.0
              (command_last service bus codecs addr cmd_type c b s a.0 t.0
                  (omega (arith, length-append c.d []))
                ∙ subst
                    (λ (x : Bytes).
                      dispatch service bus codecs cmd_type addr
                        (collected s.handler.buffer_map addr cmd_type ++ x)
                        (put service bus codecs s addr cmd_type c)
                      ≡ (r, u))
                    (append-nil c.d) e)
              quiet
            ∙ unfold write_loop in refl,
      )
  write_loop-dispatch len (b ∷ messages) (c ∷ d ∷ chunks) stream s u r a n t fits e quiet =
      let addr = stream.current_device_addr in
      let before = collected s.handler.buffer_map addr cmd_type in
      let rest = payloads (d ∷ chunks) in
      let count = length-append c.d rest in
      let more : (c.r == 0) ≡ false = ground (arith, t.1) in
      let held = collected-put service bus codecs addr cmd_type c s more (omega (arith, count)) in
      let joined : collected (put service bus codecs s addr cmd_type c).handler.buffer_map addr
              cmd_type
            ++ rest
          ≡ before ++ (c.d ++ rest) =
        ap (λ (x : Bytes). x ++ rest) held ∙ append_assoc before c.d rest in
      let (stream', run) =
        write_loop-dispatch len messages (d ∷ chunks) (WithBuf stream b)
          (put service bus codecs s addr cmd_type c) u r a.1 n.1 t.3
          (omega (arith, ap length held, count, length-append before c.d)) (rw joined e) quiet in
      (
        stream',
        one_packet b (reads_of messages) stream s (put service bus codecs s addr cmd_type c) (ok tt)
              n.0 (command_more service bus codecs addr cmd_type c b s a.0 more) refl
            ∙ run,
      )
