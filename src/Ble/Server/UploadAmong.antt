-- ===== src/Ble/Server/UploadAmong.antt =====
-- A mobile sends a command in chunks to the task of BleServer::new (src/ble/server/mod.rs), to which
-- the others send requests in between: one that panics would end the task.
use webcam_direct_linux.Prelude.{
  ℕ, ◌+◌, ◌≤◌, ◌≡◌, refl, ap, sym, ◌∙◌, arith, List, [], ◌∷◌, ◌++◌, length, false, Result-cases,
  inl, inr, none, ok, anyhow, Result, Exec, lift, ◌>>=◌, ◌>>◌, if◌then◌else◌, ◌==◌, list_key,
  number_key,
}
use webcam_direct_linux.Ble.Api.{Address, CmdApi, CommBuffer, BleComm, CommandReq, max_buffer_len}
use webcam_direct_linux.Ble.CommTypes.{DataChunk, ReadsBack, AlwaysWrites}
use webcam_direct_linux.Ble.Buffer.{writer_at}
use webcam_direct_linux.Ble.Buffer.Reader.{payloads}
use webcam_direct_linux.Ble.Buffer.ReadAll.{IsTransfer}
use webcam_direct_linux.Ble.Buffer.Writer.{collected}
use webcam_direct_linux.Ble.Requester.{Broadcast}
use webcam_direct_linux.Ble.Requester.Requests.{
  ServerTask, mailbox, ask, cmd, panicked, cmd-handle_command,
}
use webcam_direct_linux.Ble.Server.Service.{CommDataService, Codecs}
use webcam_direct_linux.Ble.Server.{System, dispatch, handle_command, handle_comm}
use webcam_direct_linux.Ble.Server.Serving.{handle_all, serve, running, Quiet, serve-handle_all}
use webcam_direct_linux.Ble.Server.Sends.{
  Sends, chunks_of, BetweenOthers, upload, put, after_sends, command_more,
}
use webcam_direct_linux.Ble.Server.Upload.{then_done, upload_more, upload-dispatch}

module _ {S Tx Rx : Type 0} (service : CommDataService S Tx) (bus : Broadcast S Tx Rx)
    (codecs : Codecs) where
  -- The mobile stops at the first error.
  unfoldable pub upload_among : Address → CmdApi → Sends → Exec (ServerTask S Tx) (Unit {0})
  upload_among addr cmd_type [] task = (ok tt, task)
  upload_among addr cmd_type ((others, chunk) ∷ sends) task =
      (do
        payload ← lift (codecs.data_chunk.ser chunk)
        cmd (mailbox service bus codecs) addr cmd_type payload
        upload_among addr cmd_type sends)
        (serve service bus codecs others task)

  abbrev pub QuietSends : Address → CmdApi → Sends → System S Tx → Type 0
  QuietSends addr cmd_type [] s = Unit {0}
  QuietSends addr cmd_type ((others, chunk) ∷ sends) s =
      Quiet service bus codecs others s
      × QuietSends addr cmd_type sends
          (put service bus codecs (handle_all service bus codecs others s) addr cmd_type chunk)

  -- What the mobile is told of the handler's result, and the task behind it: a panic ends it.
  abbrev pub told : Result (Unit {0}) × System S Tx → Result (Unit {0}) × ServerTask S Tx
  told (r, u) =
      if panicked r
      then (anyhow "channel closed", record { alive = false; system = u })
      else (r, running u)

  cmd_lem :
      (addr : Address) (cmd_type : CmdApi) (payload : CommBuffer) (s : System S Tx)
      → cmd (mailbox service bus codecs) addr cmd_type payload (running s)
        ≡ told (
            handle_command service bus codecs addr
              (record { cmd_type = cmd_type; payload = payload })
              s)
  unfolding cmd ask handle_comm
  cmd_lem addr cmd_type payload s =
      let req : CommandReq = record { cmd_type = cmd_type; payload = payload } in
      elim (Result-cases (handle_command service bus codecs addr req s).0) [
        | inl (u, e) ↦ ground (arith, e)
        | inr (inl (x, e)) ↦ ground (arith, e)
        | inr (inr e) ↦ ground (arith, e)
      ]

  module _ (reads : ReadsBack codecs.data_chunk) (writes : AlwaysWrites codecs.data_chunk)
      (addr : Address) (cmd_type : CmdApi) where
    among_last :
        (others : List BleComm) (c : DataChunk) (s : System S Tx)
        → Quiet service bus codecs others s
        → upload_among addr cmd_type ((others, c) ∷ []) (running s)
          ≡ told (upload service bus codecs addr cmd_type ((others, c) ∷ []) s)
    unfolding upload_among upload
    among_last others c s quiet =
        let t = handle_all service bus codecs others s in
        let (payload, e) = writes c in
        let req : CommandReq = record { cmd_type = cmd_type; payload = payload } in
        rw (serve-handle_all service bus codecs others s quiet, e)
          (then_done (cmd (mailbox service bus codecs) addr cmd_type payload) (running t)
            ∙ cmd_lem addr cmd_type payload t
            ∙ ap told (sym (then_done (handle_command service bus codecs addr req) t)))

    among_more :
        (others : List BleComm) (c : DataChunk) (sends : Sends) (s : System S Tx)
        → Quiet service bus codecs others s
        → (c.r == 0) ≡ false
        → upload_among addr cmd_type ((others, c) ∷ sends) (running s)
          ≡ upload_among addr cmd_type sends (
              running
                (put service bus codecs (handle_all service bus codecs others s) addr cmd_type c))
    unfolding upload_among
    among_more others c sends s quiet more =
        let t = handle_all service bus codecs others s in
        let (payload, e) = writes c in
        rw
          (
            serve-handle_all service bus codecs others s quiet,
            e,
            cmd-handle_command service bus codecs addr cmd_type payload t _ (ok tt)
                (command_more service bus codecs addr cmd_type c payload t (reads c payload e) more)
                refl,
          )
          refl

    upload_among-upload :
        (len : ℕ) (sends : Sends) (s : System S Tx)
        → QuietSends addr cmd_type sends s
        → IsTransfer len (chunks_of sends)
        → upload_among addr cmd_type sends (running s)
          ≡ told (upload service bus codecs addr cmd_type sends s)
    upload_among-upload len [] s quiet transfer = absurd transfer
    upload_among-upload len ((others, c) ∷ []) s quiet transfer = among_last others c s quiet.0
    upload_among-upload len ((others, c) ∷ (others', d) ∷ sends) s quiet transfer =
        let more : (c.r == 0) ≡ false = ground (arith, transfer.1) in
        let t = put service bus codecs (handle_all service bus codecs others s) addr cmd_type c in
        among_more others c ((others', d) ∷ sends) s quiet.0 more
        ∙ upload_among-upload len ((others', d) ∷ sends) t quiet.1 transfer.3
        ∙ ap told (
            sym (
              upload_more service bus codecs reads writes addr cmd_type others c
                ((others', d) ∷ sends) s more))

    -- At a task that runs, a complete transfer of a command that fits in the buffer, whatever the
    -- other mobiles ask the task for in between, as long as no request of theirs panics, ends in
    -- one dispatch of exactly its bytes, behind those that were there, with the channel idle. The
    -- mobile is told its result, and the task runs on unless the dispatch panics. The encoding
    -- writes and reads back.
    pub upload_among-dispatch :
        (len : ℕ) (sends : Sends) (s : System S Tx)
        → BetweenOthers addr sends
        → QuietSends addr cmd_type sends s
        → IsTransfer len (chunks_of sends)
        → length (collected s.handler.buffer_map addr cmd_type)
            + length (payloads (chunks_of sends))
          ≤ max_buffer_len
        → let t = after_sends service bus codecs addr cmd_type sends s in
          (upload_among addr cmd_type sends (running s)
            ≡ told (
                dispatch service bus codecs cmd_type addr
                  (collected s.handler.buffer_map addr cmd_type ++ payloads (chunks_of sends))
                  t))
          × (writer_at t.handler.buffer_map addr cmd_type ≡ none)
    upload_among-dispatch len sends s others quiet transfer fits =
        let (run, idle) =
          upload-dispatch service bus codecs reads writes addr cmd_type len sends s others transfer
            fits in
        (upload_among-upload len sends s quiet transfer ∙ ap told run, idle)
