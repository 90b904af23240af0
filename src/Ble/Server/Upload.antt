-- ===== src/Ble/Server/Upload.antt =====
-- A mobile sends a command in chunks, while the other mobiles send requests of their own.
use webcam_direct_linux.Prelude.{
  ℕ, ◌+◌, ◌≤◌, ◌≡◌, refl, ap, ◌∙◌, arith, Bytes, List, [], ◌∷◌, ◌++◌, append-nil, append_assoc,
  length, length-append, none, ◌==◌, false, Exec, pure, ◌>>◌, list_key, number_key, Result-cases,
  inl, inr,
}
use webcam_direct_linux.Ble.Api.{Address, CmdApi, BleComm, max_buffer_len}
use webcam_direct_linux.Ble.CommTypes.{DataChunk, ReadsBack, AlwaysWrites}
use webcam_direct_linux.Ble.Buffer.{writer_at}
use webcam_direct_linux.Ble.Buffer.Reader.{payloads}
use webcam_direct_linux.Ble.Buffer.ReadAll.{IsTransfer}
use webcam_direct_linux.Ble.Buffer.Writer.{collected}
use webcam_direct_linux.Ble.Requester.{Broadcast}
use webcam_direct_linux.Ble.Server.Service.{CommDataService, Codecs}
use webcam_direct_linux.Ble.Server.{System, dispatch}
use webcam_direct_linux.Ble.Server.Serving.{handle_all}
use webcam_direct_linux.Ble.Server.Rounds.{OfOthers, handle_all-Keeps}
use webcam_direct_linux.Ble.Server.Sends.{
  Sends, chunks_of, BetweenOthers, upload, put, after_sends, command_last, command_more,
  collected-put, idle-put,
}

pub then_done : {S : Type 0} (m : Exec S (Unit {0})) (s : S) → (m >> pure tt) s ≡ m s
then_done m s = elim (Result-cases (m s).0) [
  | inl (u, e) ↦ ground (arith, e)
  | inr (inl (x, e)) ↦ ground (arith, e)
  | inr (inr e) ↦ ground (arith, e)
]

module _ {S Tx Rx : Type 0} (service : CommDataService S Tx) (bus : Broadcast S Tx Rx)
    (codecs : Codecs) where
  module _ (reads : ReadsBack codecs.data_chunk) (writes : AlwaysWrites codecs.data_chunk)
      (addr : Address) (cmd_type : CmdApi) where
    upload_last :
        (others : List BleComm) (c : DataChunk) (s : System S Tx)
        → let t = handle_all service bus codecs others s in
          c.r ≡ 0
          → length (collected t.handler.buffer_map addr cmd_type) + length c.d ≤ max_buffer_len
          → upload service bus codecs addr cmd_type ((others, c) ∷ []) s
            ≡ dispatch service bus codecs cmd_type addr
                (collected t.handler.buffer_map addr cmd_type ++ c.d)
                (put service bus codecs t addr cmd_type c)
    unfolding upload
    upload_last others c s z fits =
        let t = handle_all service bus codecs others s in
        let (payload, e) = writes c in
        rw (e, command_last service bus codecs addr cmd_type c payload t (reads c payload e) z fits)
          (then_done
            (dispatch service bus codecs cmd_type addr
              (collected t.handler.buffer_map addr cmd_type ++ c.d))
            (put service bus codecs t addr cmd_type c))

    pub upload_more :
        (others : List BleComm) (c : DataChunk) (sends : Sends) (s : System S Tx)
        → (c.r == 0) ≡ false
        → upload service bus codecs addr cmd_type ((others, c) ∷ sends) s
          ≡ upload service bus codecs addr cmd_type sends
              (put service bus codecs (handle_all service bus codecs others s) addr cmd_type c)
    unfolding upload
    upload_more others c sends s more =
        let (payload, e) = writes c in
        rw
          (
            e,
            command_more service bus codecs addr cmd_type c payload
                (handle_all service bus codecs others s) (reads c payload e) more,
          )
          refl

    -- What is collected survives the requests of others.
    collected-handle_all :
        (others : List BleComm) (s : System S Tx)
        → OfOthers addr others
        → collected (handle_all service bus codecs others s).handler.buffer_map addr cmd_type
          ≡ collected s.handler.buffer_map addr cmd_type
    collected-handle_all others s o =
        let k = handle_all-Keeps service bus codecs addr others s o in rw (k.writer cmd_type) refl

    -- A complete transfer of a command that fits in the buffer, whatever the other mobiles ask for
    -- in between, ends in one dispatch of exactly its bytes, behind those that were there, with
    -- the channel idle. The encoding writes and reads back.
    pub upload-dispatch :
        (len : ℕ) (sends : Sends) (s : System S Tx)
        → BetweenOthers addr sends
        → IsTransfer len (chunks_of sends)
        → length (collected s.handler.buffer_map addr cmd_type)
            + length (payloads (chunks_of sends))
          ≤ max_buffer_len
        → let t = after_sends service bus codecs addr cmd_type sends s in
          (upload service bus codecs addr cmd_type sends s
            ≡ dispatch service bus codecs cmd_type addr
                (collected s.handler.buffer_map addr cmd_type ++ payloads (chunks_of sends))
                t)
          × (writer_at t.handler.buffer_map addr cmd_type ≡ none)
    unfolding after_sends
    upload-dispatch len [] s o t fits = absurd t
    upload-dispatch len ((others, c) ∷ []) s o t fits =
        let u = handle_all service bus codecs others s in
        let same = collected-handle_all others s o.0 in
        (
          rw (append-nil, ← same)
              (upload_last others c s t.0 (omega (arith, length-append c.d [], ap length same))),
          idle-put service bus codecs addr cmd_type c u t.0,
        )
    upload-dispatch len ((others, c) ∷ (others', d) ∷ sends) s o t fits =
        let u = handle_all service bus codecs others s in
        let rest = payloads (chunks_of ((others', d) ∷ sends)) in
        let same = collected-handle_all others s o.0 in
        let count = length-append c.d rest in
        let more : (c.r == 0) ≡ false = ground (arith, t.1) in
        let joined =
          collected-put service bus codecs addr cmd_type c u more
            (omega (arith, count, ap length same)) in
        let before = collected s.handler.buffer_map addr cmd_type in
        let held : collected (put service bus codecs u addr cmd_type c).handler.buffer_map addr
              cmd_type
            ≡ before ++ c.d =
          joined ∙ ap (λ (b : Bytes). b ++ c.d) same in
        let (run, idle) =
          upload-dispatch len ((others', d) ∷ sends) (put service bus codecs u addr cmd_type c) o.1
            t.3 (omega (arith, ap length held, count, length-append before c.d)) in
        (
          upload_more others c ((others', d) ∷ sends) s more
              ∙ run
              ∙ ap
                  (λ (b : Bytes). dispatch service bus codecs cmd_type addr b (
                    after_sends service bus codecs addr cmd_type ((others', d) ∷ sends)
                      (put service bus codecs u addr cmd_type c)))
                  (ap (λ (b : Bytes). b ++ rest) held ∙ append_assoc before c.d rest),
          idle,
        )
