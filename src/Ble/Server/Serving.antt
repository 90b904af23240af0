-- ===== src/Ble/Server/Serving.antt =====
-- The requests that come to the server (src/ble/server/mod.rs) one after the other: at the handler
-- itself, and at the task that receives them.
use webcam_direct_linux.Prelude.{
  ◌+◌, ◌-◌, ◌<◌, ◌≡◌, ◌∙◌, refl, ap, arith, true, false, Bytes, length, List, [], ◌∷◌, ok, anyhow,
  leb, if◌then◌else◌, usize_bound,
}
use webcam_direct_linux.Ble.Api.{Address, QueryReq, BleComm}
use webcam_direct_linux.Ble.Buffer.Reader.{remaining, expected_chunk}
use webcam_direct_linux.Ble.Requester.{Broadcast}
use webcam_direct_linux.Ble.Requester.Requests.{ServerTask, ask, reply_panicked}
use webcam_direct_linux.Ble.Server.Service.{CommDataService, Codecs}
use webcam_direct_linux.Ble.Server.{System, fetch, handle_query, handle_comm, new}
use webcam_direct_linux.Ble.Server.Held.{IsInStep}
use webcam_direct_linux.Ble.Server.InStep.{handle_comm-IsInStep, handle_query_lem, new-IsInStep}

-- The task before any request has panicked.
abbrev pub running : {S Tx : Type 0} → System S Tx → ServerTask S Tx
running s = record { alive = true; system = s }

module _ {S Tx Rx : Type 0} (service : CommDataService S Tx) (bus : Broadcast S Tx Rx)
    (codecs : Codecs) where
  -- The handler's `handle_comm` called once for each request, whatever comes of it.
  unfoldable pub handle_all : List BleComm → System S Tx → System S Tx
  handle_all [] s = s
  handle_all (comm ∷ comms) s = handle_all comms (handle_comm service bus codecs comm s).1

  handle_all-IsInStep :
      (comms : List BleComm) (s : System S Tx)
      → IsInStep s.handler
      → IsInStep (handle_all comms s).handler
  unfolding handle_all
  handle_all-IsInStep [] s v = v
  handle_all-IsInStep (comm ∷ comms) s v =
      handle_all-IsInStep comms (handle_comm service bus codecs comm s).1
        (handle_comm-IsInStep service bus codecs comm s v)

  -- The requests at the task of `BleServer::new`, which a panic ends: the later ones are not handled.
  unfoldable pub serve : List BleComm → ServerTask S Tx → ServerTask S Tx
  serve [] task = task
  serve (comm ∷ comms) task = serve comms (ask service bus codecs comm task).1

  -- No request of some panics.
  abbrev pub Quiet : List BleComm → System S Tx → Type 0
  Quiet [] s = Unit {0}
  Quiet (comm ∷ comms) s =
      let (reply, t) = handle_comm service bus codecs comm s in
      (reply_panicked reply ≡ false) × Quiet comms t

  ask_quiet :
      (comm : BleComm) (s : System S Tx)
      → reply_panicked (handle_comm service bus codecs comm s).0 ≡ false
      → (ask service bus codecs comm (running s)).1
        ≡ running (handle_comm service bus codecs comm s).1
  unfolding ask
  ask_quiet comm s quiet = ground arith

  -- While none panics, the task handles them all.
  pub serve-handle_all :
      (comms : List BleComm) (s : System S Tx)
      → Quiet comms s
      → serve comms (running s) ≡ running (handle_all comms s)
  unfolding serve handle_all
  serve-handle_all [] s quiet = refl
  serve-handle_all (comm ∷ comms) s (one, rest) =
      ap (serve comms) (ask_quiet comm s one)
      ∙ serve-handle_all comms (handle_comm service bus codecs comm s).1 rest

  -- The state after some requests to a server that was just made.
  abbrev pub after_requests : List BleComm → S → System S Tx
  after_requests comms outside =
      handle_all comms (record { handler = new codecs.data_chunk; outside = outside })

  -- After any requests to a server that was just made, by any mobiles and with any results, a
  -- query whose data is at hand does not panic: it is refused if the response buffer has no room,
  -- and is answered with the next chunk of the data otherwise. The lengths stay within usize.
  pub handle_query-handle_all :
      (comms : List BleComm) (outside : S) (addr : Address) (q : QueryReq) (d : Bytes)
      → (fetch service bus codecs q.query_type addr (after_requests comms outside)).0 ≡ ok d
      → length d + q.resp_buffer_len < usize_bound
      → let m = (after_requests comms outside).handler.buffer_map in
        (handle_query service bus codecs addr q (after_requests comms outside)).0 ≡ (
          if leb q.resp_buffer_len m.chunk_len
          then anyhow "Response buffer length too small"
          else codecs.data_chunk.ser (
              expected_chunk (q.resp_buffer_len - m.chunk_len) (remaining m addr q.query_type d) d))
  handle_query-handle_all comms outside addr q d e bound =
      let s0 : System S Tx = record { handler = new codecs.data_chunk; outside = outside } in
      handle_query_lem service bus codecs addr q (handle_all comms s0) d
        (handle_all-IsInStep comms s0 (new-IsInStep codecs.data_chunk)) e bound
