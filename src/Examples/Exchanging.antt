-- ===== src/Examples/Exchanging.antt =====
-- A call of a registered mobile over the characteristic of the exchanger.
use webcam_direct_linux.Prelude.{
  ℕ, ◌≡◌, refl, arith, Bytes, List, [], ◌∷◌, none, some, ok, Exec, list_key, number_key,
}
use webcam_direct_linux.HashMap.{get, insert}
use webcam_direct_linux.Ble.Api.{sdp_answer_ready, sdp_offer, sdp_answer, topic_key}
use webcam_direct_linux.Ble.CommTypes.{DataChunk}
use webcam_direct_linux.Ble.Buffer.{reader_at, writer_at, get_cursors}
use webcam_direct_linux.Ble.Buffer.Reader.{payloads}
use webcam_direct_linux.Ble.Buffer.ReadAll.{IsTransfer}
use webcam_direct_linux.Ble.Buffer.Writer.{collected}
use webcam_direct_linux.Ble.Requester.{new_publisher, get_subscriber}
use webcam_direct_linux.Ble.Requester.Requests.{ServerTask, ask, mailbox, subscribe}
use webcam_direct_linux.Ble.Server.{System, handle_comm, handle_sub}
use webcam_direct_linux.Ble.MobileComm.{MobileComm, sub_to_ready_answer}
use webcam_direct_linux.Ble.Session.{comm_service}
use webcam_direct_linux.Ble.Clients.SdpExchanger.{sdp_exchanger}
use webcam_direct_linux.Ble.Exchange.{
  running, exchanger, call_events, read_value, sdp_exchanger-call,
}
use webcam_direct_linux.Examples.World.{
  chunk_codec, chunk_codec-ReadsBack, chunk_codec-AlwaysWrites, log_bus,
}
use webcam_direct_linux.Examples.Calling.{
  store, builder, publisher, subscribed, offer, devices, phone, is_connected, ready_sent,
}
use webcam_direct_linux.Examples.Serving.{mobile_a, fresh}
use webcam_direct_linux.Examples.Sessions.{call_codecs, quiet_bus, calling, offered}

abbrev Server : Type 0
Server = System (MobileComm (List Bytes) (Unit {0})) (Unit {0})

-- Before and after the mobile asks to be notified.
abbrev before : Server
before = record { handler = fresh; outside = record { mobiles_connected = []; outside = [] } }

abbrev after : Server
after = record calling {
  handler = record fresh { pubsub_topics_map = (sdp_answer_ready, publisher) ∷ [] };
}

asks_to_be_notified :
    subscribe
      (mailbox (comm_service store builder log_bus quiet_bus call_codecs) quiet_bus call_codecs)
      mobile_a
      sdp_answer_ready
      5
      (running before)
    ≡ (ok tt, running after)
unfolding subscribe ask handle_comm handle_sub new_publisher get_subscriber get insert
    sub_to_ready_answer
asks_to_be_notified = refl

abbrev packets : List Bytes
packets = (1 ∷ 5 ∷ []) ∷ (0 ∷ 6 ∷ []) ∷ []

-- What was published, as it is received.
abbrev ready_messages : List Bytes
ready_messages = (0 ∷ 1 ∷ []) ∷ []

abbrev write_notifier : ℕ → Bytes → Exec (List Bytes) (Unit {0})
write_notifier n message b = (ok tt, message ∷ b)

no_writer : collected after.handler.buffer_map mobile_a sdp_offer ≡ []
unfolding writer_at get_cursors get
no_writer = refl

no_answer : get after.handler.server_data_cache.sdp_answer mobile_a ≡ none
unfolding get
no_answer = refl

no_reader : reader_at after.handler.buffer_map mobile_a sdp_answer ≡ none
unfolding reader_at get_cursors get
no_reader = refl

sdp_exchanger-call_example :
    let conn =
      mailbox (comm_service store builder log_bus quiet_bus call_codecs) quiet_bus call_codecs in
    let run =
      sdp_exchanger {Reader = ℕ} conn write_notifier
        (call_events store builder log_bus quiet_bus call_codecs write_notifier mobile_a 5 20 7 0
          packets ready_messages)
        (exchanger store builder log_bus quiet_bus call_codecs write_notifier [] before) in
    (run.0 ≡ ok tt)
    × (run.1.notifier_opt ≡ some 7)
    × (run.1.bluetooth ≡ ready_messages)
    × ((out : List DataChunk) × (t : ServerTask (MobileComm (List Bytes) (Unit {0})) (Unit {0}))
        × (read_value conn chunk_codec 3 mobile_a 9 run.1.client.server ≡ (ok out, t))
        × (payloads out ≡ 4 ∷ 2 ∷ [])
        × IsTransfer 1 out)
sdp_exchanger-call_example =
    sdp_exchanger-call {Reader = ℕ} store builder log_bus quiet_bus call_codecs write_notifier
      chunk_codec-ReadsBack chunk_codec-AlwaysWrites mobile_a 5 20 9 1 1 7 0 packets ready_messages
      offered (5 ∷ 6 ∷ []) (4 ∷ 2 ∷ []) (1 ∷ []) offer [] ready_messages tt before after phone
      subscribed publisher devices [] [] ready_messages asks_to_be_notified (refl, (refl, tt))
      (omega arith, (omega arith, tt)) (refl, omega arith, omega arith, (refl, omega arith)) refl
      (omega arith) refl no_writer refl is_connected refl refl refl ready_sent refl refl no_answer
      no_reader refl (omega arith) (omega arith) (omega arith)
