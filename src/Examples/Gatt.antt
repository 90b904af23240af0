-- ===== src/Examples/Gatt.antt =====
-- The GATT clients at the server, with a codec of chunks that does not read an empty payload.
use webcam_direct_linux.Prelude.{
  ℕ, ◌≡◌, refl, arith, Bytes, codes, List, [], ◌∷◌, none, some, ok, anyhow, list_key, number_key,
  true, false, Exec,
}
use webcam_direct_linux.HashMap.{get}
use webcam_direct_linux.AppData.Schemas.{MobileSchema}
use webcam_direct_linux.Ble.Api.{Address, register_mobile, sdp_answer_ready}
use webcam_direct_linux.Ble.Buffer.{writer_at, get_cursors}
use webcam_direct_linux.Ble.Buffer.Writer.{collected}
use webcam_direct_linux.Ble.Requester.Requests.{
  Mailbox, ServerTask, ask, subscribe, mailbox, ask-subscribe_small,
}
use webcam_direct_linux.Ble.Server.Service.{Codecs}
use webcam_direct_linux.Ble.Clients.WriteStream.{WriteStream, Client, write}
use webcam_direct_linux.Ble.Clients.SdpExchanger.{
  SdpExchanger, SdpEvent, on_write, notify, sdp_exchanger, sdp_exchanger-notifier,
}
use webcam_direct_linux.Ble.Clients.MobileProp.{
  Adapter, MobilePropClient, PropEvent, device_added, connected, prop_loop, prop_loop-unreadable,
}
use webcam_direct_linux.Examples.World.{log_bus}
use webcam_direct_linux.Examples.Serving.{mobile_a, codecs, echo_service, system, in_call}
use webcam_direct_linux.Examples.Sessions.{mobile_b, of_b}

abbrev task : ServerTask (List Bytes) (Unit {0})
task = record { alive = true; system = in_call }

ask-subscribe_small_example :
    let after =
      (subscribe (mailbox echo_service log_bus codecs) mobile_a sdp_answer_ready 0 task).1 in
    ask echo_service log_bus codecs of_b after ≡ (anyhow "channel closed", after)
ask-subscribe_small_example =
    ask-subscribe_small echo_service log_bus codecs mobile_a sdp_answer_ready 0 in_call of_b
      (omega arith)

-- A record of a mobile in two packets.
abbrev phone : MobileSchema
phone = record { id = 1 ∷ []; name = codes "phone" }

abbrev phone_codecs : Codecs
phone_codecs = record codecs { mobile_schema = record { ser = λ m. ok []; des = λ b. ok phone } }

abbrev packets : List Bytes
packets = (1 ∷ 5 ∷ []) ∷ (0 ∷ 6 ∷ []) ∷ []

nothing_collected : collected system.handler.buffer_map mobile_a register_mobile ≡ []
unfolding writer_at get_cursors get
nothing_collected = refl

-- A mailbox that refuses everything, and counts.
abbrev busy : Mailbox ℕ (Unit {0})
busy = record { ask = λ comm n. (anyhow "busy", 1) }

abbrev idle_stream : WriteStream ℕ
idle_stream = record { current_device_addr = []; read_buf = []; reader_opt = none }

abbrev client : Client ℕ ℕ
client = record { stream = idle_stream; server = 0 }

abbrev write_notifier : ℕ → Bytes → Exec (List ℕ) (Unit {0})
write_notifier n b s = (ok tt, n ∷ s)

abbrev notified : SdpExchanger ℕ ℕ (Unit {0}) ℕ (List ℕ)
notified = record { client = client; notifier_opt = some 4; sub_recv_opt = some tt; bluetooth = [] }

abbrev of_mobiles : List (SdpEvent ℕ ℕ)
of_mobiles = notify mobile_b 20 5 ∷ on_write (write mobile_b 20 (ok 8)) ∷ []

sdp_exchanger-notifier_example :
    let t = (sdp_exchanger busy write_notifier of_mobiles notified).1 in
    (t.notifier_opt ≡ some 4) × (t.bluetooth ≡ [])
sdp_exchanger-notifier_example =
    sdp_exchanger-notifier busy write_notifier of_mobiles 4 notified tt refl

abbrev adapter : Adapter (List Address)
adapter = record {
  events = λ s. (ok tt, s);
  watch = λ addr s. (ok tt, s);
  remove_device = λ addr s. (ok tt, addr ∷ s);
}

abbrev stuck : Address → Exec (List Address) (Unit {0})
stuck addr s = (anyhow "not removed", s)

abbrev leaving : List PropEvent
leaving = device_added mobile_a ∷ connected mobile_a false ∷ []

abbrev watching : MobilePropClient (List Address) (ServerTask (List Bytes) (Unit {0}))
watching = record {
  all_change_events = [];
  adapter = [];
  server = record { alive = true; system = in_call };
}

prop_loop-unreadable_example :
    let run = prop_loop adapter (mailbox echo_service log_bus codecs) leaving watching in
    (run.1.server ≡ watching.server)
    × (run
        ≡ prop_loop
            (record adapter { remove_device = stuck })
            (mailbox echo_service log_bus codecs)
            leaving
            watching)
prop_loop-unreadable_example =
    prop_loop-unreadable echo_service log_bus codecs adapter stuck (codes "no chunk") leaving [] []
      in_call refl
