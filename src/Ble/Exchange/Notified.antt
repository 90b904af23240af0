-- ===== src/Ble/Exchange/Notified.antt =====
-- The loop of src/ble/clients/sdp_exchanger.rs over a mobile's packets and over what is received from
-- the server.
use webcam_direct_linux.Prelude.{
  ℕ, ◌≡◌, ◌∙◌, refl, arith, none, Bytes, List, [], ◌∷◌, ◌++◌, map, some, ok, err, panic, Exec, pure,
  ◌>>◌,
}
use webcam_direct_linux.Ble.Api.{Address, sdp_offer, sdp_answer_ready}
use webcam_direct_linux.Ble.Requester.Requests.{Mailbox, subscribe}
use webcam_direct_linux.Ble.Clients.WriteStream.{
  Client, WriteEvent, write, read, lost, other, dropped, handle_write, accept_write, take_read,
  write_loop,
}
use webcam_direct_linux.Ble.Clients.SdpExchanger.{
  SdpExchanger, SdpEvent, on_write, notify, received, handle_event, accept_notify, forward,
  sdp_exchanger,
}

-- Events of the write stream while the client is kept.
abbrev pub IsKept : {Reader : Type 0} → List (WriteEvent Reader) → Type 0
IsKept [] = Unit {0}
IsKept (dropped ∷ events) = ⊥
IsKept (write addr mtu accepted ∷ events) = IsKept events
IsKept (read outcome ∷ events) = IsKept events
IsKept (lost bytes ∷ events) = IsKept events
IsKept (other ∷ events) = IsKept events

-- What is received, message by message.
abbrev pub all_received : {Reader Notifier : Type 0} → List Bytes → List (SdpEvent Reader Notifier)
all_received messages = map (λ m. received (ok m)) messages

-- Each message is written to the notifier, in order.
abbrev pub notify_all :
    {Notifier B : Type 0}
    → (Notifier → Bytes → Exec B (Unit {0}))
    → Notifier
    → List Bytes
    → Exec B (Unit {0})
notify_all write_notifier n [] = pure tt
notify_all write_notifier n (m ∷ messages) = do
  write_notifier n m
  notify_all write_notifier n messages

module _ {Reader Notifier M Rx B : Type 0} (server_conn : Mailbox M Rx)
    (write_notifier : Notifier → Bytes → Exec B (Unit {0})) where
  -- The state behind a write.
  abbrev after_write :
      WriteEvent Reader → SdpExchanger Reader Notifier Rx M B → SdpExchanger Reader Notifier Rx M B
  after_write event s = record s { client = (handle_write server_conn sdp_offer event s.client).1 }

  -- The writes of a mobile are the writing half's, and the loop goes on behind them.
  sdp_exchanger_writes :
      (events : List (WriteEvent Reader)) (rest : List (SdpEvent Reader Notifier))
      (s : SdpExchanger Reader Notifier Rx M B) (c : Client Reader M)
      → IsKept events
      → write_loop server_conn sdp_offer events s.client ≡ (ok tt, c)
      → sdp_exchanger server_conn write_notifier (map on_write events ++ rest) s
        ≡ sdp_exchanger server_conn write_notifier rest (record s { client = c })
  unfolding sdp_exchanger handle_event write_loop handle_write accept_write take_read
  sdp_exchanger_writes [] rest s c k e = ground arith
  sdp_exchanger_writes (write addr mtu (ok reader) ∷ events) rest s c k e =
      sdp_exchanger_writes events rest (after_write (write addr mtu (ok reader)) s) c k e
  sdp_exchanger_writes (write addr mtu (err m) ∷ events) rest s c k e = ground arith
  sdp_exchanger_writes (write addr mtu panic ∷ events) rest s c k e = ground arith
  sdp_exchanger_writes (read (ok []) ∷ events) rest s c k e =
      sdp_exchanger_writes events rest (after_write (read (ok [])) s) c k e
  sdp_exchanger_writes (read (ok (b ∷ bytes)) ∷ events) rest s c k e =
      sdp_exchanger_writes events rest (after_write (read (ok (b ∷ bytes))) s) c k e
  sdp_exchanger_writes (read (err m) ∷ events) rest s c k e =
      sdp_exchanger_writes events rest (after_write (read (err m)) s) c k e
  sdp_exchanger_writes (read panic ∷ events) rest s c k e = ground arith
  sdp_exchanger_writes (lost bytes ∷ events) rest s c k e =
      sdp_exchanger_writes events rest (after_write (lost bytes) s) c k e
  sdp_exchanger_writes (other ∷ events) rest s c k e = sdp_exchanger_writes events rest s c k e
  sdp_exchanger_writes (dropped ∷ events) rest s c k e = absurd k

  sdp_exchanger_received :
      (messages : List Bytes) (n : Notifier) (s : SdpExchanger Reader Notifier Rx M B) (b : B)
      → s.notifier_opt ≡ some n
      → notify_all write_notifier n messages s.bluetooth ≡ (ok tt, b)
      → sdp_exchanger server_conn write_notifier (all_received messages) s
        ≡ (ok tt, record s { bluetooth = b })
  unfolding sdp_exchanger handle_event forward
  sdp_exchanger_received [] n s b k e = ground arith
  sdp_exchanger_received (m ∷ messages) n s b k e =
      let t : SdpExchanger Reader Notifier Rx M B = record s {
        bluetooth = (write_notifier n m s.bluetooth).1;
      } in
      ground (arith, k, e, sdp_exchanger_received messages n t b k)

  sdp_exchanger_notify :
      (addr : Address) (mtu : ℕ) (n : Notifier) (rest : List (SdpEvent Reader Notifier))
      (s : SdpExchanger Reader Notifier Rx M B) (rx : Rx) (m : M)
      → s.notifier_opt ≡ none
      → s.sub_recv_opt ≡ none
      → subscribe server_conn addr sdp_answer_ready mtu s.client.server ≡ (ok rx, m)
      → sdp_exchanger server_conn write_notifier (notify addr mtu n ∷ rest) s
        ≡ sdp_exchanger server_conn write_notifier rest (record {
          client = record s.client { server = m };
          notifier_opt = some n;
          sub_recv_opt = some rx;
          bluetooth = s.bluetooth;
        })
  unfolding sdp_exchanger handle_event accept_notify
  sdp_exchanger_notify addr mtu n rest s rx m nobody nothing e = ground (arith, nobody, nothing, e)

  -- The first mobile that asks to be notified writes, and is notified of what is received.
  pub sdp_exchanger_run :
      (addr : Address) (mtu : ℕ) (n : Notifier) (events : List (WriteEvent Reader))
      (messages : List Bytes) (s : SdpExchanger Reader Notifier Rx M B) (rx : Rx) (m : M)
      (c : Client Reader M) (b : B)
      → s.notifier_opt ≡ none
      → s.sub_recv_opt ≡ none
      → subscribe server_conn addr sdp_answer_ready mtu s.client.server ≡ (ok rx, m)
      → IsKept events
      → write_loop server_conn sdp_offer events (record s.client { server = m }) ≡ (ok tt, c)
      → notify_all write_notifier n messages s.bluetooth ≡ (ok tt, b)
      → sdp_exchanger server_conn write_notifier
          (notify addr mtu n ∷ (map on_write events ++ all_received messages))
          s
        ≡ (
          ok tt,
          record { client = c; notifier_opt = some n; sub_recv_opt = some rx; bluetooth = b },
        )
  sdp_exchanger_run addr mtu n events messages s rx m c b nobody nothing e kept written told =
      let t : SdpExchanger Reader Notifier Rx M B = record {
        client = record s.client { server = m };
        notifier_opt = some n;
        sub_recv_opt = some rx;
        bluetooth = s.bluetooth;
      } in
      sdp_exchanger_notify addr mtu n (map on_write events ++ all_received messages) s rx m nobody
        nothing e
      ∙ sdp_exchanger_writes events (all_received messages) t c kept written
      ∙ sdp_exchanger_received messages n (record t { client = c }) b refl told
