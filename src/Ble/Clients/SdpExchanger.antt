-- ===== src/Ble/Clients/SdpExchanger.antt =====
-- src/ble/clients/sdp_exchanger.rs: the characteristic through which a mobile writes its offer, is
-- told that the answer is ready, and reads it. Advertising and serving it are `bluer`'s, and so is
-- writing to a notifier: an interface over the state `B`.
use webcam_direct_linux.Prelude.{
  ℕ, ◌≡◌, refl, arith, Bytes, List, [], ◌∷◌, Option, none, some, Result, ok, err, panic, Exec, lift,
  ◌>>=◌, checked_sub,
}
use webcam_direct_linux.Ble.Api.{Address, CommBuffer, sdp_offer, sdp_answer, sdp_answer_ready}
use webcam_direct_linux.Ble.Requester.Requests.{Mailbox, query, subscribe}
use webcam_direct_linux.Ble.Clients.WriteStream.{Client, WriteEvent, Flow, go, stop, handle_write}
use webcam_direct_linux.Ble.Clients.Provisioner.{or_nothing}

pub record SdpExchanger (Reader Notifier Rx M B : Type 0) : Type 0 where
  pub client : Client Reader M
  pub notifier_opt : Option Notifier
  pub sub_recv_opt : Option Rx
  pub bluetooth : B

-- `notify` is a request to be notified, with the MTU; `received` is what waiting for the subscribed
-- data gives.
pub data SdpEvent (Reader Notifier : Type 0) : Type 0 where
  on_write : WriteEvent Reader → SdpEvent Reader Notifier
  notify : Address → ℕ → Notifier → SdpEvent Reader Notifier
  received : Result Bytes → SdpEvent Reader Notifier

abbrev pub mtu_metadata_overhead : ℕ
mtu_metadata_overhead = 7

-- `if x.is_none() { x = Some(y) }`.
abbrev pub or_set {ℓ} : {A : Type ℓ} → Option A → A → Option A
or_set none a = some a
or_set (some a) b = some a

module _ {M Rx : Type 0} (server_conn : Mailbox M Rx) where
  unfoldable pub read_sdp_answer : Address → ℕ → Exec M CommBuffer
  read_sdp_answer device_address mtu m =
      let (r, m') =
        (do
          len ← lift (checked_sub mtu mtu_metadata_overhead)
          query server_conn device_address sdp_answer len)
          m in
      (or_nothing r, m')

module _ {Reader Notifier Rx M B : Type 0} (server_conn : Mailbox M Rx)
    (write_notifier : Notifier → Bytes → Exec B (Unit {0})) where
  -- The first notifier and the first subscription are kept.
  unfoldable pub accept_notify :
      Address → ℕ → Notifier → Exec (SdpExchanger Reader Notifier Rx M B) Flow
  accept_notify addr mtu notifier s =
      let (r, m) = subscribe server_conn addr sdp_answer_ready mtu s.client.server in
      let t : SdpExchanger Reader Notifier Rx M B = record s {
        client = record s.client { server = m };
      } in
      elim r [
        | ok subscriber ↦ (
          ok go,
          record t {
            notifier_opt = or_set s.notifier_opt notifier;
            sub_recv_opt = or_set s.sub_recv_opt subscriber;
          },
        )
        | err e ↦ (ok go, t)
        | panic ↦ (panic, t)
      ]

  -- A notifier that cannot be written to is given up.
  unfoldable pub forward : Result Bytes → Exec (SdpExchanger Reader Notifier Rx M B) Flow
  forward (ok bytes) s = elim s.notifier_opt [
    | none ↦ (ok go, s)
    | some notifier ↦
        let (r, b) = write_notifier notifier bytes s.bluetooth in
        elim r [
          | ok u ↦ (ok go, record s { bluetooth = b })
          | err e ↦ (ok go, record s { bluetooth = b; notifier_opt = none })
          | panic ↦ (panic, record s { bluetooth = b })
        ]
  ]
  forward (err e) s = (ok go, s)
  forward panic s = (panic, s)

  unfoldable pub handle_event :
      SdpEvent Reader Notifier → Exec (SdpExchanger Reader Notifier Rx M B) Flow
  handle_event (on_write event) s =
      let (r, c) = handle_write server_conn sdp_offer event s.client in (r, record s { client = c })
  handle_event (notify addr mtu notifier) s = accept_notify addr mtu notifier s
  handle_event (received outcome) s = forward outcome s

  -- The loop over the events, up to the first that ends it.
  unfoldable pub sdp_exchanger :
      List (SdpEvent Reader Notifier) → Exec (SdpExchanger Reader Notifier Rx M B) (Unit {0})
  sdp_exchanger [] s = (ok tt, s)
  sdp_exchanger (event ∷ events) s =
      let next = handle_event event s in
      elim next.0 [
        | ok flow ↦ elim flow [ go ↦ sdp_exchanger events next.1 | stop ↦ (ok tt, next.1) ]
        | err e ↦ (err e, next.1)
        | panic ↦ (panic, next.1)
      ]

  -- Events of the mobiles: writes, and requests to be notified.
  abbrev pub OfMobiles : List (SdpEvent Reader Notifier) → Type 0
  OfMobiles [] = Unit {0}
  OfMobiles (on_write event ∷ events) = OfMobiles events
  OfMobiles (notify addr mtu notifier ∷ events) = OfMobiles events
  OfMobiles (received outcome ∷ events) = ⊥

  accept_notify_keeps :
      (addr : Address) (mtu : ℕ) (notifier n : Notifier) (s : SdpExchanger Reader Notifier Rx M B)
      → s.notifier_opt ≡ some n
      → ((accept_notify addr mtu notifier s).1.notifier_opt ≡ some n)
        × ((accept_notify addr mtu notifier s).1.bluetooth ≡ s.bluetooth)
  unfolding accept_notify
  accept_notify_keeps addr mtu notifier n s e = ground arith

  -- Whatever the mobiles write and whoever asks to be notified, the mobile that asked first stays
  -- the only one that is notified, and nothing is written to any, until something is received from
  -- the server.
  pub sdp_exchanger-notifier :
      (events : List (SdpEvent Reader Notifier)) (n : Notifier)
      (s : SdpExchanger Reader Notifier Rx M B)
      → OfMobiles events
      → s.notifier_opt ≡ some n
      → let t = (sdp_exchanger events s).1 in
        (t.notifier_opt ≡ some n) × (t.bluetooth ≡ s.bluetooth)
  unfolding sdp_exchanger handle_event
  sdp_exchanger-notifier [] n s o e = (e, refl)
  sdp_exchanger-notifier (on_write event ∷ events) n s o e =
      let t : SdpExchanger Reader Notifier Rx M B = record s {
        client = (handle_write server_conn sdp_offer event s.client).1;
      } in
      ground (arith, sdp_exchanger-notifier events n t o e)
  sdp_exchanger-notifier (notify addr mtu notifier ∷ events) n s o e =
      let t = (accept_notify addr mtu notifier s).1 in
      let k = accept_notify_keeps addr mtu notifier n s e in
      ground (arith, k, sdp_exchanger-notifier events n t o k.0)
  sdp_exchanger-notifier (received outcome ∷ events) n s o e = elim o [ ]
