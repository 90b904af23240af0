-- ===== src/Ble/Clients/MobileProp.antt =====
-- src/ble/clients/mobile_prop.rs: the client that watches the adapter's devices and tells the server
-- when one is disconnected. The adapter is `bluer`'s: an interface over its state `A`.
use webcam_direct_linux.Prelude.{
  ◌≡◌, refl, arith, Bool, true, false, List, [], ◌∷◌, ok, err, panic, Exec, Text, on, ◌>>◌,
  Result-cases, inl, inr,
}
use webcam_direct_linux.Ble.Api.{Address, mobile_disconnected}
use webcam_direct_linux.Ble.Requester.{Broadcast}
use webcam_direct_linux.Ble.Requester.Requests.{
  Mailbox, ServerTask, cmd, mailbox, cmd-handle_command,
}
use webcam_direct_linux.Ble.Server.Service.{CommDataService, Codecs}
use webcam_direct_linux.Ble.Server.{System}
use webcam_direct_linux.Ble.Server.Commands.{handle_command-unreadable}
use webcam_direct_linux.Ble.Clients.WriteStream.{Flow, go, stop}

-- `watch` is `adapter.device(addr)?` and `device.events().await?` together: the streams are pushed to
-- the ones that are watched.
pub record Adapter (A : Type 0) : Type 0 where
  pub events : Exec A (Unit {0})
  pub watch : Address → Exec A (Unit {0})
  pub remove_device : Address → Exec A (Unit {0})

pub record MobilePropClient (A M : Type 0) : Type 0 where
  pub all_change_events : List Address
  pub adapter : A
  pub server : M

-- `connected` is the change of a watched device's property; `dropped` is the end of the client.
pub data PropEvent : Type 0 where
  device_added device_removed : Address → PropEvent
  connected : Address → Bool → PropEvent
  other dropped : PropEvent

module _ {A M Rx : Type 0} (adapter : Adapter A) (server_conn : Mailbox M Rx) where
  abbrev pub of_adapter {ℓ} : {B : Type ℓ} → Exec A B → Exec (MobilePropClient A M) B
  of_adapter = on (λ c. c.adapter) (λ a c. record c { adapter = a })

  abbrev pub of_server {ℓ} : {B : Type ℓ} → Exec M B → Exec (MobilePropClient A M) B
  of_server = on (λ c. c.server) (λ m c. record c { server = m })

  -- Errors are only logged; the device is removed only once the server has taken the command.
  unfoldable pub handle_disconnected : Address → Exec (MobilePropClient A M) Flow
  handle_disconnected addr c =
      let (r, t) = of_server (cmd server_conn addr mobile_disconnected []) c in
      elim r [
        | ok u ↦
            let (removed, v) = of_adapter (adapter.remove_device addr) t in
            elim removed [ ok u ↦ (ok go, v) | err e ↦ (ok go, v) | panic ↦ (panic, v) ]
        | err e ↦ (ok go, t)
        | panic ↦ (panic, t)
      ]

  unfoldable pub handle_prop : PropEvent → Exec (MobilePropClient A M) Flow
  handle_prop (device_added addr) = do
    of_adapter (adapter.watch addr)
    (λ c. (ok go, record c { all_change_events = addr ∷ c.all_change_events }))
  handle_prop (device_removed addr) = λ c. (ok go, c)
  handle_prop (connected addr true) = λ c. (ok go, c)
  handle_prop (connected addr false) = handle_disconnected addr
  handle_prop other = λ c. (ok go, c)
  handle_prop dropped = λ c. (ok stop, c)

  unfoldable pub prop_loop : List PropEvent → Exec (MobilePropClient A M) (Unit {0})
  prop_loop [] c = (ok tt, c)
  prop_loop (event ∷ events) c =
      let next = handle_prop event c in
      elim next.0 [
        | ok flow ↦ elim flow [ go ↦ prop_loop events next.1 | stop ↦ (ok tt, next.1) ]
        | err e ↦ (err e, next.1)
        | panic ↦ (panic, next.1)
      ]

  unfoldable pub device_props : List PropEvent → A → Exec M (Unit {0})
  device_props events a m =
      let (r, c) =
        (do of_adapter adapter.events; prop_loop events)
          (record { all_change_events = []; adapter = a; server = m }) in
      (r, c.server)

module _ {A S Tx Rx : Type 0} (service : CommDataService S Tx) (bus : Broadcast S Tx Rx)
    (codecs : Codecs) where
  disconnected_alone :
      (adapter : Adapter A) (e : Text) (addr : Address) (watched : List Address) (a : A)
      (s : System S Tx)
      → codecs.data_chunk.des [] ≡ err e
      → let c : MobilePropClient A (ServerTask S Tx) = record {
        all_change_events = watched;
        adapter = a;
        server = record { alive = true; system = s };
      } in
        handle_disconnected adapter (mailbox service bus codecs) addr c ≡ (ok go, c)
  unfolding handle_disconnected
  disconnected_alone adapter e addr watched a s unreadable =
      let sent =
        cmd-handle_command service bus codecs addr mobile_disconnected [] s s (err e)
          (handle_command-unreadable service bus codecs addr
            (record { cmd_type = mobile_disconnected; payload = [] }) e s unreadable)
          refl in
      ground (arith, sent)

  -- Where no chunk can be read from an empty payload, the client's disconnections do nothing:
  -- after any events, the server is as it was, and the run is the same whatever removing a device
  -- does.
  pub prop_loop-unreadable :
      (adapter : Adapter A) (remove' : Address → Exec A (Unit {0})) (e : Text)
      (events : List PropEvent) (watched : List Address) (a : A) (s : System S Tx)
      → codecs.data_chunk.des [] ≡ err e
      → let c : MobilePropClient A (ServerTask S Tx) = record {
        all_change_events = watched;
        adapter = a;
        server = record { alive = true; system = s };
      } in
        let run = prop_loop adapter (mailbox service bus codecs) events c in
        (run.1.server ≡ c.server)
        × (run
            ≡ prop_loop
                (record adapter { remove_device = remove' })
                (mailbox service bus codecs)
                events
                c)
  unfolding prop_loop handle_prop
  prop_loop-unreadable adapter remove' e [] watched a s unreadable = (refl, refl)
  prop_loop-unreadable adapter remove' e (device_added addr ∷ events) watched a s unreadable =
      elim (Result-cases (adapter.watch addr a).0) [
        | inl (u, ok_watch) ↦
            let next =
              prop_loop-unreadable adapter remove' e events (addr ∷ watched)
                (adapter.watch addr a).1 s unreadable in
            ground (arith, ok_watch, next)
        | inr (inl (f, failed)) ↦ ground (arith, failed)
        | inr (inr failed) ↦ ground (arith, failed)
      ]
  prop_loop-unreadable adapter remove' e (device_removed addr ∷ events) watched a s unreadable =
      prop_loop-unreadable adapter remove' e events watched a s unreadable
  prop_loop-unreadable adapter remove' e (connected addr true ∷ events) watched a s unreadable =
      prop_loop-unreadable adapter remove' e events watched a s unreadable
  prop_loop-unreadable adapter remove' e (connected addr false ∷ events) watched a s unreadable =
      ground (
        arith,
        disconnected_alone adapter e addr watched a s unreadable,
        disconnected_alone (record adapter { remove_device = remove' }) e addr watched a s
            unreadable,
        prop_loop-unreadable adapter remove' e events watched a s unreadable,
      )
  prop_loop-unreadable adapter remove' e (other ∷ events) watched a s unreadable =
      prop_loop-unreadable adapter remove' e events watched a s unreadable
  prop_loop-unreadable adapter remove' e (dropped ∷ events) watched a s unreadable = (refl, refl)
