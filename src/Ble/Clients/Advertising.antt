-- ===== src/Ble/Clients/Advertising.antt =====
-- The starts of src/ble/clients/provisioner.rs and src/ble/clients/sdp_exchanger.rs, before their
-- loops, with the identifiers of src/ble/clients/gatt_uuids.rs: what is advertised and served.
-- `bluer` and `Uuid::parse_str` are not part of the repository: an interface over the state `B`.
use webcam_direct_linux.Prelude.{
  ℕ, ◌≡◌, arith, Text, Bytes, Bool, true, false, List, none, Result, ok, err, panic, Exec, lift, on,
  ◌>>=◌, ◌>>◌,
}
use webcam_direct_linux.Ble.Requester.Requests.{Mailbox}
use webcam_direct_linux.Ble.Clients.WriteStream.{WriteEvent, new_stream}
use webcam_direct_linux.Ble.Clients.Provisioner.{provisioner}
use webcam_direct_linux.Ble.Clients.SdpExchanger.{SdpExchanger, SdpEvent, sdp_exchanger}

-- A `u128`.
abbrev pub Uuid : Type 0
Uuid = ℕ

abbrev pub serv_prov_info_uuid : Uuid
serv_prov_info_uuid = 24330348010264921562669630495173050613

abbrev pub char_prov_info_uuid : Uuid
char_prov_info_uuid = 24330348089493084076933968088717000949

abbrev pub char_pnp_exchange_sdp_uuid : Uuid
char_pnp_exchange_sdp_uuid = 24330348168721246591198305682260951285

pub record Advertisement : Type 0 where
  pub service_uuid : Uuid
  pub discoverable : Bool
  pub local_name : Text

-- A primary service of one characteristic, with what can be done with it; writing and notifying go
-- through streams (`Io`).
pub record Application : Type 0 where
  pub service : Uuid
  pub characteristic : Uuid
  pub write : Bool
  pub notify : Bool
  pub read : Bool

pub record Gatt (B : Type 0) : Type 0 where
  pub address : Exec B (Unit {0})
  pub advertise : Advertisement → Exec B (Unit {0})
  pub serve_gatt_application : Application → Exec B (Unit {0})

module _ {B : Type 0} (gatt : Gatt B) where
  unfoldable pub start_provisioner : Text → Exec B (Unit {0})
  start_provisioner host_name = do
    gatt.address
    gatt.advertise
        (record { service_uuid = serv_prov_info_uuid; discoverable = true; local_name = host_name })
    gatt.serve_gatt_application (record {
      service = serv_prov_info_uuid;
      characteristic = char_prov_info_uuid;
      write = true;
      notify = false;
      read = true;
    })

  unfoldable pub start_sdp_exchanger : (Text → Result Uuid) → Text → Text → Exec B (Unit {0})
  start_sdp_exchanger parse_str host_name host_id = do
    gatt.address
    id ← lift (parse_str host_id)
    gatt.advertise (record { service_uuid = id; discoverable = true; local_name = host_name })
    gatt.serve_gatt_application (record {
      service = id;
      characteristic = char_pnp_exchange_sdp_uuid;
      write = true;
      notify = true;
      read = true;
    })

module _ {B M Rx Reader : Type 0} (gatt : Gatt B) (server_conn : Mailbox M Rx) where
  unfoldable pub provisioner_client : Text → List (WriteEvent Reader) → Exec (B × M) (Unit {0})
  provisioner_client host_name events = do
    on (λ s. s.0) (λ b s. (b, s.1)) (start_provisioner gatt host_name)
    on (λ s. s.1) (λ m s. (s.0, m)) (provisioner server_conn {Reader = Reader} events)

module _ {B M Rx Reader Notifier : Type 0} (gatt : Gatt B) (server_conn : Mailbox M Rx) where
  -- The loop starts with nobody to notify.
  unfoldable pub sdp_exchanger_client :
      (Text → Result Uuid)
      → (Notifier → Bytes → Exec B (Unit {0}))
      → Text
      → Text
      → List (SdpEvent Reader Notifier)
      → B
      → M
      → Result (Unit {0}) × SdpExchanger Reader Notifier Rx M B
  sdp_exchanger_client parse_str write_notifier host_name host_id events b m =
      let (r, b') = start_sdp_exchanger gatt parse_str host_name host_id b in
      let start : SdpExchanger Reader Notifier Rx M B = record {
        client = record { stream = new_stream; server = m };
        notifier_opt = none;
        sub_recv_opt = none;
        bluetooth = b';
      } in
      elim r [
        | ok u ↦ sdp_exchanger server_conn write_notifier events start
        | err e ↦ (err e, start)
        | panic ↦ (panic, start)
      ]

  -- A host whose identity is no UUID gets as far as the adapter's address: nothing is advertised or
  -- served, and no event of a mobile reaches the server.
  pub sdp_exchanger_client-unparsed :
      (parse_str : Text → Result Uuid) (write_notifier : Notifier → Bytes → Exec B (Unit {0}))
      (host_name host_id e : Text) (events : List (SdpEvent Reader Notifier)) (b b' : B) (m : M)
      → gatt.address b ≡ (ok tt, b')
      → parse_str host_id ≡ err e
      → let (r, s) = sdp_exchanger_client parse_str write_notifier host_name host_id events b m in
        (r ≡ err e) × (s.bluetooth ≡ b') × (s.client.server ≡ m)
  unfolding sdp_exchanger_client start_sdp_exchanger
  sdp_exchanger_client-unparsed parse_str write_notifier host_name host_id e events b b' m known
        unparsed =
      ground (arith, known, unparsed)
