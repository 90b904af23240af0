-- ===== src/Examples/Starting.antt =====
-- A start of the program on a host that has a record, as a host whose access point is up.
use webcam_direct_linux.Prelude.{◌≡◌, refl, codes, false, some, ok, anyhow, [], ◌∷◌}
use webcam_direct_linux.AppData.{HostInfo}
use webcam_direct_linux.AppData.Schemas.{wlan}
use webcam_direct_linux.Main.{Machine, host_info, open_devices}
use webcam_direct_linux.Main.Program.{
  provisioner_client, mobile_prop_client, sdp_exchanger_client, app_data_store, main, main_lem,
}
use webcam_direct_linux.Ble.MobileComm.{VDeviceBuilderOps}
use webcam_direct_linux.Ble.Requester.{Broadcast}
use webcam_direct_linux.Ble.Requester.Queue.{ble_server}
use webcam_direct_linux.Ble.Session.{comm_service}
use webcam_direct_linux.Examples.Serving.{codecs}
use webcam_direct_linux.Examples.Tasks.{two_places}
use webcam_direct_linux.Examples.Encoding.{Disk}
use webcam_direct_linux.Examples.Storing.{db, db-IsStore, host, host_disk, has_host}

-- The host has another name now, and its access point did not come up.
abbrev machine : Machine Disk
machine = record {
  get_hostname = λ x. (ok (some (codes "other")), x);
  setup_access_point = λ x. (false, x);
  new_session = λ x. (ok tt, x);
  default_adapter = λ x. (ok tt, x);
  set_powered = λ on x. (ok tt, x);
  open_from = λ path x. (ok tt, x);
  new_builder = λ x. (ok tt, x);
}

abbrev present : HostInfo
present = record { name = codes "other"; connection_type = wlan }

named : host_info machine db host_disk ≡ (ok present, host_disk)
unfolding host_info
named = refl

opened : open_devices machine db host_disk ≡ (ok tt, host_disk)
unfolding open_devices
opened = refl

-- Nothing of the devices and the channels is used before a mobile asks.
abbrev pub no_devices : VDeviceBuilderOps Disk
no_devices = record { create_from = λ name offer x. (ok [], x); drop_vdevices = λ old x. x }

abbrev pub silent_bus : {S : Type 0} → Broadcast S (Unit {0}) (Unit {0})
silent_bus = record {
  channel = λ s. (ok tt, s);
  send = λ tx b s. (ok tt, s);
  subscribe = λ tx s. (ok tt, s);
  recv = λ rx s. (anyhow "closed", s);
}

main_lem_example :
    (x' : Disk) × (main machine db no_devices silent_bus silent_bus codecs two_places
        (9 ∷ [])
        host_disk
      ≡ (
        ok (record {
          server =
              ble_server two_places
                (comm_service (app_data_store db) no_devices silent_bus silent_bus codecs)
                silent_bus
                codecs
                (record { mobiles_connected = []; outside = x' });
          clients =
              provisioner_client (codes "host")
              ∷ mobile_prop_client
              ∷ sdp_exchanger_client (codes "host") (5 ∷ [])
              ∷ [];
        }),
        x',
      ))
main_lem_example =
    main_lem machine db no_devices silent_bus silent_bus codecs two_places db-IsStore (9 ∷ [])
      present (some host) host_disk host_disk host_disk (λ y. refl) named opened has_host
