-- ===== src/Main/Program.antt =====
-- src/main.rs, `main`: the server over the application's data, and the clients that are started with
-- its mailbox. `main` then waits for Ctrl-C.
use webcam_direct_linux.Prelude.{◌≡◌, arith, Text, List, [], ◌∷◌, Option, get_or, ok, Exec, ◌>>=◌}
use webcam_direct_linux.AppData
use webcam_direct_linux.AppData.{HostInfo, host_key}
use webcam_direct_linux.AppData.Schemas.{HostSchema, HostId, host_schema}
use webcam_direct_linux.AppData.KvDb.{KvDbOps}
use webcam_direct_linux.AppData.KvDb.Laws.{IsStore}
use webcam_direct_linux.Ble.MobileComm
use webcam_direct_linux.Ble.MobileComm.{MobileComm, AppDataStore, VDeviceBuilderOps}
use webcam_direct_linux.Ble.Requester.{Broadcast}
use webcam_direct_linux.Ble.Requester.Queue.{Mpsc, Request, Tasks, ble_server}
use webcam_direct_linux.Ble.Server.Service.{Codecs}
use webcam_direct_linux.Ble.Session.{comm_service}
use webcam_direct_linux.Main.{
  Machine, host_info, open_devices, main_start, main_start_lem, fresh_host,
}

-- `impl AppDataStore for AppData`.
abbrev pub app_data_store : {X : Type 0} → KvDbOps X → AppDataStore X
app_data_store data_db = record {
  get_host_prov_info = AppData.get_host_prov_info data_db;
  add_mobile = AppData.add_mobile data_db;
  get_mobile = AppData.get_mobile data_db;
}

-- The tasks that the three clients spawn, with what they are given besides the adapter and the
-- server's mailbox.
pub data ClientTask : Type 0 where
  provisioner_client : Text → ClientTask
  mobile_prop_client : ClientTask
  sdp_exchanger_client : Text → HostId → ClientTask

pub record Program (Q X Tx Rx : Type 0) : Type 0 where
  pub server : Tasks Q (MobileComm X Tx) Tx Rx
  pub clients : List ClientTask

module _ {Q X Tx Rx : Type 0} (machine : Machine X) (disk_db : KvDbOps X)
    (vdev_builder : VDeviceBuilderOps X) (bus : Broadcast X Tx Rx)
    (server_bus : Broadcast (MobileComm X Tx) Tx Rx) (codecs : Codecs) (mpsc : Mpsc Q Request) where
  -- The program up to its wait for Ctrl-C.
  unfoldable pub main : HostId → Exec X (Program Q X Tx Rx)
  main uuid = do
    host_prov_info ← main_start machine disk_db uuid
    (λ x. (
      ok (record {
        server =
            ble_server mpsc
              (comm_service (app_data_store disk_db) vdev_builder bus server_bus codecs) server_bus
              codecs (MobileComm.new x);
        clients =
            provisioner_client host_prov_info.name
            ∷ mobile_prop_client
            ∷ sdp_exchanger_client host_prov_info.name host_prov_info.id
            ∷ [];
      }),
      x,
    ))

  -- The program comes up with a server that nobody has asked anything and no mobile is connected
  -- to, and with clients that announce the name and the identity of the record that the store
  -- holds, whatever the host is called now and whether its access point came up; a host without a
  -- record is announced as it is now. The store keeps its promises, and the calls before it and
  -- the builder of the devices succeed.
  pub main_lem :
      (store : IsStore disk_db) (uuid : HostId) (info : HostInfo) (found : Option HostSchema)
      (x x1 x2 : X)
      → ((y : X) → (machine.new_builder y).0 ≡ ok tt)
      → host_info machine disk_db x ≡ (ok info, x1)
      → open_devices machine disk_db x1 ≡ (ok tt, x2)
      → (disk_db.read host_schema host_key x2).0 ≡ ok found
      → let host = get_or found (fresh_host machine disk_db uuid info) in
        (x' : X) × (main uuid x ≡ (
          ok (record {
            server =
                ble_server mpsc
                  (comm_service (app_data_store disk_db) vdev_builder bus server_bus codecs)
                  server_bus
                  codecs
                  (record { mobiles_connected = []; outside = x' });
            clients =
                provisioner_client host.name
                ∷ mobile_prop_client
                ∷ sdp_exchanger_client host.name host.id
                ∷ [];
          }),
          x',
        ))
  unfolding main MobileComm.new
  main_lem store uuid info found x x1 x2 builds named opened held =
      let known =
        main_start_lem machine disk_db store uuid info found x x1 x2 builds named opened held in
      ((main_start machine disk_db uuid x).1, ground (arith, known))
