-- ===== src/Main.antt =====
-- src/main.rs, `main` up to the start of the tasks: what the host is called, how it is connected, and
-- under which name and identity it is announced. What is outside is an interface over the state `X`.
pub mod Program
pub mod Registration
use webcam_direct_linux.Prelude.{
  ◌≡◌, arith, Text, codes, Bool, true, Option, none, some, get_or, [], ok, Exec, pure, ◌>>=◌, ◌>>◌,
  if◌then◌else◌,
}
use webcam_direct_linux.AppData
use webcam_direct_linux.AppData.{HostInfo, host_key, get_host_prov_info}
use webcam_direct_linux.AppData.Schemas.{
  HostSchema, HostId, ConnectionType, wlan, host_schema, is_wlan,
}
use webcam_direct_linux.AppData.KvDb.{KvDbOps}
use webcam_direct_linux.AppData.KvDb.Laws.{IsStore}
use webcam_direct_linux.Ble.CommTypes.{HostProvInfo}

-- `get_hostname` is none where the name is not Unicode; `setup_access_point` tells whether it
-- succeeded; `new_builder` is `VDeviceBuilder::new`.
pub record Machine (X : Type 0) : Type 0 where
  pub get_hostname : Exec X (Option Text)
  pub setup_access_point : X → Bool × X
  pub new_session : Exec X (Unit {0})
  pub default_adapter : Exec X (Unit {0})
  pub set_powered : Bool → Exec X (Unit {0})
  pub open_from : Text → Exec X (Unit {0})
  pub new_builder : Exec X (Unit {0})

module _ {X : Type 0} (machine : Machine X) (disk_db : KvDbOps X) where
  unfoldable pub host_info : Exec X HostInfo
  host_info = do
    host_name ← machine.get_hostname
    (λ x.
        let (is_ok, x') = machine.setup_access_point x in
        (
          ok (record {
            name = get_or host_name (codes "MyPC");
            connection_type = if is_ok then ConnectionType.ap else wlan;
          }),
          x',
        ))

  -- Bluetooth is powered and the data base opened.
  unfoldable pub open_devices : Exec X (Unit {0})
  open_devices = do
    machine.new_session
    machine.default_adapter
    machine.set_powered true
    machine.open_from (codes "/tmp")

  -- The information that the clients announce, once the builder of the devices is made.
  unfoldable pub main_start : HostId → Exec X HostProvInfo
  main_start uuid = do
    info ← host_info
    open_devices
    AppData.new disk_db uuid info
    host_prov_info ← get_host_prov_info disk_db
    machine.new_builder
    pure host_prov_info

  abbrev pub fresh_host : HostId → HostInfo → HostSchema
  fresh_host uuid info = record {
    id = uuid;
    name = info.name;
    connection_type = info.connection_type;
    registered_mobiles = [];
  }

  abbrev pub prov_info : HostSchema → HostProvInfo
  prov_info host = record {
    id = host.id;
    name = host.name;
    connection_type = if is_wlan host.connection_type then codes "WLAN" else codes "AP";
  }

  -- The record that a start leaves: the one that was there, or else a new one.
  announced :
      (store : IsStore disk_db) (uuid : HostId) (info : HostInfo) (found : Option HostSchema)
      (x : X)
      → (disk_db.read host_schema host_key x).0 ≡ ok found
      → ((AppData.new disk_db uuid info >> get_host_prov_info disk_db) x).0
        ≡ ok (prov_info (get_or found (fresh_host uuid info)))
  unfolding AppData.new get_host_prov_info
  announced store uuid info (some host) x h =
      ground (arith, h, store.read_read host_schema host_key x host_schema host_key)
  announced store uuid info none x h =
      let y = (disk_db.read host_schema host_key x).1 in
      ground (
        arith,
        h,
        store.adds host_schema host_key (fresh_host uuid info) y,
        store.read_add host_schema host_key (fresh_host uuid info) y,
      )

  -- The name, the identity and the connection that are announced are those of the record that the
  -- store holds, whatever the host is called now and whether its access point came up; a host
  -- without a record is announced as it is now. The store keeps its promises, and the calls before
  -- it and the builder of the devices succeed.
  pub main_start_lem :
      (store : IsStore disk_db) (uuid : HostId) (info : HostInfo) (found : Option HostSchema)
      (x x1 x2 : X)
      → ((y : X) → (machine.new_builder y).0 ≡ ok tt)
      → host_info x ≡ (ok info, x1)
      → open_devices x1 ≡ (ok tt, x2)
      → (disk_db.read host_schema host_key x2).0 ≡ ok found
      → (main_start uuid x).0 ≡ ok (prov_info (get_or found (fresh_host uuid info)))
  unfolding main_start
  main_start_lem store uuid info found x x1 x2 builds named opened held =
      let run = (AppData.new disk_db uuid info >> get_host_prov_info disk_db) x2 in
      let known = announced store uuid info found x2 held in
      ground (arith, named, opened, known, builds run.1)
