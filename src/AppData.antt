-- ===== src/AppData.antt =====
-- src/app_data/mod.rs: the host's own record and the mobiles that are registered with it, over a
-- store `KvDbOps S`. The identity that `Uuid::new_v4` makes up is an argument.
pub mod Schemas
pub mod KvDb
pub mod Laws
use webcam_direct_linux.Prelude.{
  Text, codes, Option, none, some, List, [], ◌∷◌, ◌++◌, if◌then◌else◌, Result, err, anyhow, Exec,
  lift, pure, ◌>>=◌, ◌>>◌,
}
use webcam_direct_linux.Ble.CommTypes.{HostProvInfo}
use Schemas.{
  MobileSchema, HostSchema, ConnectionType, HostId, MobileId, mobile_schema, host_schema, is_wlan,
}
use KvDb.{KvDbOps}

pub record HostInfo : Type 0 where
  pub name : Text
  pub connection_type : ConnectionType

abbrev pub host_key : Text
host_key = codes "host_info"

module _ {S : Type 0} (data_db : KvDbOps S) where
  -- A host that has a record keeps it, whatever is passed.
  unfoldable pub new : HostId → HostInfo → Exec S (Unit {0})
  new uuid info = do
    found ← data_db.read host_schema host_key
    elim found [
      | some host ↦ pure tt
      | none ↦ data_db.add host_schema host_key (record {
        id = uuid;
        name = info.name;
        connection_type = info.connection_type;
        registered_mobiles = [];
      })
    ]

  unfoldable pub get_host_prov_info : Exec S HostProvInfo
  get_host_prov_info = do
    found ← data_db.read host_schema host_key
    elim found [
      | some host ↦ pure (record {
        id = host.id;
        name = host.name;
        connection_type = if is_wlan host.connection_type then codes "WLAN" else codes "AP";
      })
      | none ↦ lift (anyhow "Host info not found")
    ]

  -- The host's list first, then the mobile's own record.
  unfoldable pub add_mobile : MobileSchema → Exec S (Unit {0})
  add_mobile mobile = do
    found ← data_db.read host_schema host_key
    elim found [
      | some host ↦ (do
        data_db.update host_schema host_key
            (record host { registered_mobiles = host.registered_mobiles ++ mobile.id ∷ [] })
        data_db.add mobile_schema mobile.id mobile
        pure tt)
      | none ↦ lift (anyhow "Host info not found")
    ]

  unfoldable pub get_mobile : Text → Exec S MobileSchema
  get_mobile id = do
    found ← data_db.read mobile_schema id
    elim found [ some mobile ↦ pure mobile | none ↦ lift (anyhow "Mobile info not found") ]
