-- ===== src/AppData/Schemas.antt =====
-- src/app_data/schemas.rs: the records that the store keeps, each in its own keyspace.
use webcam_direct_linux.Prelude.{Text, codes, List, Bool, true, false}

abbrev pub MobileId : Type 0
MobileId = Text

pub record MobileSchema : Type 0 where
  pub id : MobileId
  pub name : Text

abbrev pub HostId : Type 0
HostId = Text

pub data ConnectionType : Type 0 where
  wlan ap : ConnectionType

pub record HostSchema : Type 0 where
  pub id : HostId
  pub name : Text
  pub connection_type : ConnectionType
  pub registered_mobiles : List MobileId

-- The two types that implement `SchemaType`, with their items and `KEYSPACE_NAME`.
pub data Schema : Type 0 where
  mobile_schema host_schema : Schema

abbrev pub Item : Schema → Type 0
Item mobile_schema = MobileSchema
Item host_schema = HostSchema

abbrev pub keyspace_name : Schema → Text
keyspace_name mobile_schema = codes "registered_mobiles"
keyspace_name host_schema = codes "host_information"

abbrev pub is_wlan : ConnectionType → Bool
is_wlan wlan = true
is_wlan ap = false
