-- ===== src/Examples/Storing.antt =====
-- The store on a concrete disk, and the application's data in it.
use webcam_direct_linux.Prelude.{
  ◌≡◌, refl, codes, [], ◌∷◌, ◌++◌, none, some, ok, ◌&&◌, ◌=?◌, list_key, number_key, if◌then◌else◌,
}
use webcam_direct_linux.AppData.Schemas.{MobileSchema, HostSchema, ap, host_schema}
use webcam_direct_linux.AppData.KvDb.{KvDbOps, disk_based_db, read}
use webcam_direct_linux.AppData.KvDb.Laws.{IsStore, disk_based_db-IsStore}
use webcam_direct_linux.AppData.{HostInfo, host_key}
use webcam_direct_linux.Examples.Encoding.{
  Disk, disk, disk-IsTreeMap, bincode, bincode-ReadsBack, bincode-AlwaysWrites,
}

abbrev pub db : KvDbOps Disk
db = disk_based_db disk bincode

disk_based_db-IsStore_example : IsStore db
disk_based_db-IsStore_example =
    disk_based_db-IsStore disk bincode (λ n. n) (λ w. w) disk-IsTreeMap bincode-ReadsBack
      bincode-AlwaysWrites

pub db-IsStore : IsStore db
db-IsStore =
    disk_based_db-IsStore disk bincode (λ n. n) (λ w. w) disk-IsTreeMap bincode-ReadsBack
      bincode-AlwaysWrites

abbrev pub info : HostInfo
info = record { name = codes "host"; connection_type = ap }

abbrev pub host : HostSchema
host = record { id = 5 ∷ []; name = codes "host"; connection_type = ap; registered_mobiles = [] }

abbrev pub phone : MobileSchema
phone = record { id = 1 ∷ []; name = codes "phone" }

abbrev pub host_disk : Disk
host_disk n k =
    if (codes "host_information" =? n) && (host_key =? k)
    then some (1 ∷ 1 ∷ 5 ∷ 4 ∷ codes "host" ++ 0 ∷ [])
    else none

pub has_host : (db.read host_schema host_key host_disk).0 ≡ ok (some host)
unfolding read
has_host = refl
