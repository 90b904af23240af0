-- ===== src/AppData/KvDb.antt =====
-- src/app_data/kv_db.rs: a store of schema items by key, and its implementation on `sled` and
-- `bincode`. Those two are not part of the repository: `Sled W` is an interface over the state `W`
-- of the disk, and the encoding of each schema type is a codec.
pub mod Laws
use webcam_direct_linux.Prelude.{
  Text, Bytes, Option, none, some, Exec, Result, ok, bind, lift, ◌>>=◌, ◌>>◌,
}
use webcam_direct_linux.Ble.CommTypes.{Codec}
use webcam_direct_linux.AppData.Schemas.{Schema, Item, keyspace_name}

-- The trait `KvDbOps`, over the state `S` of a database.
pub record KvDbOps (S : Type 0) : Type 0 where
  pub add : (t : Schema) → Text → Item t → Exec S (Unit {0})
  pub read : (t : Schema) → Text → Exec S (Option (Item t))
  pub update : (t : Schema) → Text → Item t → Exec S (Unit {0})
  pub delete : (t : Schema) → Text → Exec S (Option (Item t))

pub record Sled (W Tree : Type 0) : Type 0 where
  pub open_tree : Text → Exec W Tree
  pub get : Tree → Text → Exec W (Option Bytes)
  pub insert : Tree → Text → Bytes → Exec W (Unit {0})
  pub remove : Tree → Text → Exec W (Option Bytes)

abbrev pub decode {ℓ} : {A : Type ℓ} → Codec A → Option Bytes → Result (Option A)
decode codec none = ok none
decode codec (some bytes) = bind (codec.des bytes) (λ item. ok (some item))

module _ {W Tree : Type 0} (sled : Sled W Tree) (bincode : (t : Schema) → Codec (Item t)) where
  unfoldable pub add : (t : Schema) → Text → Item t → Exec W (Unit {0})
  add t key item = do
    tree ← sled.open_tree (keyspace_name t)
    serialized ← lift ((bincode t).ser item)
    sled.insert tree key serialized

  unfoldable pub read : (t : Schema) → Text → Exec W (Option (Item t))
  read t key = do
    tree ← sled.open_tree (keyspace_name t)
    found ← sled.get tree key
    lift (decode (bincode t) found)

  unfoldable pub update : (t : Schema) → Text → Item t → Exec W (Unit {0})
  update t key item = do
    tree ← sled.open_tree (keyspace_name t)
    serialized ← lift ((bincode t).ser item)
    sled.insert tree key serialized

  unfoldable pub delete : (t : Schema) → Text → Exec W (Option (Item t))
  delete t key = do
    tree ← sled.open_tree (keyspace_name t)
    found ← sled.remove tree key
    lift (decode (bincode t) found)

  abbrev pub disk_based_db : KvDbOps W
  disk_based_db = record { add = add; read = read; update = update; delete = delete }
