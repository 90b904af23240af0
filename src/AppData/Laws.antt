-- ===== src/AppData/Laws.antt =====
-- What the application's data promises, over any store that keeps the promises of one.
use webcam_direct_linux.Prelude.{
  Text, ◌≡◌, ◌≢◌, refl, inl, none, some, [], ◌∷◌, ◌++◌, ok, anyhow, list_key, number_key, ◌∙◌, sym,
}
use webcam_direct_linux.AppData.Schemas.{
  MobileSchema, HostSchema, HostId, mobile_schema, host_schema, Schema,
}
use webcam_direct_linux.AppData.KvDb.{KvDbOps}
use webcam_direct_linux.AppData.KvDb.Laws.{IsStore}
use webcam_direct_linux.AppData.{HostInfo, host_key, new, add_mobile, get_mobile}

host_ne_mobile : host_schema ≢ mobile_schema
host_ne_mobile e = cc

module _ {S : Type 0} (db : KvDbOps S) (store : IsStore db) where
  -- On a store without a host record, a first start records the host under its name, with no
  -- mobile registered.
  pub new-first :
      (uuid : HostId) (info : HostInfo) (s : S)
      → (db.read host_schema host_key s).0 ≡ ok none
      → ((new db uuid info s).0 ≡ ok tt)
        × ((db.read host_schema host_key (new db uuid info s).1).0
            ≡ ok (
                some (record {
                  id = uuid;
                  name = info.name;
                  connection_type = info.connection_type;
                  registered_mobiles = [];
                })))
  unfolding new
  new-first uuid info s h = rw h (
    store.adds host_schema host_key _ (db.read host_schema host_key s).1,
    store.read_add host_schema host_key _ (db.read host_schema host_key s).1,
  )

  -- A later start succeeds and keeps every record, whatever it is given.
  pub new-again :
      (uuid : HostId) (info : HostInfo) (host : HostSchema) (s : S) (t : Schema) (k : Text)
      → (db.read host_schema host_key s).0 ≡ ok (some host)
      → ((new db uuid info s).0 ≡ ok tt)
        × ((db.read t k (new db uuid info s).1).0 ≡ (db.read t k s).0)
  unfolding new
  new-again uuid info host s t k h = rw h (refl, store.read_read host_schema host_key s t k)

  -- On a store with a host record, a registered mobile is read back, and the host lists it behind
  -- the others.
  pub get_mobile-add_mobile :
      (mobile : MobileSchema) (host : HostSchema) (s : S)
      → (db.read host_schema host_key s).0 ≡ ok (some host)
      → ((add_mobile db mobile s).0 ≡ ok tt)
        × ((get_mobile db mobile.id (add_mobile db mobile s).1).0 ≡ ok mobile)
        × ((db.read host_schema host_key (add_mobile db mobile s).1).0
            ≡ ok (
                some
                  (record host { registered_mobiles = host.registered_mobiles ++ mobile.id ∷ [] })))
  unfolding add_mobile get_mobile
  get_mobile-add_mobile mobile host s h =
      let s1 = (db.read host_schema host_key s).1 in
      let listed = record host { registered_mobiles = host.registered_mobiles ++ mobile.id ∷ [] } in
      let s2 = (db.update host_schema host_key listed s1).1 in
      let updated = store.updates host_schema host_key listed s1 in
      let added = store.adds mobile_schema mobile.id mobile s2 in
      rw (h, updated, added)
        (
          refl,
          rw (store.read_add mobile_schema mobile.id mobile s2),
          store.read_add_ne mobile_schema mobile.id mobile s2 host_schema host_key
                (inl (λ e. host_ne_mobile (sym e)))
              ∙ store.read_update host_schema host_key listed s1,
        )

  -- Without a host record a mobile is refused, and every record stays.
  pub add_mobile-no_host :
      (mobile : MobileSchema) (s : S) (t : Schema) (k : Text)
      → (db.read host_schema host_key s).0 ≡ ok none
      → ((add_mobile db mobile s).0 ≡ anyhow "Host info not found")
        × ((db.read t k (add_mobile db mobile s).1).0 ≡ (db.read t k s).0)
  unfolding add_mobile
  add_mobile-no_host mobile s t k h = rw h (refl, store.read_read host_schema host_key s t k)
