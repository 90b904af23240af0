-- ===== src/Examples/Provisioning.antt =====
-- The unit tests of src/app_data/mod.rs, run on the model, with a mock of the store: a method is what
-- it is expected to return, and a call that is not expected, or has other arguments, panics.
use webcam_direct_linux.Prelude.{
  ◌≡◌, refl, Bool, true, false, ◌&&◌, ◌||◌, Text, codes, List, [], ◌∷◌, Option, none, some, Result,
  ok, panic, ◌=?◌, list_key, number_key,
}
use webcam_direct_linux.AppData.Schemas.{
  MobileSchema, HostSchema, wlan, Schema, mobile_schema, host_schema, Item,
}
use webcam_direct_linux.AppData.KvDb.{KvDbOps}
use webcam_direct_linux.AppData
use webcam_direct_linux.AppData.{host_key, add_mobile}
use webcam_direct_linux.Examples.Linking.{is_ok}
use webcam_direct_linux.Examples.Controlling.{only_if}

abbrev State : Type 0
State = Unit {0}

-- The host's record is the only one that is read.
abbrev read_host : Option HostSchema → (t : Schema) → Text → Result (Option (Item t))
read_host host host_schema key = only_if (key =? codes "host_info") (ok host)
read_host host mobile_schema key = panic

abbrev for_host : (HostSchema → Bool) → (t : Schema) → Text → Item t → Result (Unit {0})
for_host test host_schema key host = only_if ((key =? codes "host_info") && test host) (ok tt)
for_host test mobile_schema key mobile = panic

abbrev for_mobile : (MobileSchema → Bool) → (t : Schema) → Text → Item t → Result (Unit {0})
for_mobile test host_schema key host = panic
for_mobile test mobile_schema key mobile =
    only_if ((key =? codes "mobile_1") && test mobile) (ok tt)

abbrev mock_db :
    Option HostSchema
    → ((t : Schema) → Text → Item t → Result (Unit {0}))
    → ((t : Schema) → Text → Item t → Result (Unit {0}))
    → KvDbOps State
mock_db host added updated = record {
  add = λ t key item s. (added t key item, s);
  read = λ t key s. (read_host host t key, s);
  update = λ t key item s. (updated t key item, s);
  delete = λ t key s. (panic, s);
}

abbrev lists : Text → List Text → Bool
lists id [] = false
lists id (mobile ∷ mobiles) = (mobile =? id) || lists id mobiles

test_new_app_data : Bool
test_new_app_data =
    is_ok
      (AppData.new
        (mock_db none (for_host (λ host. host.name =? codes "TestHost")) (λ t key item. panic))
        (codes "uuid") (record { name = codes "TestHost"; connection_type = wlan }) tt).0

test_add_mobile : Bool
test_add_mobile =
    is_ok
      (add_mobile
        (mock_db
          (some (record {
            id = codes "123";
            name = codes "TestHost";
            connection_type = wlan;
            registered_mobiles = [];
          }))
          (for_mobile (λ mobile. mobile.name =? codes "Mobile1"))
          (for_host (λ host. lists (codes "mobile_1") host.registered_mobiles)))
        (record { id = codes "mobile_1"; name = codes "Mobile1" }) tt).0

app_data_tests : (test_new_app_data && test_add_mobile) ≡ true
unfolding test_new_app_data test_add_mobile AppData.new add_mobile
app_data_tests = refl
