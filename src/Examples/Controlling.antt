-- ===== src/Examples/Controlling.antt =====
-- The unit tests of src/access_point_ctl/iw_link/mod.rs, run on the model. A mock's method is what it
-- is expected to return; a call that is not expected, or has other arguments, panics.
use webcam_direct_linux.Prelude.{
  ℕ, suc, ◌≡◌, refl, Bool, true, false, ◌&&◌, Text, codes, Option, none, some, Result, ok, err,
  panic, anyhow, Exec, ◌==◌, ◌=?◌, list_key, number_key, if◌then◌else◌,
}
use webcam_direct_linux.AccessPoint.IwLink as WirelessLink
use webcam_direct_linux.AccessPoint.IwLink.{IwLink, IwLinkHandler, WirelessDriver}
use webcam_direct_linux.Examples.Linking.{is_ok, is_err}

abbrev pub returning {ℓ κ} : {S : Type ℓ} {A : Type κ} → Result A → Exec S A
returning r s = (r, s)

abbrev pub only_if {ℓ} : {A : Type ℓ} → Bool → Result A → Result A
only_if expected r = if expected then r else panic

-- A mock of the driver: its state is how often a link was deleted.
abbrev mock_driver :
    Result (Option ℕ) → Result (Option ℕ) → Result (Unit {0}) → Result (Unit {0}) → WirelessDriver ℕ
mock_driver wiphy link add delete = record {
  get_ap_wiphy_indx = returning wiphy;
  create_new_link = λ name i. returning (only_if ((name =? codes "test") && (i == 1)) link);
  add_ipv4_addr = λ i addr. returning (only_if ((i == 1) && (addr =? codes "192.168.1.1")) add);
  delete_link = λ i n. (only_if (i == 1) delete, suc n);
}

abbrev made : Result (Option ℕ) → Result (Option ℕ) → Result (IwLink ℕ)
made wiphy link = (WirelessLink.new (mock_driver wiphy link panic panic) (codes "test") 0).0

test_create_new_link_error_get_ap_wiphy_indx : Bool
test_create_new_link_error_get_ap_wiphy_indx =
    is_err (made (anyhow "Error getting wiphy index") panic)

test_create_new_link_error_create_new_link : Bool
test_create_new_link_error_create_new_link =
    is_err (made (ok (some 1)) (anyhow "Error creating new link"))

test_create_new_link_error_no_wiphy_index : Bool
test_create_new_link_error_no_wiphy_index = is_err (made (ok none) panic)

test_create_new_link_error_no_interface_index : Bool
test_create_new_link_error_no_interface_index = is_err (made (ok (some 1)) (ok none))

-- The link is dropped at the end of a test, which deletes it once.
abbrev deleted_once : Result (Unit {0}) → IwLink ℕ → Bool
deleted_once delete l = (WirelessLink.drop (mock_driver panic panic panic delete) l).driver == 1

abbrev test_link : Option Text → IwLink ℕ
test_link addr = record { driver = 0; if_name = codes "test"; current_addr = addr; if_idx = 1 }

test_create_new_link_success : Bool
test_create_new_link_success = elim (made (ok (some 1)) (ok (some 1))) [
  | ok l ↦ (l.if_idx == 1) && deleted_once (ok tt) l
  | err e ↦ false
  | panic ↦ false
]

abbrev is_some_text : Text → Option Text → Bool
is_some_text text none = false
is_some_text text (some t) = t =? text

abbrev is_none : Option Text → Bool
is_none none = true
is_none (some t) = false

abbrev added : Result (Unit {0}) → Text → Option Text → Result (Unit {0}) × IwLink ℕ
added add addr old =
    WirelessLink.add_ipv4_addr (mock_driver panic panic add panic) addr (test_link old)

test_add_ipv4_addr_success : Bool
test_add_ipv4_addr_success =
    let (result, l) = added (ok tt) (codes "192.168.1.1") none in
    is_ok result && is_some_text (codes "192.168.1.1") l.current_addr && deleted_once (ok tt) l

test_add_ipv4_addr_error : Bool
test_add_ipv4_addr_error =
    let (result, l) = added (anyhow "Error") (codes "192.168.1.1") none in
    is_err result && is_none l.current_addr && deleted_once (ok tt) l

test_drop_link : Bool
test_drop_link = deleted_once (ok tt) (test_link none)

test_drop_link_error : Bool
test_drop_link_error = deleted_once (anyhow "Error deleting link") (test_link none)

test_add_ipv4_addr_when_addr_exists : Bool
test_add_ipv4_addr_when_addr_exists =
    let (result, l) = added panic (codes "192.168.1.2") (some (codes "192.168.1.1")) in
    is_err result && is_some_text (codes "192.168.1.1") l.current_addr && deleted_once (ok tt) l

test_get_if_name : Bool
test_get_if_name =
    let l = test_link (some (codes "192.168.1.1")) in
    (WirelessLink.get_if_name (mock_driver panic panic panic (ok tt)) l =? codes "test")
    && deleted_once (ok tt) l

iw_link_tests :
    (test_create_new_link_error_get_ap_wiphy_indx && test_create_new_link_error_create_new_link
      && test_create_new_link_error_no_wiphy_index && test_create_new_link_error_no_interface_index
      && test_create_new_link_success && test_add_ipv4_addr_success && test_add_ipv4_addr_error
      && test_drop_link && test_drop_link_error && test_add_ipv4_addr_when_addr_exists
      && test_get_if_name)
    ≡ true
unfolding test_create_new_link_error_get_ap_wiphy_indx test_create_new_link_error_create_new_link
    test_create_new_link_error_no_wiphy_index test_create_new_link_error_no_interface_index
    test_create_new_link_success test_add_ipv4_addr_success test_add_ipv4_addr_error test_drop_link
    test_drop_link_error test_add_ipv4_addr_when_addr_exists test_get_if_name WirelessLink.new
    WirelessLink.add_ipv4_addr WirelessLink.drop WirelessLink.get_if_name
iw_link_tests = refl
