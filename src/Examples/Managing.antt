-- ===== src/Examples/Managing.antt =====
-- The unit tests of src/access_point_ctl/mod.rs and src/access_point_ctl/wifi_manager/mod.rs, run on
-- the model, with mocks.
use webcam_direct_linux.Prelude.{
  ◌≡◌, refl, Bool, true, false, ◌&&◌, Text, codes, [], none, some, Result, ok, err, panic, Exec,
  ◌=?◌, list_key, number_key,
}
use webcam_direct_linux.AccessPoint
use webcam_direct_linux.AccessPoint.{
  ApController, start_wifi, stop_wifi, set_creds, get_creds, start_dhcp_server,
}
use webcam_direct_linux.AccessPoint.IpRange
use webcam_direct_linux.AccessPoint.IpRange.{
  DhcpIpRange, check, from_str, from_parts, split_dots, octet, decimal, get_router_ip, get_start_ip,
  get_end_ip,
}
use webcam_direct_linux.AccessPoint.Dhcp.{DhcpServerCtl}
use webcam_direct_linux.AccessPoint.Hostapd.{WifiCredentials, HostapdProcCtl}
use webcam_direct_linux.AccessPoint.WpaCtl.{WpaCtlClientOps}
use webcam_direct_linux.AccessPoint.WifiManager
use webcam_direct_linux.AccessPoint.WifiManager.{
  WifiManagerCtl, connect_tries, resume, pause, change_creds, turnoff,
}
use webcam_direct_linux.AccessPoint.IwLink.{IwLinkHandler}
use webcam_direct_linux.Examples.Linking.{is_ok, range, with_range}
use webcam_direct_linux.Examples.Controlling.{returning, only_if}

abbrev State : Type 0
State = Unit {0}

abbrev mock_iw_link : Result (Unit {0}) → Text → IwLinkHandler State
mock_iw_link add name = record { add_ipv4_addr = λ addr. returning add; get_if_name = λ s. name }

abbrev mock_dhcp_server : (Text → DhcpIpRange → Result (Unit {0})) → DhcpServerCtl State
mock_dhcp_server start = record {
  start = λ name r. returning (start name r);
  stop = returning panic;
}

abbrev mock_wifi_manager :
    Result (Unit {0})
    → Result (Unit {0})
    → (WifiCredentials → Result (Unit {0}))
    → WifiManagerCtl State
mock_wifi_manager resumed paused changed = record {
  pause = returning paused;
  resume = returning resumed;
  change_creds = λ creds. returning (changed creds);
  turnoff = returning panic;
}

abbrev no_link : IwLinkHandler State
no_link = mock_iw_link panic []

abbrev no_server : DhcpServerCtl State
no_server = mock_dhcp_server (λ name r. panic)

abbrev no_manager : WifiManagerCtl State
no_manager = mock_wifi_manager panic panic (λ creds. panic)

abbrev credentials : Text → Text → WifiCredentials
credentials ssid password = record { ssid = ssid; password = password }

test_start_wifi_success : Bool
test_start_wifi_success =
    is_ok
      (start_wifi no_link no_server (mock_wifi_manager (ok tt) panic (λ creds. panic))
        (AccessPoint.new tt)).0

test_stop_wifi_success : Bool
test_stop_wifi_success =
    is_ok
      (stop_wifi no_link no_server (mock_wifi_manager panic (ok tt) (λ creds. panic))
        (AccessPoint.new tt)).0

test_set_creds_success : Bool
test_set_creds_success =
    is_ok
      (set_creds no_link no_server
        (mock_wifi_manager panic panic (λ creds.
          only_if ((creds.ssid =? codes "new_ssid") && (creds.password =? codes "new_password"))
            (ok tt)))
        (credentials (codes "new_ssid") (codes "new_password")) (AccessPoint.new tt)).0

test_get_creds : Bool
test_get_creds =
    elim (get_creds no_link no_server no_manager (record (AccessPoint.new tt) {
      creds = some (credentials (codes "test_ssid") (codes "test_password"));
    })) [
      | none ↦ false
      | some creds ↦ (creds.ssid =? codes "test_ssid") && (creds.password =? codes "test_password")
    ]

test_start_dhcp_server_success : Bool
test_start_dhcp_server_success =
    with_range (range (codes "192.168.1.100") (codes "192.168.1.200")) (λ ip_range.
      is_ok
        (start_dhcp_server (mock_iw_link (ok tt) (codes "wlan0"))
          (mock_dhcp_server (λ name r.
            only_if
              ((name =? codes "wlan0")
                && (get_start_ip r =? codes "192.168.1.100")
                && (get_end_ip r =? codes "192.168.1.200"))
              (ok tt)))
          no_manager ip_range (AccessPoint.new tt)).0)

controller_tests :
    (test_start_wifi_success && test_stop_wifi_success && test_set_creds_success && test_get_creds
      && test_start_dhcp_server_success)
    ≡ true
unfolding test_start_wifi_success test_stop_wifi_success test_set_creds_success test_get_creds
    test_start_dhcp_server_success start_wifi stop_wifi set_creds get_creds start_dhcp_server
    AccessPoint.new IpRange.new check from_str from_parts split_dots octet decimal get_router_ip
    get_start_ip get_end_ip
controller_tests = refl

-- Mocks of hostapd and of its socket that take what every test of the manager expects, and of what is
-- called afterwards the one that the test is about.
abbrev mock_hostapd : Result (Unit {0}) → HostapdProcCtl State
mock_hostapd stop = record { start = λ creds name dir. returning (ok tt); stop = returning stop }

abbrev mock_wpa_ctl :
    Result (Unit {0}) → Result (Unit {0}) → Result (Unit {0}) → WpaCtlClientOps State
mock_wpa_ctl enabled changed disconnected = record {
  connect = returning (ok tt);
  disconnect = returning disconnected;
  enable = returning enabled;
  disable = returning (ok tt);
  set_ssid = λ ssid. returning changed;
  set_password = λ password. returning changed;
  reload = returning changed;
  get_iw_name = λ s. codes "wlan0";
  get_control_dir = λ s. codes "/tmp/wpa_supplicant";
}

abbrev test_creds : WifiCredentials
test_creds = credentials (codes "test_ssid") (codes "test_password")

-- A manager is made, unwrapped, and asked.
abbrev managed :
    HostapdProcCtl State → WpaCtlClientOps State → Exec State (Unit {0}) → Result (Unit {0})
managed hostapd wpa_ctl ask =
    elim (WifiManager.new hostapd wpa_ctl (λ path. some path) (λ s. s) test_creds tt).0 [
      | ok creds ↦ (ask tt).0
      | err e ↦ panic
      | panic ↦ panic
    ]

test_new : Bool
test_new =
    is_ok
      (WifiManager.new (mock_hostapd panic) (mock_wpa_ctl panic panic panic) (λ path. some path)
        (λ s. s) test_creds tt).0

test_resume : Bool
test_resume =
    let h = mock_hostapd panic in
    let w = mock_wpa_ctl (ok tt) panic panic in is_ok (managed h w (resume h w))

test_pause : Bool
test_pause =
    let h = mock_hostapd panic in
    let w = mock_wpa_ctl panic panic panic in is_ok (managed h w (pause h w))

test_change_creds : Bool
test_change_creds =
    let h = mock_hostapd panic in
    let w = mock_wpa_ctl panic (ok tt) panic in is_ok (managed h w (change_creds h w test_creds))

test_turnoff : Bool
test_turnoff =
    let h = mock_hostapd (ok tt) in
    let w = mock_wpa_ctl panic panic (ok tt) in is_ok (managed h w (turnoff h w))

wifi_manager_tests :
    (test_new && test_resume && test_pause && test_change_creds && test_turnoff) ≡ true
unfolding test_new test_resume test_pause test_change_creds test_turnoff WifiManager.new
    connect_tries resume pause change_creds turnoff
wifi_manager_tests = refl
