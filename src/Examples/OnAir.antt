-- ===== src/Examples/OnAir.antt =====
-- An access point that comes up: the control socket is not there at the first attempt.
use webcam_direct_linux.Prelude.{
  ℕ, suc, ◌≡◌, refl, Text, codes, none, some, ok, anyhow, ltb, if◌then◌else◌,
}
use webcam_direct_linux.AccessPoint.{ApController, new, start_dhcp_server, start_wifi}
use webcam_direct_linux.AccessPoint.IpRange
use webcam_direct_linux.AccessPoint.IpRange.{
  check, from_str, from_parts, split_dots, octet, decimal, get_router_ip,
}
use webcam_direct_linux.AccessPoint.Process as Process
use webcam_direct_linux.AccessPoint.Process.{Command, Processes}
use webcam_direct_linux.AccessPoint.FileHdl as ConfigFile
use webcam_direct_linux.AccessPoint.FileHdl.{Files}
use webcam_direct_linux.AccessPoint.Hostapd
use webcam_direct_linux.AccessPoint.Hostapd.{hostap_config}
use webcam_direct_linux.AccessPoint.IwLink as WirelessLink
use webcam_direct_linux.AccessPoint.IwLink.{WirelessDriver}
use webcam_direct_linux.AccessPoint.Dhcp.{DhcpServerCtl}
use webcam_direct_linux.AccessPoint.WpaCtl as Control
use webcam_direct_linux.AccessPoint.WpaCtl.{Wpactrl}
use webcam_direct_linux.AccessPoint.WifiManager
use webcam_direct_linux.AccessPoint.WifiManager.{connect_tries, resume}
use webcam_direct_linux.AccessPoint.Setup.{
  Parts, Host, up, setup_access_point, start_all, wcdirect0, default_creds,
}
use webcam_direct_linux.AccessPoint.Setup.Broadcasting.{
  WifiParts, daemon, control, in_world, make_wifi,
}
use webcam_direct_linux.AccessPoint.Setup.Launching.{IsLaunched}
use webcam_direct_linux.AccessPoint.Setup.Connecting.{IsTaken, IsOpened}
use webcam_direct_linux.AccessPoint.Setup.OnAir.{objects, setup_access_point_on_air}

-- The world is the number of things that were done in it.
abbrev fs : Files ℕ (Unit {0})
fs = record {
  open_with = λ options path n. (ok tt, suc n);
  write_all = λ file bytes n. (ok tt, suc n);
  flush = λ file n. (ok tt, suc n);
  remove_file = λ path n. (ok tt, suc n);
}

abbrev os : Processes ℕ ℕ
os = record {
  spawn = λ cmd n. (ok 7, suc n);
  kill = λ child n. (ok tt, suc n);
  wait = λ child n. (ok tt, suc n);
}

abbrev wpactrl : Wpactrl ℕ ℕ
wpactrl = record {
  open_at = λ path n. (if ltb n 6 then anyhow "no socket" else ok 9, suc n);
  request = λ client text n. (ok (codes "OK"), suc n);
}

abbrev nmcli : Command → ℕ → ℕ
nmcli cmd n = suc n

abbrev driver : WirelessDriver ℕ
driver = record {
  get_ap_wiphy_indx = λ n. (ok (some 0), n);
  create_new_link = λ name phy n. (ok (some 5), n);
  add_ipv4_addr = λ index addr n. (ok tt, suc n);
  delete_link = λ index n. (ok tt, n);
}

abbrev dhcp : DhcpServerCtl ℕ
dhcp = record { start = λ name range n. (ok tt, suc n); stop = λ n. (ok tt, n) }

abbrev Wifi : Type 0
Wifi = WifiParts ℕ (Unit {0}) ℕ ℕ

abbrev wifi : Wifi
wifi = record {
  path = codes "/tmp/hostapd.conf";
  file = some tt;
  child_process = some 7;
  client = some 9;
  control_dir = codes "/tmp/hostapd";
  iw_name = wcdirect0;
  world = 10;
}

abbrev host : Host ℕ ℕ ℕ
host = record { driver = 0; dhcp = 0; wifi = 0 }

abbrev running : ApController (Parts ℕ ℕ Wifi)
running = record {
  creds = none;
  outside = record {
    link = record {
      driver = 1;
      if_name = wcdirect0;
      current_addr = some (codes "193.168.3.1");
      if_idx = 5;
    };
    dhcp = 1;
    wifi = wifi;
  };
}

abbrev drop_wifi : Wifi → ℕ
drop_wifi v = v.world

set_up :
    setup_access_point driver dhcp
      (daemon fs os wpactrl nmcli)
      (control fs os wpactrl nmcli)
      (objects fs os wpactrl nmcli driver dhcp (λ n. n) (λ n. n) drop_wifi)
      (λ path. some path)
      (in_world suc)
      host
    ≡ up running
unfolding setup_access_point start_all WirelessLink.new WifiManager.new connect_tries new
    start_dhcp_server start_wifi IpRange.new check from_str from_parts split_dots octet decimal
    get_router_ip WirelessLink.add_ipv4_addr WirelessLink.get_if_name resume make_wifi
    Control.enable Control.disable Control.connect Control.handle_request Control.get_client
    Control.get_iw_name Control.get_control_dir Hostapd.start ConfigFile.open_file
    ConfigFile.write_data ConfigFile.get_file ConfigFile.get_path Process.spawn
set_up = refl

setup_access_point_on_air_example :
    let begin : Wifi = make_wifi (codes "/tmp/hostapd.conf") (codes "/tmp/hostapd") wcdirect0 0 in
    (dir : Text) × (launched paused : Wifi) × (client : ℕ) × (some (codes "/tmp/hostapd")
      ≡ some dir)
    × IsLaunched fs os wpactrl nmcli default_creds dir begin launched
    × (some 7 ≡ launched.child_process)
    × IsOpened fs os wpactrl nmcli launched client
    × (some 9 ≡ some client)
    × IsTaken fs os wpactrl nmcli (codes "ENABLE") paused wifi
setup_access_point_on_air_example =
    setup_access_point_on_air fs os wpactrl nmcli driver dhcp (λ n. n) (λ n. n) drop_wifi
      (λ path. some path) suc host running set_up
