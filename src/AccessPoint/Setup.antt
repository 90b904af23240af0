-- ===== src/AccessPoint/Setup.antt =====
-- src/main.rs, `setup_access_point`: the parts of the access point put together. The objects are
-- those of the other modules, over the driver's state `W`, the state `D` of dnsmasq's process and the
-- state `V` of hostapd's process and control socket.
pub mod Address
pub mod Broadcasting
pub mod Launching
pub mod Connecting
pub mod OnAir
use webcam_direct_linux.Prelude.{
  ◌≡◌, refl, arith, Text, codes, Option, none, some, Result, ok, err, panic, Exec, lift, on, pure,
  ◌>>=◌, ◌>>◌, continue_ok,
}
use webcam_direct_linux.AccessPoint.{ApController, new, start_wifi, start_dhcp_server}
use webcam_direct_linux.AccessPoint.IpRange
use webcam_direct_linux.AccessPoint.IpRange.{DhcpIpRange, get_router_ip}
use webcam_direct_linux.AccessPoint.IwLink as WirelessLink
use webcam_direct_linux.AccessPoint.IwLink.{IwLink, IwLinkHandler, WirelessDriver}
use webcam_direct_linux.AccessPoint.Dhcp.{DhcpServerCtl}
use webcam_direct_linux.AccessPoint.Hostapd.{WifiCredentials, HostapdProcCtl}
use webcam_direct_linux.AccessPoint.WpaCtl.{WpaCtlClientOps}
use webcam_direct_linux.AccessPoint.WifiManager
use webcam_direct_linux.AccessPoint.WifiManager.{WifiManagerCtl, wifi_manager}
use webcam_direct_linux.AccessPoint.Laws.{start_dhcp_server-started}

abbrev pub wcdirect0 : Text
wcdirect0 = codes "wcdirect0"

abbrev pub first_ip : Text
first_ip = codes "193.168.3.5"

abbrev pub last_ip : Text
last_ip = codes "193.168.3.150"

abbrev pub default_creds : WifiCredentials
default_creds = record { ssid = codes "WebcamDirect"; password = codes "12345678" }

-- The objects that the controller owns.
pub record Parts (W D V : Type 0) : Type 0 where
  pub link : IwLink W
  pub dhcp : D
  pub wifi : V

-- What is outside them, before they are made and after they are dropped.
pub record Host (W D0 V0 : Type 0) : Type 0 where
  pub driver : W
  pub dhcp : D0
  pub wifi : V0

-- Making and dropping dnsmasq's process handler, and hostapd's process handler, configuration file
-- and control socket: the file's path, the control directory and the interface's name are given.
pub record Objects (D0 D V0 V : Type 0) : Type 0 where
  pub make_dhcp : D0 → D
  pub drop_dhcp : D → D0
  pub make_wifi : Text → Text → Text → V0 → V
  pub drop_wifi : V → V0

-- `crashed` is a panic.
pub data Setup (W D0 D V0 V : Type 0) : Type 0 where
  up : ApController (Parts W D V) → Setup W D0 D V0 V
  down : Text → Host W D0 V0 → Setup W D0 D V0 V
  crashed : Setup W D0 D V0 V

module _ {W D V : Type 0} (drv : WirelessDriver W) (dhcp_server : DhcpServerCtl D)
    (hostapd : HostapdProcCtl V) (wpactrl : WpaCtlClientOps V) where
  abbrev pub of_link {ℓ} : {A : Type ℓ} → Exec (IwLink W) A → Exec (Parts W D V) A
  of_link = on (λ p. p.link) (λ l p. record p { link = l })

  abbrev pub of_dhcp {ℓ} : {A : Type ℓ} → Exec D A → Exec (Parts W D V) A
  of_dhcp = on (λ p. p.dhcp) (λ d p. record p { dhcp = d })

  abbrev pub of_wifi {ℓ} : {A : Type ℓ} → Exec V A → Exec (Parts W D V) A
  of_wifi = on (λ p. p.wifi) (λ v p. record p { wifi = v })

  abbrev pub link_part : IwLinkHandler (Parts W D V)
  link_part = record {
    add_ipv4_addr = λ addr. of_link (WirelessLink.add_ipv4_addr drv addr);
    get_if_name = λ p. WirelessLink.get_if_name drv p.link;
  }

  abbrev pub dhcp_part : DhcpServerCtl (Parts W D V)
  dhcp_part = record {
    start = λ name range. of_dhcp (dhcp_server.start name range);
    stop = of_dhcp dhcp_server.stop;
  }

  abbrev pub wifi_part : WifiManagerCtl (Parts W D V)
  wifi_part = record {
    pause = of_wifi (wifi_manager hostapd wpactrl).pause;
    resume = of_wifi (wifi_manager hostapd wpactrl).resume;
    change_creds = λ creds. of_wifi ((wifi_manager hostapd wpactrl).change_creds creds);
    turnoff = of_wifi (wifi_manager hostapd wpactrl).turnoff;
  }

  -- The calls of the controller.
  unfoldable pub start_all : Exec (ApController (Parts W D V)) (Unit {0})
  start_all = do
    range ← lift (IpRange.new first_ip last_ip)
    start_dhcp_server link_part dhcp_part wifi_part range
    start_wifi link_part dhcp_part wifi_part

module _ {W D0 D V0 V : Type 0} (drv : WirelessDriver W) (dhcp_server : DhcpServerCtl D)
    (hostapd : HostapdProcCtl V) (wpactrl : WpaCtlClientOps V) (objects : Objects D0 D V0 V) where
  -- What is left once the parts are dropped.
  abbrev pub drop_parts : Parts W D V → Host W D0 V0
  drop_parts p = record {
    driver = (WirelessLink.drop drv p.link).driver;
    dhcp = objects.drop_dhcp p.dhcp;
    wifi = objects.drop_wifi p.wifi;
  }

  abbrev pub started_up : Result (Unit {0}) → ApController (Parts W D V) → Setup W D0 D V0 V
  started_up (ok u) ap = up ap
  started_up (err e) ap = down e (drop_parts ap.outside)
  started_up panic ap = crashed

  -- The controller is made once the manager is.
  abbrev pub with_manager : Result WifiCredentials → Parts W D V → Setup W D0 D V0 V
  with_manager (ok creds) p =
      let run = start_all drv dhcp_server hostapd wpactrl (new p) in started_up run.0 run.1
  with_manager (err e) p = down e (drop_parts p)
  with_manager panic p = crashed

  -- On an error the objects that were made are dropped.
  unfoldable pub setup_access_point :
      (Text → Option Text) → (V → V) → Host W D0 V0 → Setup W D0 D V0 V
  setup_access_point to_str sleep host =
      let made = WirelessLink.new drv wcdirect0 host.driver in
      elim made.0 [
        | ok link ↦
            let wifi =
              objects.make_wifi (codes "/tmp/hostapd.conf") (codes "/tmp/hostapd") wcdirect0
                host.wifi in
            let manager = WifiManager.new hostapd wpactrl to_str sleep default_creds wifi in
            with_manager manager.0
              (record { link = link; dhcp = objects.make_dhcp host.dhcp; wifi = manager.1 })
        | err e ↦ down e (record host { driver = made.1 })
        | panic ↦ crashed
      ]
