-- ===== src/AccessPoint.antt =====
-- src/access_point_ctl/mod.rs: the controller of the access point, over the wireless link, the DHCP
-- server and the Wi-Fi manager, each an interface over the state `S` of what is outside.
pub mod IpRange
pub mod Process
pub mod Dhcp
pub mod FileHdl
pub mod Hostapd
pub mod WpaCtl
pub mod WifiManager
pub mod IwLink
pub mod Nl80211
pub mod Setup
pub mod Laws
use webcam_direct_linux.Prelude.{
  Text, codes, Option, none, some, Exec, Result, ok, err, panic, lift, pure, on, ◌>>=◌, ◌>>◌,
}
use IpRange.{DhcpIpRange, get_router_ip}
use Dhcp.{DhcpServerCtl}
use Hostapd.{WifiCredentials}
use WifiManager.{WifiManagerCtl}
use IwLink.{IwLinkHandler}

pub record ApController (S : Type 0) : Type 0 where
  pub creds : Option WifiCredentials
  pub outside : S

unfoldable pub new : {S : Type 0} → S → ApController S
new s = record { creds = none; outside = s }

module _ {S : Type 0} (iw_link : IwLinkHandler S) (dhcp_server : DhcpServerCtl S)
    (wifi_manager : WifiManagerCtl S) where
  abbrev pub outside {ℓ} : {A : Type ℓ} → Exec S A → Exec (ApController S) A
  outside = on (λ c. c.outside) (λ t c. record c { outside = t })

  unfoldable pub start_wifi : Exec (ApController S) (Unit {0})
  start_wifi = outside wifi_manager.resume

  unfoldable pub stop_wifi : Exec (ApController S) (Unit {0})
  stop_wifi = outside wifi_manager.pause

  -- The credentials are remembered once the manager has taken them.
  unfoldable pub set_creds : WifiCredentials → Exec (ApController S) (Unit {0})
  set_creds creds = do
    outside (wifi_manager.change_creds creds)
    (λ c. (ok tt, record c { creds = some creds }))

  unfoldable pub get_creds : ApController S → Option WifiCredentials
  get_creds c = c.creds

  -- The router's address goes to the interface, and the server is started on it.
  unfoldable pub start_dhcp_server : DhcpIpRange → Exec (ApController S) (Unit {0})
  start_dhcp_server ip_range = do
    router_ip ← lift (get_router_ip ip_range)
    outside (iw_link.add_ipv4_addr router_ip)
    (λ c. outside (dhcp_server.start (iw_link.get_if_name c.outside) ip_range) c)
