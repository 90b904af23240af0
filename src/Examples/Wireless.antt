-- ===== src/Examples/Wireless.antt =====
-- The driver over a kernel whose answers are written out, and the access point put together.
use webcam_direct_linux.Prelude.{
  ℕ, ◌≡◌, refl, Bytes, codes, List, [], ◌∷◌, ◌++◌, none, some, Result, ok, anyhow, true, bind, suc,
}
use webcam_direct_linux.AccessPoint.{ApController, new, start_dhcp_server, start_wifi}
use webcam_direct_linux.AccessPoint.IpRange
use webcam_direct_linux.AccessPoint.IpRange.{
  check, from_str, from_parts, split_dots, octet, decimal, get_router_ip,
}
use webcam_direct_linux.AccessPoint.IwLink as WirelessLink
use webcam_direct_linux.AccessPoint.IwLink.{IwLink, WirelessDriver}
use webcam_direct_linux.AccessPoint.Dhcp.{DhcpServerCtl}
use webcam_direct_linux.AccessPoint.Hostapd.{HostapdProcCtl}
use webcam_direct_linux.AccessPoint.WpaCtl.{WpaCtlClientOps}
use webcam_direct_linux.AccessPoint.WifiManager
use webcam_direct_linux.AccessPoint.WifiManager.{connect_tries, resume}
use webcam_direct_linux.AccessPoint.Nl80211.Consts.{
  Nl80211Attribute, wiphy, software_iftypes, Nl80211Iftype, iftype_ap, iftype_station,
}
use webcam_direct_linux.AccessPoint.Nl80211.Parser.{
  Nlattr, Payloads, WiPhyProps, no_props, find_ap, parse_attr, parse_attrs, parse_nl80211_payload,
  readings, summary, parse_nl80211_payload_lem,
}
use webcam_direct_linux.AccessPoint.Nl80211.{Netlink, payload, nl_err, scan, nl80211_driver}
use webcam_direct_linux.AccessPoint.Nl80211.Scan.{scan-first}
use webcam_direct_linux.AccessPoint.Nl80211.Link.{add_ipv4_addr-unchecked}
use webcam_direct_linux.AccessPoint.Setup.{
  Parts, Host, Objects, up, setup_access_point, start_all, wcdirect0,
}
use webcam_direct_linux.AccessPoint.Setup.Address.{
  RemembersAddress, range, setup_access_point-address,
}

-- A number is one byte, and a list of types is one type: a station, or else an access point.
abbrev as_u16 : Bytes → Result ℕ
as_u16 [] = anyhow "short"
as_u16 (b ∷ bytes) = ok b

abbrev as_iftypes : Bytes → Result (List Nl80211Iftype)
as_iftypes [] = ok (iftype_station ∷ [])
as_iftypes (b ∷ bytes) = ok (iftype_ap ∷ [])

abbrev attr : Nl80211Attribute → Bytes → Nlattr
attr t b = record { nla_type = t; nla_payload = b }

abbrev station : List Nlattr
station = attr wiphy (3 ∷ []) ∷ attr software_iftypes [] ∷ []

abbrev access_point : List Nlattr
access_point = attr software_iftypes (1 ∷ []) ∷ attr wiphy (4 ∷ []) ∷ []

-- Its state is the number of requests; it refuses whatever is asked, by an error message.
abbrev refusing : Netlink ℕ (Unit {0})
refusing = record {
  connect = λ family pid n. (ok tt, n);
  resolve_genl_family = λ sock name n. (ok 28, n);
  send = λ sock message n. (ok tt, suc n);
  iter = λ sock n. (ok (nl_err 17) ∷ [], n);
  encode = λ t v. ok (record { nla_type = t; nla_payload = [] });
  octets = λ addr. ok addr;
  local_attr = λ bytes. ok bytes;
  payloads = record { as_u16 = as_u16; as_iftypes = as_iftypes };
}

abbrev payloads : Payloads
payloads = refusing.payloads

parse_nl80211_payload_lem_example :
    parse_nl80211_payload payloads (station ++ access_point)
    ≡ bind (readings payloads (station ++ access_point)) (λ rs. ok (summary payloads rs no_props))
parse_nl80211_payload_lem_example = parse_nl80211_payload_lem payloads (station ++ access_point)

abbrev station_props : WiPhyProps
station_props = record { phy_idx = some 3; ap_supported = none; if_idx = none }

abbrev ap_props : WiPhyProps
ap_props = record { phy_idx = some 4; ap_supported = some true; if_idx = none }

station_parsed : parse_nl80211_payload payloads station ≡ ok station_props
unfolding parse_nl80211_payload parse_attrs parse_attr find_ap
station_parsed = refl

access_point_parsed : parse_nl80211_payload payloads access_point ≡ ok ap_props
unfolding parse_nl80211_payload parse_attrs parse_attr find_ap
access_point_parsed = refl

scan-first_example :
    scan refusing
      ((ok (payload station) ∷ ok (nl_err 2) ∷ [])
        ++ ok (payload access_point) ∷ anyhow "late" ∷ [])
      none
    ≡ ok (some 4)
scan-first_example =
    scan-first refusing (ok (payload station) ∷ ok (nl_err 2) ∷ []) (anyhow "late" ∷ [])
      access_point ap_props 4 ((station_props, station_parsed, refl), (tt, tt)) access_point_parsed
      refl

abbrev link : IwLink ℕ
link = record { driver = 0; if_name = codes "w"; current_addr = none; if_idx = 5 }

abbrev refused : IwLink ℕ
refused = record link { driver = 1; current_addr = some (codes "10.0.0.1") }

add_ipv4_addr-unchecked_example :
    (WirelessLink.add_ipv4_addr (nl80211_driver refusing) (codes "10.0.0.1") link
      ≡ (ok tt, refused))
    × (WirelessLink.add_ipv4_addr (nl80211_driver refusing) (codes "10.0.0.2") refused
        ≡ (anyhow "Address already exists on interface", refused))
add_ipv4_addr-unchecked_example =
    add_ipv4_addr-unchecked refusing (codes "10.0.0.1") (codes "10.0.0.2") (codes "10.0.0.1")
      (codes "10.0.0.1") link tt 0 1 1 (ok (nl_err 17) ∷ []) refl refl refl refl refl refl tt

-- Parts that all work.
abbrev driver : WirelessDriver ℕ
driver = record {
  get_ap_wiphy_indx = λ n. (ok (some 0), n);
  create_new_link = λ name phy n. (ok (some 5), n);
  add_ipv4_addr = λ index addr n. (ok tt, suc n);
  delete_link = λ index n. (ok tt, n);
}

abbrev dhcp : DhcpServerCtl ℕ
dhcp = record { start = λ name range n. (ok tt, suc n); stop = λ n. (ok tt, n) }

abbrev daemon : HostapdProcCtl ℕ
daemon = record { start = λ creds name dir n. (ok tt, suc n); stop = λ n. (ok tt, n) }

abbrev wpa : WpaCtlClientOps ℕ
wpa = record {
  connect = λ n. (ok tt, n);
  disconnect = λ n. (ok tt, n);
  enable = λ n. (ok tt, n);
  disable = λ n. (ok tt, n);
  set_ssid = λ ssid n. (ok tt, n);
  set_password = λ password n. (ok tt, n);
  reload = λ n. (ok tt, n);
  get_iw_name = λ n. wcdirect0;
  get_control_dir = λ n. codes "/tmp/hostapd";
}

abbrev objects : Objects ℕ ℕ ℕ ℕ
objects = record {
  make_dhcp = λ n. n;
  drop_dhcp = λ n. n;
  make_wifi = λ path dir name n. n;
  drop_wifi = λ n. n;
}

abbrev host : Host ℕ ℕ ℕ
host = record { driver = 0; dhcp = 0; wifi = 0 }

abbrev running : ApController (Parts ℕ ℕ ℕ)
running = record {
  creds = none;
  outside = record {
    link = record {
      driver = 1;
      if_name = wcdirect0;
      current_addr = some (codes "193.168.3.1");
      if_idx = 5;
    };
    dhcp = 1;
    wifi = 1;
  };
}

set_up :
    setup_access_point driver dhcp daemon wpa objects (λ path. some path) (λ n. n) host ≡ up running
unfolding setup_access_point start_all WirelessLink.new WifiManager.new connect_tries new
    start_dhcp_server start_wifi IpRange.new check from_str from_parts split_dots octet decimal
    get_router_ip WirelessLink.add_ipv4_addr WirelessLink.get_if_name resume
set_up = refl

setup_access_point-address_example :
    RemembersAddress driver running.outside.link (codes "193.168.3.1")
    × (dhcp.start wcdirect0 range 0 ≡ (ok tt, 1))
setup_access_point-address_example =
    setup_access_point-address driver dhcp daemon wpa objects (λ path. some path) (λ n. n) host
      running set_up
