-- ===== src/Examples/Hosting.antt =====
-- The access point on concrete addresses, processes, files and drivers.
use webcam_direct_linux.Prelude.{
  ℕ, ◌≡◌, ◌↔◌, refl, Text, Bytes, codes, [], ◌∷◌, ◌++◌, drop, length, arith, if◌then◌else◌, Option,
  none, some, ok, anyhow, ◌>>◌, suc, Exec,
}
use webcam_direct_linux.AccessPoint.IpRange
use webcam_direct_linux.AccessPoint.IpRange.{
  Ipv4Addr, DhcpIpRange, split_dots, decimal, octet, from_parts, from_str, check, get_router_ip,
}
use webcam_direct_linux.AccessPoint.IpRange.Checks.{IsRange, new_iff}
use webcam_direct_linux.AccessPoint.IpRange.Router.{get_router_ip-from_str}
use webcam_direct_linux.AccessPoint.Process.{ProcessHdlOps, ProcessHdl}
use webcam_direct_linux.AccessPoint.FileHdl.{
  FileHdlOps, Files, FileHdl, open_file, write_data, get_file, IsFiles, write_data-old,
}
use webcam_direct_linux.AccessPoint.Hostapd
use webcam_direct_linux.AccessPoint.Hostapd.{
  WifiCredentials, HostapdProcCtl, hostap_config, hostapd, unmanage,
}
use webcam_direct_linux.AccessPoint.WpaCtl.{WpaCtlClientOps}
use webcam_direct_linux.AccessPoint.IwLink.{IwLinkHandler, WirelessDriver, IwLink}
use webcam_direct_linux.AccessPoint.Dhcp.{DhcpServerCtl}

abbrev first_ip : Text
first_ip = codes "10.0.0.2"

abbrev last_ip : Text
last_ip = codes "10.0.0.9"

abbrev first : Ipv4Addr
first = record { a = 10; b = 0; c = 0; d = 2 }

abbrev last : Ipv4Addr
last = record { a = 10; b = 0; c = 0; d = 9 }

abbrev range : DhcpIpRange
range = record { start = first_ip; stop = last_ip }

first_ip-from_str : from_str first_ip ≡ some first
unfolding from_str from_parts split_dots octet decimal
first_ip-from_str = refl

last_ip-from_str : from_str last_ip ≡ some last
unfolding from_str from_parts split_dots octet decimal
last_ip-from_str = refl

range_made : IpRange.new first_ip last_ip ≡ ok range
unfolding IpRange.new check from_str from_parts split_dots octet decimal
range_made = refl

new_iff_example : (IpRange.new first_ip last_ip ≡ ok range) ↔ IsRange first last
new_iff_example = new_iff first_ip last_ip first last first_ip-from_str last_ip-from_str

get_router_ip-from_str_example :
    (s : Ipv4Addr) × (router : Text) × (from_str first_ip ≡ some s)
    × (get_router_ip range ≡ ok router)
    × (from_str router ≡ some (record s { d = 1 }))
get_router_ip-from_str_example = get_router_ip-from_str first_ip last_ip range range_made

abbrev busy : ProcessHdl ℕ ℕ
busy = record { child_process = some 0; world = 1 }

-- A file system of one file, whose content is its state.
abbrev one_file : Files Bytes (Unit {0})
one_file = record {
  open_with = λ options path w. (ok tt, if options.truncate then [] else w);
  write_all = λ file b w. (ok tt, b ++ drop (length b) w);
  flush = λ file w. (ok tt, w);
  remove_file = λ path w. (ok tt, []);
}

abbrev old_file : FileHdl Bytes (Unit {0})
old_file = record { path = codes "f"; file = none; world = 1 ∷ 2 ∷ 3 ∷ [] }

one_file-IsFiles : IsFiles one_file (λ w path. w)
one_file-IsFiles = record {
  opens = λ options path file w w' e. ground (arith, e);
  writes = λ options path file bytes w w1 w2 o e. ground (arith, e);
  flushes = λ path file w w' e. ground (arith, e);
}

abbrev overwritten : FileHdl Bytes (Unit {0})
overwritten = record { path = codes "f"; file = some tt; world = 9 ∷ 2 ∷ 3 ∷ [] }

was_written : (open_file one_file >> write_data one_file (9 ∷ [])) old_file ≡ (ok tt, overwritten)
unfolding open_file write_data get_file
was_written = refl

write_data-old_example : overwritten.world ≡ 9 ∷ 2 ∷ 3 ∷ []
write_data-old_example =
    write_data-old one_file (λ w path. w) (9 ∷ []) old_file overwritten one_file-IsFiles refl
      was_written

abbrev creds : WifiCredentials
creds = record { ssid = codes "cam"; password = codes "secret" }

-- What happened, as a number of steps.
abbrev config : FileHdlOps ℕ
config = record {
  open_file = λ n. (ok tt, suc n);
  write_data = λ b n. (ok tt, suc n);
  get_path = λ n. codes "f";
}

abbrev child : ProcessHdlOps ℕ
child = record { spawn = λ cmd n. (ok tt, suc n); kill = λ n. (ok tt, suc n) }

started : Hostapd.start config child (λ cmd n. suc n) creds (codes "w") (codes "d") 0 ≡ (ok tt, 4)
unfolding Hostapd.start
started = refl

abbrev driver : WirelessDriver ℕ
driver = record {
  get_ap_wiphy_indx = λ n. (ok (some 0), n);
  create_new_link = λ name i n. (ok (some 1), n);
  add_ipv4_addr = λ i addr n. (ok tt, suc n);
  delete_link = λ i n. (ok tt, n);
}

abbrev link : Option Text → ℕ → IwLink ℕ
link addr n = record { driver = n; if_name = codes "w"; current_addr = addr; if_idx = 1 }

abbrev handler : IwLinkHandler ℕ
handler = record { add_ipv4_addr = λ addr n. (ok tt, suc n); get_if_name = λ n. codes "w" }

abbrev dhcp : DhcpServerCtl ℕ
dhcp = record { start = λ name r n. (ok tt, suc n); stop = λ n. (ok tt, n) }

-- A control socket that cannot be reached.
abbrev unreachable {ℓ} : {A : Type ℓ} → Exec ℕ A
unreachable n = (anyhow "no socket", n)

abbrev wpa : WpaCtlClientOps ℕ
wpa = record {
  connect = unreachable;
  disconnect = unreachable;
  enable = unreachable;
  disable = unreachable;
  set_ssid = λ t. unreachable;
  set_password = λ t. unreachable;
  reload = unreachable;
  get_iw_name = λ n. codes "w";
  get_control_dir = λ n. codes "d";
}
