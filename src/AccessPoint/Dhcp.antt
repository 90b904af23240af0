-- ===== src/AccessPoint/Dhcp.antt =====
-- src/access_point_ctl/dhcp_server/mod.rs: dnsmasq as a child process.
use webcam_direct_linux.Prelude.{Text, codes, [], ◌∷◌, ◌++◌, Exec, anyhow}
use webcam_direct_linux.AccessPoint.IpRange.{DhcpIpRange, get_start_ip, get_end_ip}
use webcam_direct_linux.AccessPoint.Process.{Command, ProcessHdlOps}

pub record DhcpServerCtl (S : Type 0) : Type 0 where
  pub start : Text → DhcpIpRange → Exec S (Unit {0})
  pub stop : Exec S (Unit {0})

abbrev pub comma : Text
comma = codes ","

-- `dnsmasq -p 0 -i NAME -F START,END -n -d`.
unfoldable pub dnsmasq : Text → DhcpIpRange → Command
unfolding get_start_ip get_end_ip
dnsmasq iw_name ip_range = record {
  program = codes "dnsmasq";
  args =
      codes "-p"
      ∷ codes "0"
      ∷ codes "-i"
      ∷ iw_name
      ∷ codes "-F"
      ∷ (get_start_ip ip_range ++ comma ++ get_end_ip ip_range)
      ∷ codes "-n"
      ∷ codes "-d"
      ∷ [];
}

module _ {S : Type 0} (process : ProcessHdlOps S) where
  unfoldable pub start : Text → DhcpIpRange → Exec S (Unit {0})
  start [] ip_range s = (anyhow "Invalid interface name", s)
  start (c ∷ iw_name) ip_range s = process.spawn (dnsmasq (c ∷ iw_name) ip_range) s

  unfoldable pub stop : Exec S (Unit {0})
  stop = process.kill

  abbrev pub dnsmasq_proc : DhcpServerCtl S
  dnsmasq_proc = record { start = start; stop = stop }
