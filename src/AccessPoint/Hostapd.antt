-- ===== src/AccessPoint/Hostapd.antt =====
-- src/access_point_ctl/wifi_manager/hostapd_proc.rs: hostapd as a child process with a
-- configuration file. The file and the process are interfaces over one state `S`.
use webcam_direct_linux.Prelude.{Text, codes, ◌≡◌, arith, [], ◌∷◌, ◌++◌, Exec, ok, ◌>>◌}
use webcam_direct_linux.AccessPoint.Process.{Command, ProcessHdlOps}
use webcam_direct_linux.AccessPoint.FileHdl.{FileHdlOps}

pub record WifiCredentials : Type 0 where
  pub ssid : Text
  pub password : Text

pub record HostapdProcCtl (S : Type 0) : Type 0 where
  pub start : WifiCredentials → Text → Text → Exec S (Unit {0})
  pub stop : Exec S (Unit {0})

abbrev pub line : Text → Text
line text = text ++ 10 ∷ []

-- The configuration file's text.
unfoldable pub hostap_config : WifiCredentials → Text → Text → Text
hostap_config creds iw_name control_dir =
    line (codes "ctrl_interface=" ++ control_dir)
    ++ (line (codes "interface=" ++ iw_name)
        ++ (line (codes "driver=nl80211")
            ++ (line (codes "ssid=" ++ creds.ssid)
                ++ (line (codes "hw_mode=g")
                    ++ (line (codes "channel=6")
                        ++ (line (codes "wpa=2")
                            ++ (line (codes "wpa_passphrase=" ++ creds.password)
                                ++ (line (codes "wpa_key_mgmt=WPA-PSK")
                                    ++ (line (codes "rsn_pairwise=CCMP")
                                        ++ (line (codes "ieee80211n=1")
                                            ++ line (codes "wmm_enabled=1")))))))))))

-- `nmcli device set NAME managed no`.
abbrev pub unmanage : Text → Command
unmanage iw_name = record {
  program = codes "nmcli";
  args = codes "device" ∷ codes "set" ∷ iw_name ∷ codes "managed" ∷ codes "no" ∷ [];
}

abbrev pub hostapd : Text → Command
hostapd path = record { program = codes "hostapd"; args = path ∷ [] }

-- `output` runs a command to its end; whether it worked is only logged here.
module _ {S : Type 0} (config_file : FileHdlOps S) (process : ProcessHdlOps S)
    (output : Command → S → S) where
  unfoldable pub start : WifiCredentials → Text → Text → Exec S (Unit {0})
  start creds iw_name control_dir = do
    config_file.open_file
    config_file.write_data (hostap_config creds iw_name control_dir)
    (λ s.
        let path = config_file.get_path s in
        process.spawn (hostapd path) (output (unmanage iw_name) s))

  unfoldable pub stop : Exec S (Unit {0})
  stop = process.kill

  abbrev pub hostapd_proc : HostapdProcCtl S
  hostapd_proc = record { start = start; stop = stop }

  -- A start of hostapd that succeeds opened the configuration file, wrote the whole configuration,
  -- ran nmcli and spawned hostapd on that file, in this order.
  pub start-written :
      (creds : WifiCredentials) (iw_name control_dir : Text) (s s' : S)
      → start creds iw_name control_dir s ≡ (ok tt, s')
      → (s1 : S) × (s2 : S) × (config_file.open_file s ≡ (ok tt, s1))
        × (config_file.write_data (hostap_config creds iw_name control_dir) s1 ≡ (ok tt, s2))
        × (process.spawn (hostapd (config_file.get_path s2)) (output (unmanage iw_name) s2)
            ≡ (ok tt, s'))
  unfolding start
  start-written creds iw_name control_dir s s' h =
      let s1 = (config_file.open_file s).1 in
      let s2 = (config_file.write_data (hostap_config creds iw_name control_dir) s1).1 in
      (s1, s2, ground arith, ground arith, ground arith)
