-- ===== src/AccessPoint/WifiManager.antt =====
-- src/access_point_ctl/wifi_manager/mod.rs: the Wi-Fi manager, over hostapd's process and its
-- control socket, two interfaces over one state `S` of what is outside.
use webcam_direct_linux.Prelude.{
  Text, ℕ, zero, suc, Option, Exec, Result, ok, err, panic, ok_or, lift, pure, ◌>>=◌, ◌>>◌,
}
use webcam_direct_linux.AccessPoint.Hostapd.{WifiCredentials, HostapdProcCtl}
use webcam_direct_linux.AccessPoint.WpaCtl.{WpaCtlClientOps}

pub record WifiManagerCtl (S : Type 0) : Type 0 where
  pub pause : Exec S (Unit {0})
  pub resume : Exec S (Unit {0})
  pub change_creds : WifiCredentials → Exec S (Unit {0})
  pub turnoff : Exec S (Unit {0})

-- `to_str` is `Path::to_str`: a path that is not Unicode has no text. `sleep` is a second's wait.
module _ {S : Type 0} (hostapd : HostapdProcCtl S) (wpa_ctl : WpaCtlClientOps S) where
  -- At most `tries` attempts to connect, up to the first that works; errors are dropped.
  unfoldable pub connect_tries : (S → S) → ℕ → S → Result (Unit {0}) × S
  connect_tries sleep zero s = (ok tt, s)
  connect_tries sleep (suc tries) s =
      let attempt = wpa_ctl.connect s in
      elim attempt.0 [
        | ok u ↦ (ok tt, attempt.1)
        | err e ↦ connect_tries sleep tries (sleep attempt.1)
        | panic ↦ (panic, attempt.1)
      ]

  unfoldable pub new : (Text → Option Text) → (S → S) → WifiCredentials → Exec S WifiCredentials
  new to_str sleep creds s =
      (do
        control_dir ← lift (ok_or (to_str (wpa_ctl.get_control_dir s)) "Invalid control directory")
        hostapd.start creds (wpa_ctl.get_iw_name s) control_dir
        connect_tries sleep 5
        wpa_ctl.disable
        pure creds)
        s

  unfoldable pub resume : Exec S (Unit {0})
  resume = wpa_ctl.enable

  unfoldable pub pause : Exec S (Unit {0})
  pause = wpa_ctl.disable

  unfoldable pub change_creds : WifiCredentials → Exec S (Unit {0})
  change_creds creds = do
    wpa_ctl.set_ssid creds.ssid
    wpa_ctl.set_password creds.password
    wpa_ctl.reload

  unfoldable pub turnoff : Exec S (Unit {0})
  turnoff = do hostapd.stop; wpa_ctl.disconnect

  abbrev pub wifi_manager : WifiManagerCtl S
  wifi_manager = record {
    pause = pause;
    resume = resume;
    change_creds = change_creds;
    turnoff = turnoff;
  }
