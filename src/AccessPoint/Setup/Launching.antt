-- ===== src/AccessPoint/Setup/Launching.antt =====
-- src/access_point_ctl/wifi_manager/hostapd_proc.rs on the implemented process and file: what a start
-- of hostapd does.
use webcam_direct_linux.Prelude.{
  ◌≡◌, sym, ap, ◌∙◌, arith, Text, some, none, ok, Result-cases, inl, inr, list_key, number_key,
}
use webcam_direct_linux.AccessPoint.Process as Process
use webcam_direct_linux.AccessPoint.Process.{Command, Processes}
use webcam_direct_linux.AccessPoint.FileHdl as ConfigFile
use webcam_direct_linux.AccessPoint.FileHdl.{Files, open_options}
use webcam_direct_linux.AccessPoint.Hostapd.{
  WifiCredentials, hostap_config, hostapd, unmanage, start-written,
}
use webcam_direct_linux.AccessPoint.WpaCtl.{Wpactrl}
use webcam_direct_linux.AccessPoint.Setup.Broadcasting.{
  WifiParts, config_file, process, daemon, in_world,
}

module _ {W File Child Client : Type 0} (fs : Files W File) (os : Processes W Child)
    (wpactrl : Wpactrl W Client) (output : Command → W → W) where
  -- From `v` to `v'`: the file is opened and the configuration written, hostapd is started on it
  -- once nmcli has run, and nothing else happens.
  pub record IsLaunched (creds : WifiCredentials) (control_dir : Text)
      (v v' : WifiParts W File Child Client) : Type 0 where
    pub file : File
    pub child : Child
    pub w1 : W
    pub w2 : W
    pub w3 : W
    pub w4 : W
    pub opened : fs.open_with open_options v.path v.world ≡ (ok file, w1)
    pub written : fs.write_all file (hostap_config creds v.iw_name control_dir) w1 ≡ (ok tt, w2)
    pub flushed : fs.flush file w2 ≡ (ok tt, w3)
    pub spawned : os.spawn (hostapd v.path) (output (unmanage v.iw_name) w3) ≡ (ok child, w4)
    pub reached : v' ≡ record v { file = some file; child_process = some child; world = w4 }

  open_file_fresh :
      (v v' : WifiParts W File Child Client)
      → v.file ≡ none
      → (config_file fs os wpactrl output).open_file v ≡ (ok tt, v')
      → (file : File) × (w : W) × (fs.open_with open_options v.path v.world ≡ (ok file, w))
        × (v' ≡ record v { file = some file; world = w })
  unfolding ConfigFile.open_file
  open_file_fresh v v' fresh e = elim (Result-cases (fs.open_with open_options v.path v.world).0) [
    | inl (file, r) ↦
        (file, (fs.open_with open_options v.path v.world).1, ground (arith, r), ground (arith, r))
    | inr (inl (m, r)) ↦ absurd (ground (arith, r))
    | inr (inr r) ↦ absurd (ground (arith, r))
  ]

  write_data_open :
      (bytes : Text) (v v' : WifiParts W File Child Client) (file : File)
      → v.file ≡ some file
      → (config_file fs os wpactrl output).write_data bytes v ≡ (ok tt, v')
      → (w w' : W) × (fs.write_all file bytes v.world ≡ (ok tt, w))
        × (fs.flush file w ≡ (ok tt, w'))
        × (v' ≡ record v { world = w' })
  unfolding ConfigFile.write_data ConfigFile.get_file
  write_data_open bytes v v' file open_ e =
      let w = (fs.write_all file bytes v.world).1 in
      (w, (fs.flush file w).1, ground arith, ground arith, ground arith)

  spawn_fresh :
      (cmd : Command) (v v' : WifiParts W File Child Client)
      → v.child_process ≡ none
      → (process fs os wpactrl output).spawn cmd v ≡ (ok tt, v')
      → (child : Child) × (w : W) × (os.spawn cmd v.world ≡ (ok child, w))
        × (v' ≡ record v { child_process = some child; world = w })
  unfolding Process.spawn
  spawn_fresh cmd v v' fresh e = elim (Result-cases (os.spawn cmd v.world).0) [
    | inl (child, r) ↦ (child, (os.spawn cmd v.world).1, ground (arith, r), ground (arith, r))
    | inr (inl (m, r)) ↦ absurd (ground (arith, r))
    | inr (inr r) ↦ absurd (ground (arith, r))
  ]

  -- A start of hostapd that succeeds, where no file is open and no process runs.
  pub start-IsLaunched :
      (creds : WifiCredentials) (control_dir : Text) (v v' : WifiParts W File Child Client)
      → v.file ≡ none
      → v.child_process ≡ none
      → (daemon fs os wpactrl output).start creds v.iw_name control_dir v ≡ (ok tt, v')
      → IsLaunched creds control_dir v v'
  unfolding ConfigFile.get_path
  start-IsLaunched creds control_dir v v' closed free e =
      let Parts = WifiParts W File Child Client in
      let nmcli = output (unmanage v.iw_name) in
      let (s1, s2, opens, writes, spawns) =
        start-written (config_file fs os wpactrl output) (process fs os wpactrl output)
          (λ cmd. in_world (output cmd)) creds v.iw_name control_dir v v' e in
      let (file, w1, opened, r1) = open_file_fresh v s1 closed opens in
      let (w2, w3, written, flushed, r2) =
        write_data_open (hostap_config creds v.iw_name control_dir) s1 s2 file
          (ap (λ (u : Parts). u.file) r1) writes in
      let r = r2 ∙ ap (λ (u : Parts). record u { world = w3 }) r1 in
      let (child, w4, spawned, r3) =
        spawn_fresh _ (in_world nmcli s2) v' (ap (λ (u : Parts). u.child_process) r ∙ free)
          spawns in
      record {
        file = file;
        child = child;
        w1 = w1;
        w2 = w2;
        w3 = w3;
        w4 = w4;
        opened = opened;
        written =
            ap
              (λ (u : Parts). fs.write_all file (hostap_config creds v.iw_name control_dir) u.world)
              (sym r1)
            ∙ written;
        flushed = flushed;
        spawned = ap (λ (u : Parts). os.spawn (hostapd u.path) (nmcli u.world)) (sym r) ∙ spawned;
        reached = r3 ∙ ap (λ (u : Parts). record u { child_process = some child; world = w4 }) r;
      }
