-- ===== src/AccessPoint/Setup/Broadcasting.antt =====
-- src/main.rs, `setup_access_point`: the Wi-Fi manager on hostapd's process, its configuration file
-- and its control socket as they are implemented, which share one world.
use webcam_direct_linux.Prelude.{Text, Option, Exec, on}
use webcam_direct_linux.AccessPoint.Process as Process
use webcam_direct_linux.AccessPoint.Process.{Command, Processes, ProcessHdl, ProcessHdlOps}
use webcam_direct_linux.AccessPoint.FileHdl as ConfigFile
use webcam_direct_linux.AccessPoint.FileHdl.{Files, FileHdl, FileHdlOps}
use webcam_direct_linux.AccessPoint.Hostapd.{HostapdProcCtl, hostapd_proc}
use webcam_direct_linux.AccessPoint.WpaCtl as Control
use webcam_direct_linux.AccessPoint.WpaCtl.{Wpactrl, WpaCtl, WpaCtlClientOps}

-- The objects that the manager owns, and the world around them.
pub record WifiParts (W File Child Client : Type 0) : Type 0 where
  pub path : Text
  pub file : Option File
  pub child_process : Option Child
  pub client : Option Client
  pub control_dir : Text
  pub iw_name : Text
  pub world : W

module _ {W File Child Client : Type 0} where
  abbrev pub file_part : WifiParts W File Child Client → FileHdl W File
  file_part v = record { path = v.path; file = v.file; world = v.world }

  abbrev pub process_part : WifiParts W File Child Client → ProcessHdl W Child
  process_part v = record { child_process = v.child_process; world = v.world }

  abbrev pub control_part : WifiParts W File Child Client → WpaCtl W Client
  control_part v = record {
    client = v.client;
    control_dir = v.control_dir;
    iw_name = v.iw_name;
    world = v.world;
  }

  abbrev pub of_file {ℓ} :
      {A : Type ℓ} → Exec (FileHdl W File) A → Exec (WifiParts W File Child Client) A
  of_file = on file_part (λ h v. record v { path = h.path; file = h.file; world = h.world })

  abbrev pub of_process {ℓ} :
      {A : Type ℓ} → Exec (ProcessHdl W Child) A → Exec (WifiParts W File Child Client) A
  of_process =
      on process_part (λ h v. record v { child_process = h.child_process; world = h.world })

  abbrev pub of_control {ℓ} :
      {A : Type ℓ} → Exec (WpaCtl W Client) A → Exec (WifiParts W File Child Client) A
  of_control = on control_part (λ c v. record v {
    client = c.client;
    control_dir = c.control_dir;
    iw_name = c.iw_name;
    world = c.world;
  })

  -- What waits only lets the world go on.
  abbrev pub in_world : (W → W) → WifiParts W File Child Client → WifiParts W File Child Client
  in_world f v = record v { world = f v.world }

  -- The objects before they are used.
  unfoldable pub make_wifi : Text → Text → Text → W → WifiParts W File Child Client
  unfolding ConfigFile.from_path Process.handler Control.new
  make_wifi path control_dir iw_name w =
      let file : FileHdl W File = ConfigFile.from_path path w in
      let process : ProcessHdl W Child = Process.handler w in
      let control : WpaCtl W Client = Control.new control_dir iw_name w in
      record {
        path = file.path;
        file = file.file;
        child_process = process.child_process;
        client = control.client;
        control_dir = control.control_dir;
        iw_name = control.iw_name;
        world = w;
      }

module _ {W File Child Client : Type 0} (fs : Files W File) (os : Processes W Child)
    (wpactrl : Wpactrl W Client) (output : Command → W → W) where
  abbrev pub config_file : FileHdlOps (WifiParts W File Child Client)
  config_file = record {
    open_file = of_file (ConfigFile.open_file fs);
    write_data = λ bytes. of_file (ConfigFile.write_data fs bytes);
    get_path = λ v. ConfigFile.get_path fs (file_part v);
  }

  abbrev pub process : ProcessHdlOps (WifiParts W File Child Client)
  process = record {
    spawn = λ cmd. of_process (Process.spawn os cmd);
    kill = of_process (Process.kill os);
  }

  -- hostapd's process, with its file.
  abbrev pub daemon : HostapdProcCtl (WifiParts W File Child Client)
  daemon = hostapd_proc config_file process (λ cmd. in_world (output cmd))

  -- The control socket.
  abbrev pub control : WpaCtlClientOps (WifiParts W File Child Client)
  control = record {
    connect = of_control (Control.connect wpactrl);
    disconnect = of_control (Control.disconnect wpactrl);
    enable = of_control (Control.enable wpactrl);
    disable = of_control (Control.disable wpactrl);
    set_ssid = λ ssid. of_control (Control.set_ssid wpactrl ssid);
    set_password = λ password. of_control (Control.set_password wpactrl password);
    reload = of_control (Control.reload wpactrl);
    get_iw_name = λ v. Control.get_iw_name wpactrl (control_part v);
    get_control_dir = λ v. Control.get_control_dir wpactrl (control_part v);
  }
