-- ===== src/AccessPoint/Setup/OnAir.antt =====
-- src/main.rs, `setup_access_point`: an access point that is up is on the air.
use webcam_direct_linux.Prelude.{◌≡◌, refl, ap, ◌∙◌, Text, codes, Option, some}
use webcam_direct_linux.AccessPoint.{ApController}
use webcam_direct_linux.AccessPoint.Process.{Command, Processes}
use webcam_direct_linux.AccessPoint.FileHdl.{Files}
use webcam_direct_linux.AccessPoint.Dhcp.{DhcpServerCtl}
use webcam_direct_linux.AccessPoint.IwLink.{WirelessDriver}
use webcam_direct_linux.AccessPoint.WpaCtl.{Wpactrl}
use webcam_direct_linux.AccessPoint.WpaCtl as Control
use webcam_direct_linux.AccessPoint.Setup.{
  Parts, Host, Objects, up, wcdirect0, default_creds, setup_access_point,
}
use webcam_direct_linux.AccessPoint.Setup.Address.{setup_made, start_all_wifi}
use webcam_direct_linux.AccessPoint.Setup.Broadcasting.{
  WifiParts, daemon, control, in_world, make_wifi,
}
use webcam_direct_linux.AccessPoint.Setup.Launching.{IsLaunched}
use webcam_direct_linux.AccessPoint.Setup.Connecting.{
  IsTaken, IsOpened, new-IsLaunched, request-IsTaken,
}

module _ {W File Child Client Wd D0 D : Type 0} (fs : Files W File) (os : Processes W Child)
    (wpactrl : Wpactrl W Client) (output : Command → W → W) (drv : WirelessDriver Wd)
    (dhcp_server : DhcpServerCtl D) (make_dhcp : D0 → D) (drop_dhcp : D → D0)
    (drop_wifi : WifiParts W File Child Client → W) where
  abbrev pub objects : Objects D0 D W (WifiParts W File Child Client)
  objects = record {
    make_dhcp = make_dhcp;
    drop_dhcp = drop_dhcp;
    make_wifi = make_wifi;
    drop_wifi = drop_wifi;
  }

  -- An access point that was set up has written hostapd's configuration, with the default
  -- credentials, to its file, has started hostapd on that file behind nmcli, and still holds that
  -- process; it holds a client of hostapd's control socket, and the last thing that it did was to
  -- have the broadcast enabled, which was not refused. Waiting changes nothing but the world.
  pub setup_access_point_on_air :
      (to_str : Text → Option Text) (wait : W → W) (host : Host Wd D0 W)
      (c : ApController (Parts Wd D (WifiParts W File Child Client)))
      → setup_access_point drv dhcp_server
          (daemon fs os wpactrl output)
          (control fs os wpactrl output)
          objects
          to_str
          (in_world wait)
          host
        ≡ up c
      → let begin : WifiParts W File Child Client =
          make_wifi (codes "/tmp/hostapd.conf") (codes "/tmp/hostapd") wcdirect0 host.wifi in
        (dir : Text) × (launched paused : WifiParts W File Child Client) × (client : Client)
        × (to_str (codes "/tmp/hostapd") ≡ some dir)
        × IsLaunched fs os wpactrl output default_creds dir begin launched
        × (c.outside.wifi.child_process ≡ launched.child_process)
        × IsOpened fs os wpactrl output launched client
        × (c.outside.wifi.client ≡ some client)
        × IsTaken fs os wpactrl output (codes "ENABLE") paused c.outside.wifi
  unfolding make_wifi Control.enable
  setup_access_point_on_air to_str wait host c e =
      let Wifi = WifiParts W File Child Client in
      let (link, w, kept, wifi, linked, managed, run) =
        setup_made drv dhcp_server (daemon fs os wpactrl output) (control fs os wpactrl output)
          objects to_str (in_world wait) host c e in
      let (dir, u, client, named, launched, same, opened, is) =
        new-IsLaunched fs os wpactrl output to_str wait default_creds kept _ wifi refl refl refl
          managed in
      let taken = request-IsTaken fs os wpactrl output (codes "ENABLE") wifi c.outside.wifi (
        start_all_wifi drv dhcp_server (daemon fs os wpactrl output) (control fs os wpactrl output)
          (record { link = link; dhcp = make_dhcp host.dhcp; wifi = wifi }) c run) in
      let r = taken.reached in
      (
        dir,
        u,
        wifi,
        client,
        named,
        launched,
        ap (λ (x : Wifi). x.child_process) r ∙ same,
        opened,
        ap (λ (x : Wifi). x.client) r ∙ is,
        taken,
      )
