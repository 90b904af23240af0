-- ===== src/AccessPoint/Setup/Address.antt =====
-- src/main.rs, `setup_access_point`: what an access point that is up has.
use webcam_direct_linux.Prelude.{
  ℕ, ◌≡◌, refl, sym, subst, ◌>>◌, ap, ◌∙◌, arith, Text, codes, Option, some, Result, ok, err, panic,
  continue_ok, Result-cases, inl, inr,
}
use webcam_direct_linux.AccessPoint.{ApController, new, start_wifi, start_dhcp_server}
use webcam_direct_linux.AccessPoint.IpRange
use webcam_direct_linux.AccessPoint.IpRange.{
  DhcpIpRange, get_router_ip, check, from_str, from_parts, split_dots, octet, decimal,
}
use webcam_direct_linux.AccessPoint.IwLink as WirelessLink
use webcam_direct_linux.AccessPoint.IwLink.{IwLink, WirelessDriver}
use webcam_direct_linux.AccessPoint.Dhcp.{DhcpServerCtl}
use webcam_direct_linux.AccessPoint.Hostapd.{WifiCredentials, HostapdProcCtl}
use webcam_direct_linux.AccessPoint.WpaCtl.{WpaCtlClientOps}
use webcam_direct_linux.AccessPoint.WifiManager
use webcam_direct_linux.AccessPoint.Laws.{start_dhcp_server-started}
use webcam_direct_linux.AccessPoint.Setup.{
  Parts, Host, Objects, up, wcdirect0, first_ip, last_ip, default_creds, link_part, dhcp_part,
  wifi_part, start_all, setup_access_point, started_up, with_manager,
}

abbrev pub range : DhcpIpRange
range = record { start = first_ip; stop = last_ip }

range_made : IpRange.new first_ip last_ip ≡ ok range
unfolding IpRange.new check from_str from_parts split_dots octet decimal
range_made = refl

router_of_range : get_router_ip range ≡ ok (codes "193.168.3.1")
unfolding get_router_ip from_str from_parts split_dots octet decimal
router_of_range = refl

-- The link's name and the address that it remembers, which the driver was asked to add to its
-- interface, without an error.
abbrev pub RemembersAddress : {W : Type 0} → WirelessDriver W → IwLink W → Text → Type 0
RemembersAddress {W} drv l addr =
    (l.if_name ≡ wcdirect0)
    × (l.current_addr ≡ some addr)
    × ((w w' : W) × (drv.add_ipv4_addr l.if_idx addr w ≡ (ok tt, w')))

module _ {W : Type 0} (drv : WirelessDriver W) where
  new_name :
      (w w' : W) (l : IwLink W)
      → WirelessLink.new drv wcdirect0 w ≡ (ok l, w')
      → l.if_name ≡ wcdirect0
  unfolding WirelessLink.new
  new_name w w' l e = ground (arith, e)

  add_ipv4_addr-added :
      (addr : Text) (l l' : IwLink W)
      → WirelessLink.add_ipv4_addr drv addr l ≡ (ok tt, l')
      → (l'.if_name ≡ l.if_name)
        × (l'.current_addr ≡ some addr)
        × (l'.if_idx ≡ l.if_idx)
        × (drv.add_ipv4_addr l.if_idx addr l.driver ≡ (ok tt, l'.driver))
  unfolding WirelessLink.add_ipv4_addr
  add_ipv4_addr-added addr l l' e = ground (arith, e)

module _ {W D V : Type 0} (drv : WirelessDriver W) (dhcp_server : DhcpServerCtl D)
    (hostapd : HostapdProcCtl V) (wpactrl : WpaCtlClientOps V) where
  -- The range is one, and what is left is to start on it.
  start_all-range :
      (p : Parts W D V)
      → start_all drv dhcp_server hostapd wpactrl (new p)
        ≡ (start_dhcp_server
                (link_part drv dhcp_server hostapd wpactrl)
                (dhcp_part drv dhcp_server hostapd wpactrl)
                (wifi_part drv dhcp_server hostapd wpactrl)
                range
              >> start_wifi
                  (link_part drv dhcp_server hostapd wpactrl)
                  (dhcp_part drv dhcp_server hostapd wpactrl)
                  (wifi_part drv dhcp_server hostapd wpactrl))
            (new p)
  unfolding start_all IpRange.new check from_str from_parts split_dots octet decimal
  start_all-range p = refl

  -- What a start of everything that succeeds did: the router's address went to the link, the DHCP
  -- server was started on it, and then the manager was resumed.
  steps :
      (p : Parts W D V) (c : ApController (Parts W D V))
      → start_all drv dhcp_server hostapd wpactrl (new p) ≡ (ok tt, c)
      → (router : Text) × (t u : Parts W D V) × (get_router_ip range ≡ ok router)
        × ((link_part drv dhcp_server hostapd wpactrl).add_ipv4_addr router p ≡ (ok tt, t))
        × ((dhcp_part drv dhcp_server hostapd wpactrl).start
              ((link_part drv dhcp_server hostapd wpactrl).get_if_name t)
              range
              t
            ≡ (ok tt, u))
        × ((wifi_part drv dhcp_server hostapd wpactrl).resume u ≡ (ok tt, c.outside))
  unfolding start_wifi new
  steps p c e =
      let l = link_part drv dhcp_server hostapd wpactrl in
      let d = dhcp_part drv dhcp_server hostapd wpactrl in
      let m = wifi_part drv dhcp_server hostapd wpactrl in
      let first = start_dhcp_server l d m range (new p) in
      let (u, begun, rest) =
        continue_ok first.0 (λ v. start_wifi l d m) first.1 c tt (sym (start_all-range p) ∙ e) in
      let (router, t, asked, added, served, creds) =
        start_dhcp_server-started l d m range (new p) first.1
          (ap (λ (r : Result (Unit {0})). (r, first.1)) begun) in
      (
        router,
        t,
        first.1.outside,
        asked,
        added,
        served,
        ap (λ (r : Result (Unit {0}) × ApController (Parts W D V)). (r.0, r.1.outside)) rest,
      )

  -- Starting everything ends with the manager's part resumed.
  pub start_all_wifi :
      (p : Parts W D V) (c : ApController (Parts W D V))
      → start_all drv dhcp_server hostapd wpactrl (new p) ≡ (ok tt, c)
      → wpactrl.enable p.wifi ≡ (ok tt, c.outside.wifi)
  unfolding WifiManager.resume
  start_all_wifi p c e =
      let (router, t, u, asked, added, served, resumed) = steps p c e in
      let kept : p.wifi ≡ u.wifi =
        ap (λ (r : Result (Unit {0}) × Parts W D V). r.1.wifi) (added)
        ∙ ap (λ (r : Result (Unit {0}) × Parts W D V). r.1.wifi) served in
      ap wpactrl.enable kept ∙ ap (λ (r : Result (Unit {0}) × Parts W D V). (r.0, r.1.wifi)) resumed

  start_all-address :
      (p : Parts W D V) (c : ApController (Parts W D V))
      → p.link.if_name ≡ wcdirect0
      → start_all drv dhcp_server hostapd wpactrl (new p) ≡ (ok tt, c)
      → RemembersAddress drv c.outside.link (codes "193.168.3.1")
        × (dhcp_server.start wcdirect0 range p.dhcp ≡ (ok tt, c.outside.dhcp))
  unfolding WirelessLink.get_if_name
  start_all-address p c named e =
      let (router, t, u, asked, added, served, resumed) = steps p c e in
      let (same, address, index, asked_for) =
        add_ipv4_addr-added drv router p.link t.link
          (ap (λ (r : Result (Unit {0}) × Parts W D V). (r.0, r.1.link)) added) in
      let kept : t.link ≡ c.outside.link =
        ap (λ (r : Result (Unit {0}) × Parts W D V). r.1.link) served
        ∙ ap (λ (r : Result (Unit {0}) × Parts W D V). r.1.link) resumed in
      let is_router : router ≡ codes "193.168.3.1" = ground (arith, asked, router_of_range) in
      let sent : drv.add_ipv4_addr t.link.if_idx router p.link.driver ≡ (ok tt, t.link.driver) =
        ap (λ (i : ℕ). drv.add_ipv4_addr i router p.link.driver) index ∙ asked_for in
      let at_router : RemembersAddress drv t.link router =
        (same ∙ named, address, (p.link.driver, t.link.driver, sent)) in
      let name = same ∙ named in
      let same_dhcp : p.dhcp ≡ t.dhcp =
        ap (λ (r : Result (Unit {0}) × Parts W D V). r.1.dhcp) added in
      let begun : dhcp_server.start t.link.if_name range t.dhcp ≡ (ok tt, u.dhcp) =
        ap (λ (r : Result (Unit {0}) × Parts W D V). (r.0, r.1.dhcp)) served in
      let last : u.dhcp ≡ c.outside.dhcp =
        ap (λ (r : Result (Unit {0}) × Parts W D V). r.1.dhcp) resumed in
      (
        subst (λ k. RemembersAddress drv k (codes "193.168.3.1")) kept
            (subst (RemembersAddress drv t.link) is_router at_router),
        ap (λ (n : Text). dhcp_server.start n range p.dhcp) (sym name)
            ∙ ap (λ (d : D). dhcp_server.start t.link.if_name range d) same_dhcp
            ∙ begun
            ∙ ap (λ (d : D). (ok tt, d)) last,
      )

module _ {W D0 D V0 V : Type 0} (drv : WirelessDriver W) (dhcp_server : DhcpServerCtl D)
    (hostapd : HostapdProcCtl V) (wpactrl : WpaCtlClientOps V) (objects : Objects D0 D V0 V) where
  started_up-up :
      (r : Result (Unit {0})) (c ap' : ApController (Parts W D V))
      → started_up drv dhcp_server hostapd wpactrl objects r c ≡ up ap'
      → (r ≡ ok tt) × (c ≡ ap')
  started_up-up (ok u) c ap' e = (refl, ground (arith, e))
  started_up-up (err m) c ap' e = absurd (ground (arith, e))
  started_up-up panic c ap' e = absurd (ground (arith, e))

  with_manager-up :
      (r : Result WifiCredentials) (p : Parts W D V) (ap' : ApController (Parts W D V))
      → with_manager drv dhcp_server hostapd wpactrl objects r p ≡ up ap'
      → (kept : WifiCredentials) × (r ≡ ok kept)
        × (start_all drv dhcp_server hostapd wpactrl (new p) ≡ (ok tt, ap'))
  with_manager-up (ok creds) p ap' e =
      let run = start_all drv dhcp_server hostapd wpactrl (new p) in
      let (done, same) = started_up-up run.0 run.1 ap' e in
      (creds, refl, ground (arith, done, same))
  with_manager-up (err m) p ap' e = absurd (ground (arith, e))
  with_manager-up panic p ap' e = absurd (ground (arith, e))

  -- What an access point that is up went through: its link was made, then its manager, and then
  -- everything was started.
  pub setup_made :
      (to_str : Text → Option Text) (sleep : V → V) (host : Host W D0 V0)
      (c : ApController (Parts W D V))
      → setup_access_point drv dhcp_server hostapd wpactrl objects to_str sleep host ≡ up c
      → (link : IwLink W) × (w : W) × (kept : WifiCredentials) × (wifi : V) × (WirelessLink.new drv
            wcdirect0 host.driver
          ≡ (ok link, w))
        × (WifiManager.new hostapd wpactrl to_str sleep default_creds (
              objects.make_wifi
                (codes "/tmp/hostapd.conf")
                (codes "/tmp/hostapd")
                wcdirect0
                host.wifi)
            ≡ (ok kept, wifi))
        × (start_all drv dhcp_server hostapd wpactrl
              (new (record { link = link; dhcp = objects.make_dhcp host.dhcp; wifi = wifi }))
            ≡ (ok tt, c))
  unfolding setup_access_point
  setup_made to_str sleep host c e =
      let made = WirelessLink.new drv wcdirect0 host.driver in
      elim (Result-cases made.0) [
        | inl (link, linked) ↦
            let wifi =
              objects.make_wifi (codes "/tmp/hostapd.conf") (codes "/tmp/hostapd") wcdirect0
                host.wifi in
            let manager = WifiManager.new hostapd wpactrl to_str sleep default_creds wifi in
            let p : Parts W D V = record {
              link = link;
              dhcp = objects.make_dhcp host.dhcp;
              wifi = manager.1;
            } in
            let (kept, managed, run) = with_manager-up manager.0 p c (ground (arith, e, linked)) in
            (
              link,
              made.1,
              kept,
              manager.1,
              ap (λ (r : Result (IwLink W)). (r, made.1)) linked,
              ap (λ (r : Result WifiCredentials). (r, manager.1)) managed,
              run,
            )
        | inr (inl (m, failed)) ↦ absurd (ground (arith, e, failed))
        | inr (inr failed) ↦ absurd (ground (arith, e, failed))
      ]

  -- Where an access point was set up, its link has the name wcdirect0 and remembers the address
  -- 193.168.3.1, which the driver was asked to add to the link's interface without an error, and
  -- the DHCP server was started on wcdirect0 with the range; whatever the driver, the processes
  -- and the control socket do.
  pub setup_access_point-address :
      (to_str : Text → Option Text) (sleep : V → V) (host : Host W D0 V0)
      (c : ApController (Parts W D V))
      → setup_access_point drv dhcp_server hostapd wpactrl objects to_str sleep host ≡ up c
      → RemembersAddress drv c.outside.link (codes "193.168.3.1")
        × (dhcp_server.start wcdirect0 range (objects.make_dhcp host.dhcp)
            ≡ (ok tt, c.outside.dhcp))
  setup_access_point-address to_str sleep host c e =
      let (link, w, kept, wifi, linked, managed, run) = setup_made to_str sleep host c e in
      start_all-address drv dhcp_server hostapd wpactrl _ c (new_name drv host.driver w link linked)
        run
