-- ===== src/AccessPoint/Laws.antt =====
-- The access point's controller (src/access_point_ctl/mod.rs) and the Wi-Fi manager
-- (wifi_manager/mod.rs) on the wireless link and the control socket as they are implemented.
use webcam_direct_linux.Prelude.{
  Text, ℕ, zero, suc, ◌≡◌, arith, ◌≢◌, refl, ◌⊎◌, inl, inr, some, ok, err, Result-cases, Option,
  Result, ap, ok_or, continue_ok, pure,
}
use webcam_direct_linux.AccessPoint.{ApController, set_creds, get_creds, start_dhcp_server}
use webcam_direct_linux.AccessPoint.IpRange.{DhcpIpRange, get_router_ip}
use webcam_direct_linux.AccessPoint.Dhcp.{DhcpServerCtl}
use webcam_direct_linux.AccessPoint.Hostapd.{WifiCredentials, HostapdProcCtl}
use webcam_direct_linux.AccessPoint.WifiManager
use webcam_direct_linux.AccessPoint.WifiManager.{WifiManagerCtl, connect_tries}
use webcam_direct_linux.AccessPoint.WpaCtl.{WpaCtlClientOps}
use webcam_direct_linux.AccessPoint.IwLink.{IwLinkHandler}

module _ {S : Type 0} (link : IwLinkHandler S) (dhcp : DhcpServerCtl S)
    (manager : WifiManagerCtl S) where
  -- The controller remembers credentials exactly when the manager took them: on an error or a
  -- panic that result is passed on, and the credentials that were remembered stay.
  pub get_creds-set_creds :
      (creds : WifiCredentials) (c : ApController S)
      → let (r, c') = set_creds link dhcp manager creds c in
        (r ≡ (manager.change_creds creds c.outside).0)
        × (((r ≡ ok tt) × (get_creds link dhcp manager c' ≡ some creds))
            ⊎ ((r ≢ ok tt) × (get_creds link dhcp manager c' ≡ get_creds link dhcp manager c)))
  unfolding set_creds get_creds
  get_creds-set_creds creds c = ground arith

  -- The DHCP server is started only on an interface that took the router's address: with that
  -- refused, the error is passed on and the server is not asked.
  pub start_dhcp_server-refused :
      (range : DhcpIpRange) (router : Text) (e : Text) (c : ApController S) (t : S)
      → get_router_ip range ≡ ok router
      → link.add_ipv4_addr router c.outside ≡ (err e, t)
      → start_dhcp_server link dhcp manager range c ≡ (err e, record c { outside = t })
  unfolding start_dhcp_server
  start_dhcp_server-refused range router e c t r h = ground arith

  -- A start that succeeds gave the router's address of the range to the link, and then started the
  -- server on the link's name with that range; the credentials are what they were.
  pub start_dhcp_server-started :
      (range : DhcpIpRange) (c c' : ApController S)
      → start_dhcp_server link dhcp manager range c ≡ (ok tt, c')
      → (router : Text) × (t : S) × (get_router_ip range ≡ ok router)
        × (link.add_ipv4_addr router c.outside ≡ (ok tt, t))
        × (dhcp.start (link.get_if_name t) range t ≡ (ok tt, c'.outside))
        × (get_creds link dhcp manager c' ≡ get_creds link dhcp manager c)
  unfolding start_dhcp_server get_creds
  start_dhcp_server-started range c c' h = elim (Result-cases (get_router_ip range)) [
    | inl (router, r) ↦
        let t = (link.add_ipv4_addr router c.outside).1 in
        (router, t, r, ground (arith, r), ground (arith, r), ground (arith, r))
    | inr (inl (e, r)) ↦ absurd (ground (arith, r))
    | inr (inr r) ↦ absurd (ground (arith, r))
  ]

module _ {S : Type 0} (hostapd : HostapdProcCtl S) (wpa_ctl : WpaCtlClientOps S) where
  -- An attempt that works ends the loop: no later attempt is made, whatever is left of the tries.
  pub connect_tries-connected :
      (sleep : S → S) (tries : ℕ) (s t : S)
      → wpa_ctl.connect s ≡ (ok tt, t)
      → connect_tries hostapd wpa_ctl sleep (suc tries) s ≡ (ok tt, t)
  unfolding connect_tries
  connect_tries-connected sleep tries s t e = ground arith

  -- Where no attempt works, the loop of connections still succeeds: it ends after its tries, and
  -- the Wi-Fi manager goes on without a connection.
  pub connect_tries-refused :
      (sleep : S → S) (refused : (s : S) → (e : Text) × ((wpa_ctl.connect s).0 ≡ err e)) (tries : ℕ)
      (s : S)
      → (connect_tries hostapd wpa_ctl sleep tries s).0 ≡ ok tt
  unfolding connect_tries
  connect_tries-refused sleep refused zero s = refl
  connect_tries-refused sleep refused (suc tries) s =
      let (e, r) = refused s in
      rw (connect_tries, r)
        (connect_tries-refused sleep refused tries (sleep (wpa_ctl.connect s).1))

  -- A manager that is made started hostapd with the credentials, went through the attempts to
  -- connect, and paused the broadcast.
  pub new-started :
      (to_str : Text → Option Text) (sleep : S → S) (creds kept : WifiCredentials) (s s' : S)
      → WifiManager.new hostapd wpa_ctl to_str sleep creds s ≡ (ok kept, s')
      → (dir : Text) × (a b : S) × (to_str (wpa_ctl.get_control_dir s) ≡ some dir)
        × (hostapd.start creds (wpa_ctl.get_iw_name s) dir s ≡ (ok tt, a))
        × (b ≡ (connect_tries hostapd wpa_ctl sleep 5 a).1)
        × (wpa_ctl.disable b ≡ (ok tt, s'))
  unfolding WifiManager.new
  new-started to_str sleep creds kept s s' e =
      let control_dir = ok_or (to_str (wpa_ctl.get_control_dir s)) "Invalid control directory" in
      let (dir, given, e1) = continue_ok control_dir _ s s' kept e in
      let a = hostapd.start creds (wpa_ctl.get_iw_name s) dir s in
      let (x, started, e2) = continue_ok a.0 _ a.1 s' kept e1 in
      let b = connect_tries hostapd wpa_ctl sleep 5 a.1 in
      let (y, tried, e3) = continue_ok b.0 _ b.1 s' kept e2 in
      let c = wpa_ctl.disable b.1 in
      let (z, paused, e4) = continue_ok c.0 (λ (u : Unit {0}). pure creds) c.1 s' kept e3 in
      (
        dir,
        a.1,
        b.1,
        named (to_str (wpa_ctl.get_control_dir s)) dir given,
        ap (λ (r : Result (Unit {0})). (r, a.1)) started,
        refl,
        ground (arith, paused, e4),
      )
    where
      named : (o : Option Text) (t : Text) → ok_or o "Invalid control directory" ≡ ok t → o ≡ some t
      named o t h = ground (arith, h)
