-- ===== src/AccessPoint/Nl80211/Scan.antt =====
-- src/access_point_ctl/iw_link/wdev_drv/nl80211_drv/mod.rs: which answers the loops of the driver
-- pick, and what the wireless link makes of it.
use webcam_direct_linux.Prelude.{
  ℕ, ◌≡◌, refl, arith, Text, List, [], ◌∷◌, ◌++◌, none, some, Result, ok, err, panic, anyhow,
}
use webcam_direct_linux.AccessPoint.IwLink as WirelessLink
use webcam_direct_linux.AccessPoint.Nl80211.Consts.{nl80211_genl_name, get_wi_phy}
use webcam_direct_linux.AccessPoint.Nl80211.Parser.{Nlattr, WiPhyProps, parse_nl80211_payload}
use webcam_direct_linux.AccessPoint.Nl80211.{
  Netlink, NlPayload, payload, nl_err, ack, NlmF, request, dump, generic, genl, ap_phy, scan,
  get_ap_wiphy_indx, nl80211_driver,
}

module _ {W Sock : Type 0} (netlink : Netlink W Sock) where
  -- A message that the search goes past: no attributes, or those of a device that gives no index
  -- for an access point.
  abbrev pub Passed : Result NlPayload → Type 0
  Passed (ok (payload attrs)) =
      (props : WiPhyProps) × (parse_nl80211_payload netlink.payloads attrs ≡ ok props)
      × (ap_phy props ≡ none)
  Passed (ok (nl_err e)) = Unit {0}
  Passed (ok ack) = Unit {0}
  Passed (err e) = ⊥
  Passed panic = ⊥

  abbrev pub AllPassed : List (Result NlPayload) → Type 0
  AllPassed [] = Unit {0}
  AllPassed (message ∷ messages) = Passed message × AllPassed messages

  scan-passed :
      (before messages : List (Result NlPayload))
      → AllPassed before
      → scan netlink (before ++ messages) none ≡ scan netlink messages none
  unfolding scan
  scan-passed [] messages p = refl
  scan-passed (ok (payload attrs) ∷ before) messages ((props, parsed, unfit), p) =
      ground (arith, parsed, unfit, scan-passed before messages p)
  scan-passed (ok (nl_err e) ∷ before) messages (u, p) = scan-passed before messages p
  scan-passed (ok ack ∷ before) messages (u, p) = scan-passed before messages p
  scan-passed (err e ∷ before) messages (o, p) = elim o [ ]
  scan-passed (panic ∷ before) messages (o, p) = elim o [ ]

  -- The first device that supports an access point and has an index is taken, whatever was
  -- answered after it. Every message before it is passed over: it has no attributes, or those of a
  -- device that gives no such index.
  pub scan-first :
      (before after : List (Result NlPayload)) (attrs : List Nlattr) (props : WiPhyProps) (i : ℕ)
      → AllPassed before
      → parse_nl80211_payload netlink.payloads attrs ≡ ok props
      → ap_phy props ≡ some i
      → scan netlink (before ++ ok (payload attrs) ∷ after) none ≡ ok (some i)
  unfolding scan
  scan-first before after attrs props i p parsed fit =
      ground (arith, scan-passed before (ok (payload attrs) ∷ after) p, parsed, fit)

  pub scan-none :
      (messages : List (Result NlPayload))
      → AllPassed messages
      → scan netlink messages none ≡ ok none
  unfolding scan
  scan-none [] p = refl
  scan-none (ok (payload attrs) ∷ messages) ((props, parsed, unfit), p) =
      ground (arith, parsed, unfit, scan-none messages p)
  scan-none (ok (nl_err e) ∷ messages) (u, p) = scan-none messages p
  scan-none (ok ack ∷ messages) (u, p) = scan-none messages p
  scan-none (err e ∷ messages) (o, p) = elim o [ ]
  scan-none (panic ∷ messages) (o, p) = elim o [ ]

  -- Where the kernel lists no device that supports an access point, there is no link, and nothing is
  -- asked of the kernel after the list.
  pub new-no_ap :
      (if_name : Text) (w w1 w2 w3 w4 : W) (sock : Sock) (nl_type : ℕ)
      (messages : List (Result NlPayload))
      → netlink.connect generic (some 0) w ≡ (ok sock, w1)
      → netlink.resolve_genl_family sock nl80211_genl_name w1 ≡ (ok nl_type, w2)
      → netlink.send sock
          (genl nl_type
            (request ∷ dump ∷ NlmF.ack ∷ [])
            1
            0
            (record { cmd = get_wi_phy; version = 1; attrs = [] }))
          w2
        ≡ (ok tt, w3)
      → netlink.iter sock w3 ≡ (messages, w4)
      → AllPassed messages
      → WirelessLink.new (nl80211_driver netlink) if_name w
        ≡ (anyhow "Failed to get wiphy index, the wireless driver does not support AP mode", w4)
  unfolding WirelessLink.new get_ap_wiphy_indx
  new-no_ap if_name w w1 w2 w3 w4 sock nl_type messages c r s i p =
      rw (c, r, s, i, scan-none messages p) refl
