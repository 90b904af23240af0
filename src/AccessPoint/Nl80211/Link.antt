-- ===== src/AccessPoint/Nl80211/Link.antt =====
-- src/access_point_ctl/iw_link/mod.rs over src/access_point_ctl/iw_link/wdev_drv/nl80211_drv/mod.rs:
-- what the link remembers of an address that the kernel refused.
use webcam_direct_linux.Prelude.{
  ◌≡◌, refl, Bytes, Text, List, [], ◌∷◌, none, some, Result, ok, err, panic, anyhow,
}
use webcam_direct_linux.AccessPoint.IwLink as WirelessLink
use webcam_direct_linux.AccessPoint.IwLink.{IwLink}
use webcam_direct_linux.AccessPoint.Nl80211.{
  Netlink, NlPayload, NlmF, request, excl, create, route, newaddr, receive, nl80211_driver,
}

module _ {W Sock : Type 0} (netlink : Netlink W Sock) where
  -- All that was received is messages, also such as report an error.
  abbrev pub Received : List (Result NlPayload) → Type 0
  Received [] = Unit {0}
  Received (ok message ∷ messages) = Received messages
  Received (err e ∷ messages) = ⊥
  Received (panic ∷ messages) = ⊥

  receive_lem :
      (messages : List (Result NlPayload)) → Received messages → receive netlink messages ≡ ok tt
  unfolding receive
  receive_lem [] p = refl
  receive_lem (ok message ∷ messages) p = receive_lem messages p
  receive_lem (err e ∷ messages) o = elim o [ ]
  receive_lem (panic ∷ messages) o = elim o [ ]

  -- On a link without an address, once the request is sent, an address counts as added whatever
  -- messages the kernel answers, a refusal too: the link remembers it, and every later address is
  -- refused without asking.
  pub add_ipv4_addr-unchecked :
      (addr addr' : Text) (octets local : Bytes) (l : IwLink W) (sock : Sock) (w1 w2 w3 : W)
      (messages : List (Result NlPayload))
      → l.current_addr ≡ none
      → netlink.octets addr ≡ ok octets
      → netlink.connect route none l.driver ≡ (ok sock, w1)
      → netlink.local_attr octets ≡ ok local
      → netlink.send sock
          (newaddr
            (excl ∷ create ∷ request ∷ NlmF.ack ∷ [])
            1
            0
            (record { ifa_prefixlen = 24; ifa_index = l.if_idx; local = local }))
          w1
        ≡ (ok tt, w2)
      → netlink.iter sock w2 ≡ (messages, w3)
      → Received messages
      → let l' = record l { driver = w3; current_addr = some addr } in
        (WirelessLink.add_ipv4_addr (nl80211_driver netlink) addr l ≡ (ok tt, l'))
        × (WirelessLink.add_ipv4_addr (nl80211_driver netlink) addr' l'
            ≡ (anyhow "Address already exists on interface", l'))
  unfolding WirelessLink.add_ipv4_addr webcam_direct_linux.AccessPoint.Nl80211.add_ipv4_addr
  add_ipv4_addr-unchecked addr addr' octets local l sock w1 w2 w3 messages free o c a s i p =
      (rw (free, o, c, a, s, i, receive_lem messages p) refl, refl)
