-- ===== src/AccessPoint/Nl80211.antt =====
-- src/access_point_ctl/iw_link/wdev_drv/nl80211_drv/mod.rs: the wireless driver, over netlink.
-- The sockets are `neli`'s and the answers the kernel's: an interface over the state `W`. An index
-- of an interface is a `u16` (src/access_point_ctl/iw_link/wdev_drv/interface_index.rs).
pub mod Consts
pub mod Parser
pub mod Scan
pub mod Link
use webcam_direct_linux.Prelude.{
  ℕ, Text, Bytes, List, [], ◌∷◌, Option, none, some, Result, ok, err, panic, Exec, lift, pure,
  ◌>>=◌, ◌>>◌,
}
use webcam_direct_linux.AccessPoint.IwLink.{WirelessDriver}
use Consts.{
  Nl80211Command, get_wi_phy, new_interface, del_interface, Nl80211Attribute, wiphy, ifindex,
  ifname, iftype, nl80211_genl_name, station_number,
}
use Parser.{Nlattr, Payloads, WiPhyProps, no_props, parse_nl80211_payload}

pub data NlFamily : Type 0 where
  generic route : NlFamily

pub data NlmF : Type 0 where
  request dump ack excl create : NlmF

-- What an attribute of a request is made of.
pub data Value : Type 0 where
  num32 : ℕ → Value
  name : Text → Value
  nums16 : List ℕ → Value

pub record Genlmsghdr : Type 0 where
  pub cmd : Nl80211Command
  pub version : ℕ
  pub attrs : List Nlattr

-- `RtAddrFamily::Inet`, no flags and scope 0 throughout; the one attribute is `Ifa::Local`.
pub record Ifaddrmsg : Type 0 where
  pub ifa_prefixlen : ℕ
  pub ifa_index : ℕ
  pub local : Bytes

-- A request with its type (`GenlId`, or `Rtm::Newaddr`), `seq` and `pid`.
pub data Nlmsghdr : Type 0 where
  genl : ℕ → List NlmF → ℕ → ℕ → Genlmsghdr → Nlmsghdr
  newaddr : List NlmF → ℕ → ℕ → Ifaddrmsg → Nlmsghdr

-- The payload of an answer: `payload` has the attributes, `nl_err` the error's number, which only the
-- log tells apart, and `ack` stands for the others.
pub data NlPayload : Type 0 where
  payload : List Nlattr → NlPayload
  nl_err : ℕ → NlPayload
  ack : NlPayload

-- `iter` is what `sock.iter(false)` gives, one message after the other; `encode` is `Nlattr::new`,
-- `octets` the address of `Ipv4Addr::from_str`, and `local_attr` is `Rtattr::new`.
pub record Netlink (W Sock : Type 0) : Type 0 where
  pub connect : NlFamily → Option ℕ → Exec W Sock
  pub resolve_genl_family : Sock → Text → Exec W ℕ
  pub send : Sock → Nlmsghdr → Exec W (Unit {0})
  pub iter : Sock → W → List (Result NlPayload) × W
  pub encode : Nl80211Attribute → Value → Result Nlattr
  pub octets : Text → Result Bytes
  pub local_attr : Bytes → Result Bytes
  pub payloads : Payloads

-- `props.ap_supported.and_then(|_| props.phy_idx)`.
abbrev pub ap_phy : WiPhyProps → Option ℕ
ap_phy props = elim props.ap_supported [ none ↦ none | some b ↦ props.phy_idx ]

module _ {W Sock : Type 0} (netlink : Netlink W Sock) where
  abbrev pub answers : Sock → Exec W (List (Result NlPayload))
  answers sock w = let (messages, w') = netlink.iter sock w in (ok messages, w')

  -- The loop of `get_ap_wiphy_indx`, which leaves at the first index.
  unfoldable pub scan : List (Result NlPayload) → Option ℕ → Result (Option ℕ)
  scan [] phy_indx_opt = ok phy_indx_opt
  scan (ok (payload attrs) ∷ messages) phy_indx_opt =
      elim (parse_nl80211_payload netlink.payloads attrs) [
        | ok props ↦ elim (ap_phy props) [ some i ↦ ok (some i) | none ↦ scan messages none ]
        | err e ↦ err e
        | panic ↦ panic
      ]
  scan (ok (nl_err e) ∷ messages) phy_indx_opt = scan messages phy_indx_opt
  scan (ok ack ∷ messages) phy_indx_opt = scan messages phy_indx_opt
  scan (err e ∷ messages) phy_indx_opt = err e
  scan (panic ∷ messages) phy_indx_opt = panic

  -- The loop of `create_new_link` and `delete_link`, over the properties that the message before
  -- left.
  unfoldable pub read_props : List (Result NlPayload) → WiPhyProps → Result WiPhyProps
  read_props [] props = ok props
  read_props (ok (payload attrs) ∷ messages) props =
      elim (parse_nl80211_payload netlink.payloads attrs) [
        | ok next ↦ read_props messages next
        | err e ↦ err e
        | panic ↦ panic
      ]
  read_props (ok (nl_err e) ∷ messages) props = read_props messages props
  read_props (ok ack ∷ messages) props = read_props messages props
  read_props (err e ∷ messages) props = err e
  read_props (panic ∷ messages) props = panic

  -- The loop of `add_ipv4_addr`, which only logs the messages.
  unfoldable pub receive : List (Result NlPayload) → Result (Unit {0})
  receive [] = ok tt
  receive (ok message ∷ messages) = receive messages
  receive (err e ∷ messages) = err e
  receive (panic ∷ messages) = panic

  unfoldable pub get_ap_wiphy_indx : Exec W (Option ℕ)
  get_ap_wiphy_indx = do
    sock ← netlink.connect generic (some 0)
    nl_type ← netlink.resolve_genl_family sock nl80211_genl_name
    netlink.send sock (
        genl nl_type (request ∷ dump ∷ ack ∷ []) 1 0
          (record { cmd = get_wi_phy; version = 1; attrs = [] }))
    messages ← answers sock
    lift (scan messages none)

  unfoldable pub create_new_link : Text → ℕ → Exec W (Option ℕ)
  create_new_link if_name wiphy_idx = do
    sock ← netlink.connect generic (some 0)
    nl_type ← netlink.resolve_genl_family sock nl80211_genl_name
    wiphy_attr ← lift (netlink.encode wiphy (num32 wiphy_idx))
    name_attr ← lift (netlink.encode ifname (name if_name))
    type_attr ← lift (netlink.encode iftype (nums16 (station_number ∷ 0 ∷ [])))
    netlink.send sock (
        genl nl_type (request ∷ ack ∷ []) 1 0 (record {
          cmd = new_interface;
          version = 0;
          attrs = wiphy_attr ∷ name_attr ∷ type_attr ∷ [];
        }))
    messages ← answers sock
    props ← lift (read_props messages no_props)
    pure props.if_idx

  unfoldable pub delete_link : ℕ → Exec W (Unit {0})
  delete_link index = do
    sock ← netlink.connect generic (some 0)
    nl_type ← netlink.resolve_genl_family sock nl80211_genl_name
    index_attr ← lift (netlink.encode ifindex (num32 index))
    netlink.send sock (
        genl nl_type (request ∷ ack ∷ []) 1 0
          (record { cmd = del_interface; version = 1; attrs = index_attr ∷ [] }))
    messages ← answers sock
    props ← lift (read_props messages no_props)
    pure tt

  unfoldable pub add_ipv4_addr : ℕ → Text → Exec W (Unit {0})
  add_ipv4_addr index addr = do
    ipv4_addr ← lift (netlink.octets addr)
    sock ← netlink.connect route none
    local ← lift (netlink.local_attr ipv4_addr)
    netlink.send sock (
        newaddr (excl ∷ create ∷ request ∷ ack ∷ []) 1 0
          (record { ifa_prefixlen = 24; ifa_index = index; local = local }))
    messages ← answers sock
    lift (receive messages)

  abbrev pub nl80211_driver : WirelessDriver W
  nl80211_driver = record {
    get_ap_wiphy_indx = get_ap_wiphy_indx;
    create_new_link = create_new_link;
    add_ipv4_addr = add_ipv4_addr;
    delete_link = delete_link;
  }
