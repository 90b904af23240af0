-- ===== src/AccessPoint/Nl80211/Consts.antt =====
-- src/access_point_ctl/iw_link/wdev_drv/nl80211_drv/nl80211_const.rs: the commands, attributes and
-- interface types of nl80211 that the driver knows. `unrecognized` is the variant that `neli_enum`
-- adds for every other number.
use webcam_direct_linux.Prelude.{ℕ, Text, codes}

pub data Nl80211Command : Type 0 where
  unspecified get_wi_phy new_interface del_interface : Nl80211Command
  unrecognized : ℕ → Nl80211Command

pub data Nl80211Attribute : Type 0 where
  unspecified wiphy wiphy_name ifindex ifname iftype supported_iftypes : Nl80211Attribute
  interface_combinations software_iftypes : Nl80211Attribute
  unrecognized : ℕ → Nl80211Attribute

pub data Nl80211Iftype : Type 0 where
  iftype_unspecified iftype_adhoc iftype_station iftype_ap iftype_ap_vlan iftype_wds : Nl80211Iftype
  iftype_monitor iftype_mesh_point iftype_p2p_client iftype_p2p_go iftype_p2p_device : Nl80211Iftype
  iftype_ocb iftype_nan num_iftypes iftype_max : Nl80211Iftype
  unrecognized : ℕ → Nl80211Iftype

abbrev pub nl80211_genl_name : Text
nl80211_genl_name = codes "nl80211"

-- `IftypeStation.into()`.
abbrev pub station_number : ℕ
station_number = 2
