-- ===== src/AccessPoint/Nl80211/Parser.antt =====
-- src/access_point_ctl/iw_link/wdev_drv/nl80211_drv/nl80211_parser.rs: the properties of a wireless
-- device that a message carries. `neli`'s decoding of an attribute's payload is an interface.
use webcam_direct_linux.Prelude.{
  ℕ, ◌≡◌, refl, arith, Bytes, Bool, true, false, List, [], ◌∷◌, Option, none, some, Result, ok,
  bind, Result-cases, inl, inr,
}
use webcam_direct_linux.Prelude.Fallible.{◌>>=◌}
use webcam_direct_linux.AccessPoint.Nl80211.Consts.{
  Nl80211Attribute, wiphy, ifindex, software_iftypes, Nl80211Iftype, iftype_ap, iftype_ap_vlan,
}

-- An attribute of a message, and `get_payload_as::<u16>` and the like.
pub record Nlattr : Type 0 where
  pub nla_type : Nl80211Attribute
  pub nla_payload : Bytes

pub record Payloads : Type 0 where
  pub as_u16 : Bytes → Result ℕ
  pub as_iftypes : Bytes → Result (List Nl80211Iftype)

pub record WiPhyProps : Type 0 where
  pub phy_idx : Option ℕ
  pub ap_supported : Option Bool
  pub if_idx : Option ℕ

abbrev pub no_props : WiPhyProps
no_props = record { phy_idx = none; ap_supported = none; if_idx = none }

abbrev pub is_ap : Nl80211Iftype → Bool
is_ap iftype_ap_vlan = true
is_ap iftype_ap = true
is_ap _ = false

-- `.find(..).map(|_| true)`.
unfoldable pub find_ap : List Nl80211Iftype → Option Bool
find_ap [] = none
find_ap (x ∷ xs) = elim (is_ap x) [ true ↦ some true | false ↦ find_ap xs ]

module _ (payloads : Payloads) where
  -- One round of the loop.
  unfoldable pub parse_attr : Nl80211Attribute → Bytes → WiPhyProps → Result WiPhyProps
  parse_attr wiphy bytes props = do
    n ← payloads.as_u16 bytes
    ok (record props { phy_idx = some n })
  parse_attr ifindex bytes props = do
    n ← payloads.as_u16 bytes
    ok (record props { if_idx = some n })
  parse_attr software_iftypes bytes props = do
    types ← payloads.as_iftypes bytes
    ok (record props { ap_supported = find_ap types })
  parse_attr _ bytes props = ok props

  unfoldable pub parse_attrs : List Nlattr → WiPhyProps → Result WiPhyProps
  parse_attrs [] props = ok props
  parse_attrs (attr ∷ attrs) props = do
    next ← parse_attr attr.nla_type attr.nla_payload props
    parse_attrs attrs next

  unfoldable pub parse_nl80211_payload : List Nlattr → Result WiPhyProps
  parse_nl80211_payload attrs = parse_attrs attrs no_props

  -- What the message says: each attribute read by itself.
  pub data Reading : Type 0 where
    phy_is if_is : ℕ → Reading
    types_are : List Nl80211Iftype → Reading
    ignored : Reading

  unfoldable pub reading : Nl80211Attribute → Bytes → Result Reading
  reading wiphy bytes = do n ← payloads.as_u16 bytes; ok (phy_is n)
  reading ifindex bytes = do n ← payloads.as_u16 bytes; ok (if_is n)
  reading software_iftypes bytes = do types ← payloads.as_iftypes bytes; ok (types_are types)
  reading _ bytes = ok ignored

  unfoldable pub readings : List Nlattr → Result (List Reading)
  readings [] = ok []
  readings (attr ∷ attrs) = do
    r ← reading attr.nla_type attr.nla_payload
    rest ← readings attrs
    ok (r ∷ rest)

  -- The last reading of a kind wins.
  unfoldable pub last_phy : List Reading → Option ℕ → Option ℕ
  last_phy [] old = old
  last_phy (phy_is n ∷ rs) old = last_phy rs (some n)
  last_phy (_ ∷ rs) old = last_phy rs old

  unfoldable pub last_if : List Reading → Option ℕ → Option ℕ
  last_if [] old = old
  last_if (if_is n ∷ rs) old = last_if rs (some n)
  last_if (_ ∷ rs) old = last_if rs old

  -- A list allows an access point if it has one, or one for a virtual LAN; any other says nothing.
  unfoldable pub allows : List Nl80211Iftype → Option Bool
  allows [] = none
  allows (iftype_ap ∷ types) = some true
  allows (iftype_ap_vlan ∷ types) = some true
  allows (_ ∷ types) = allows types

  find_ap-allows : (types : List Nl80211Iftype) → find_ap types ≡ allows types
  unfolding find_ap allows
  find_ap-allows [] = refl
  find_ap-allows (x ∷ types) = ground (arith, find_ap-allows types)

  unfoldable pub last_ap : List Reading → Option Bool → Option Bool
  last_ap [] old = old
  last_ap (types_are types ∷ rs) old = last_ap rs (allows types)
  last_ap (_ ∷ rs) old = last_ap rs old

  abbrev pub summary : List Reading → WiPhyProps → WiPhyProps
  summary rs props = record {
    phy_idx = last_phy rs props.phy_idx;
    ap_supported = last_ap rs props.ap_supported;
    if_idx = last_if rs props.if_idx;
  }

  -- One attribute sets what its reading says.
  parse_attr-reading :
      (t : Nl80211Attribute) (bytes : Bytes) (props : WiPhyProps)
      → parse_attr t bytes props ≡ bind (reading t bytes) (λ r. ok (summary (r ∷ []) props))
  unfolding parse_attr reading last_phy last_if last_ap
  parse_attr-reading t bytes props = elim (Result-cases (payloads.as_iftypes bytes)) [
    | inl (types, got) ↦ ground (arith, got, find_ap-allows types)
    | inr failed ↦ ground (arith, failed)
  ]

  summary-summary :
      (r : Reading) (rs : List Reading) (props : WiPhyProps)
      → summary rs (summary (r ∷ []) props) ≡ summary (r ∷ rs) props
  unfolding last_phy last_if last_ap
  summary-summary (phy_is n) rs props = refl
  summary-summary (if_is n) rs props = refl
  summary-summary (types_are types) rs props = refl
  summary-summary ignored rs props = refl

  parse_attrs-readings :
      (attrs : List Nlattr) (props : WiPhyProps)
      → parse_attrs attrs props ≡ bind (readings attrs) (λ rs. ok (summary rs props))
  unfolding parse_attrs readings last_phy last_if last_ap
  parse_attrs-readings [] props = refl
  parse_attrs-readings (attr ∷ attrs) props =
      let one = parse_attr-reading attr.nla_type attr.nla_payload props in
      elim (Result-cases (reading attr.nla_type attr.nla_payload)) [
        | inl (r, got) ↦ ground (
          arith,
          got,
          one,
          parse_attrs-readings attrs (summary (r ∷ []) props),
          λ (rs : List Reading). summary-summary r rs props,
        )
        | inr failed ↦ ground (arith, one, failed)
      ]

  -- A message is read as its attributes one by one, and the last one of each kind counts: a later
  -- list of interface types without an access point takes back what an earlier one allowed.
  pub parse_nl80211_payload_lem :
      (attrs : List Nlattr)
      → parse_nl80211_payload attrs ≡ bind (readings attrs) (λ rs. ok (summary rs no_props))
  unfolding parse_nl80211_payload
  parse_nl80211_payload_lem attrs = parse_attrs-readings attrs no_props
