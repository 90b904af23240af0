-- ===== src/AccessPoint/IwLink.antt =====
-- src/access_point_ctl/iw_link/mod.rs: the wireless link. The driver (wdev_drv, over netlink) is
-- an interface over its state `W`.
use webcam_direct_linux.Prelude.{
  Text, ℕ, ◌≡◌, arith, Option, none, some, Exec, Result, ok, anyhow, ok_or, lift, on, ◌>>=◌, ◌>>◌,
}

pub record IwLinkHandler (S : Type 0) : Type 0 where
  pub add_ipv4_addr : Text → Exec S (Unit {0})
  pub get_if_name : S → Text

-- A wrapped `u16` that nothing is computed with.
abbrev pub InterfaceIndex : Type 0
InterfaceIndex = ℕ

pub record WirelessDriver (W : Type 0) : Type 0 where
  pub get_ap_wiphy_indx : Exec W (Option InterfaceIndex)
  pub create_new_link : Text → InterfaceIndex → Exec W (Option InterfaceIndex)
  pub add_ipv4_addr : InterfaceIndex → Text → Exec W (Unit {0})
  pub delete_link : InterfaceIndex → Exec W (Unit {0})

pub record IwLink (W : Type 0) : Type 0 where
  pub driver : W
  pub if_name : Text
  pub current_addr : Option Text
  pub if_idx : InterfaceIndex

module _ {W : Type 0} (drv : WirelessDriver W) where
  abbrev pub driver {ℓ} : {A : Type ℓ} → Exec W A → Exec (IwLink W) A
  driver = on (λ l. l.driver) (λ w l. record l { driver = w })

  -- A link comes back with the driver's state; without one only the driver's state does.
  unfoldable pub new : Text → W → Result (IwLink W) × W
  new if_name = do
    found ← drv.get_ap_wiphy_indx
    wiphy_idx ←
        lift (ok_or found "Failed to get wiphy index, the wireless driver does not support AP mode")
    made ← drv.create_new_link if_name wiphy_idx
    if_idx ← lift (ok_or made "Failed to create new link")
    (λ w. (ok (record { driver = w; if_name = if_name; current_addr = none; if_idx = if_idx }), w))

  unfoldable pub add_ipv4_addr : Text → Exec (IwLink W) (Unit {0})
  add_ipv4_addr addr l = elim l.current_addr [
    | some old ↦ (anyhow "Address already exists on interface", l)
    | none ↦
        (do
          driver (drv.add_ipv4_addr l.if_idx addr)
          (λ k. (ok tt, record k { current_addr = some addr })))
          l
  ]

  unfoldable pub get_if_name : IwLink W → Text
  get_if_name l = l.if_name

  -- A failure is only logged.
  unfoldable pub drop : IwLink W → IwLink W
  drop l = (driver (drv.delete_link l.if_idx) l).1

  abbrev pub iw_link : IwLinkHandler (IwLink W)
  iw_link = record { add_ipv4_addr = add_ipv4_addr; get_if_name = get_if_name }

  -- A link takes one address: after a successful add, every other is refused and changes nothing.
  pub add_ipv4_addr-again :
      (addr addr' : Text) (l l' : IwLink W)
      → add_ipv4_addr addr l ≡ (ok tt, l')
      → add_ipv4_addr addr' l' ≡ (anyhow "Address already exists on interface", l')
  unfolding add_ipv4_addr
  add_ipv4_addr-again addr addr' l l' e = ground arith
