-- ===== src/AccessPoint/IpRange/Checks.antt =====
-- Which ranges are accepted.
use webcam_direct_linux.Prelude.{
  ℕ, ◌≤◌, ◌≡◌, ◌↔◌, arith, Text, some, Option-cases, inl, inr, ok, List, [], ◌∷◌,
}
use webcam_direct_linux.AccessPoint.IpRange.{
  Ipv4Addr, DhcpIpRange, octet, from_parts, split_dots, from_str, check, new,
}

-- Two addresses that a range may run between: hosts of one /24 network other than its router, in
-- order.
abbrev pub IsRange : Ipv4Addr → Ipv4Addr → Type 0
IsRange s e = (s.a ≡ e.a) × (s.b ≡ e.b) × (s.c ≡ e.c) × (2 ≤ s.d) × (s.d ≤ e.d) × (e.d ≤ 254)

check_iff : (s e : Ipv4Addr) → s.d ≤ 255 → e.d ≤ 255 → (check s e ≡ ok tt) ↔ IsRange s e
unfolding check
check_iff s e hs he = ground arith

octet-le : (t : Text) (n : ℕ) → octet t ≡ some n → n ≤ 255
unfolding octet
octet-le [] n h = cc
octet-le (x ∷ []) n h = ground arith
octet-le (x ∷ y ∷ []) n h = ground arith
octet-le (x ∷ y ∷ z ∷ []) n h = ground arith
octet-le (x ∷ y ∷ z ∷ w ∷ t) n h = cc

from_parts-le : (ps : List Text) (x : Ipv4Addr) → from_parts ps ≡ some x → x.d ≤ 255
unfolding from_parts
from_parts-le (p ∷ q ∷ r ∷ s ∷ []) x h = elim (Option-cases (octet s)) [
  | inl e ↦ ground arith
  | inr (n, e) ↦ ground (arith, octet-le s n e)
]
from_parts-le _ x h = cc

-- For two texts that are addresses, a range is made of them exactly when they are hosts of one /24
-- network other than its router, in order; it holds the two texts.
pub new_iff :
    (start stop : Text) (s e : Ipv4Addr)
    → from_str start ≡ some s
    → from_str stop ≡ some e
    → (new start stop ≡ ok (record { start = start; stop = stop })) ↔ IsRange s e
unfolding new from_str
new_iff start stop s e hs he = ground (
  arith,
  check_iff s e,
  from_parts-le (split_dots start) s hs,
  from_parts-le (split_dots stop) e he,
)

-- Whatever is accepted is made of two addresses.
pub new-from_str :
    (start stop : Text) (range : DhcpIpRange)
    → new start stop ≡ ok range
    → (s : Ipv4Addr) × (e : Ipv4Addr) × (from_str start ≡ some s)
      × (from_str stop ≡ some e)
      × (range ≡ record { start = start; stop = stop })
      × IsRange s e
unfolding new
new-from_str start stop range h = elim (Option-cases (from_str start)) [
  | inl bad ↦ ground (arith, bad)
  | inr (s, es) ↦ elim (Option-cases (from_str stop)) [
    | inl bad ↦ ground (arith, bad)
    | inr (e, ee) ↦
        let accepted : (check s e ≡ ok tt) × (range ≡ record { start = start; stop = stop }) =
          ground (arith, es, ee) in
        (
          s,
          e,
          es,
          ee,
          accepted.1,
          (check_iff s e (unfold from_str in from_parts-le (split_dots start) s es)
                (unfold from_str in from_parts-le (split_dots stop) e ee)).0
              accepted.0,
        )
  ]
]
