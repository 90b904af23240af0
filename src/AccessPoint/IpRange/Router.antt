-- ===== src/AccessPoint/IpRange/Router.antt =====
-- The router's address of a range.
use webcam_direct_linux.Prelude.{
  ℕ, ◌≡◌, refl, subst, arith, Text, codes, some, List, [], ◌∷◌, ◌++◌, ◌==◌, false, Bool-cases, inl,
  inr, ok,
}
use webcam_direct_linux.AccessPoint.IpRange.{
  Ipv4Addr, DhcpIpRange, dot, push, split_dots, octet, decimal, from_parts, from_str, new,
  get_router_ip,
}
use webcam_direct_linux.AccessPoint.IpRange.Checks.{new-from_str}

abbrev NoDot : Text → Type 0
NoDot [] = Unit {0}
NoDot (c ∷ s) = ((c == dot) ≡ false) × NoDot s

abbrev NoDots : List Text → Type 0
NoDots [] = Unit {0}
NoDots (p ∷ ps) = NoDot p × NoDots ps

push-NoDots : (c : ℕ) (ps : List Text) → (c == dot) ≡ false → NoDots ps → NoDots (push c ps)
push-NoDots c [] h n = ((h, tt), tt)
push-NoDots c (p ∷ ps) h n = ((h, n.0), n.1)

-- The parts hold no dot.
split_dots-NoDots : (s : Text) → NoDots (split_dots s)
unfolding split_dots
split_dots-NoDots [] = (tt, tt)
split_dots-NoDots (c ∷ s) = elim (Bool-cases (c == dot)) [
  | inl e ↦ rw e (tt, split_dots-NoDots s)
  | inr e ↦ rw e (push-NoDots c (split_dots s) e (split_dots-NoDots s))
]

-- A text without dots in front of a dot is the first part.
split_dots-append : (p s : Text) → NoDot p → split_dots (p ++ dot ∷ s) ≡ p ∷ split_dots s
unfolding split_dots
split_dots-append [] s n = refl
split_dots-append (c ∷ p) s n = rw (n.0, split_dots-append p s n.1)

-- The parts of an address.
from_parts-four :
    (ps : List Text) (x : Ipv4Addr)
    → from_parts ps ≡ some x
    → (p : Text) × (q : Text) × (r : Text) × (t : Text) × (ps ≡ p ∷ q ∷ r ∷ t ∷ [])
      × (octet p ≡ some x.a)
      × (octet q ≡ some x.b)
      × (octet r ≡ some x.c)
unfolding from_parts
from_parts-four (p ∷ q ∷ r ∷ t ∷ []) x h =
    (p, q, r, t, refl, ground arith, ground arith, ground arith)
from_parts-four [] x h = cc
from_parts-four (p ∷ []) x h = cc
from_parts-four (p ∷ q ∷ []) x h = cc
from_parts-four (p ∷ q ∷ r ∷ []) x h = cc
from_parts-four (p ∷ q ∷ r ∷ t ∷ u ∷ ps) x h = cc

router_parts :
    (p q r : Text)
    → NoDot p
    → NoDot q
    → NoDot r
    → split_dots (p ++ dot ∷ (q ++ dot ∷ (r ++ dot ∷ codes "1"))) ≡ p ∷ q ∷ r ∷ codes "1" ∷ []
router_parts p q r np nq nr =
    rw
      (
        split_dots-append p (q ++ dot ∷ (r ++ dot ∷ codes "1")) np,
        split_dots-append q (r ++ dot ∷ codes "1") nq,
        split_dots-append r (codes "1") nr,
      )
      (unfold split_dots in refl)

abbrev router_text : Text → Text → Text → Text
router_text p q r = p ++ dot ∷ (q ++ dot ∷ (r ++ dot ∷ codes "1"))

router_of_parts :
    (start stop p q r t : Text)
    → split_dots start ≡ p ∷ q ∷ r ∷ t ∷ []
    → get_router_ip (record { start = start; stop = stop }) ≡ ok (router_text p q r)
unfolding get_router_ip
router_of_parts start stop p q r t e = rw e

router_from_str :
    (p q r t : Text) (x : Ipv4Addr)
    → NoDots (p ∷ q ∷ r ∷ t ∷ [])
    → octet p ≡ some x.a
    → octet q ≡ some x.b
    → octet r ≡ some x.c
    → from_str (router_text p q r) ≡ some (record x { d = 1 })
unfolding from_str from_parts
router_from_str p q r t x n ep eq er =
    rw (router_parts p q r n.0 n.1.0 n.1.1.0, ep, eq, er) (unfold octet decimal in refl)

-- For a range that was made, the router's address is found without a panic, and parses as the
-- first address with its last octet set to 1.
pub get_router_ip-from_str :
    (start stop : Text) (range : DhcpIpRange)
    → new start stop ≡ ok range
    → (s : Ipv4Addr) × (router : Text) × (from_str start ≡ some s)
      × (get_router_ip range ≡ ok router)
      × (from_str router ≡ some (record s { d = 1 }))
get_router_ip-from_str start stop range h =
    let (s, _, es, _, made, _) = new-from_str start stop range h in
    let (p, q, r, t, parts, ep, eq, er) =
      from_parts-four (split_dots start) s (unfold from_str in es) in
    (
      s,
      router_text p q r,
      es,
      rw made (router_of_parts start stop p q r t parts),
      router_from_str p q r t s (subst NoDots parts (split_dots-NoDots start)) ep eq er,
    )
