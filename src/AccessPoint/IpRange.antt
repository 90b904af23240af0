-- ===== src/AccessPoint/IpRange.antt =====
-- src/access_point_ctl/dhcp_server/ip_range.rs: the range of addresses that the DHCP server hands
-- out, within one /24 network. A text is its ASCII codes; `Ipv4Addr::from_str` and `split` of the
-- standard library are modelled as far as they are used.
pub mod Checks
pub mod Router
use webcam_direct_linux.Prelude.Fallible.{◌>>=◌, ◌>>◌}
use webcam_direct_linux.Prelude.{
  ℕ, zero, suc, ◌+◌, ◌-◌, ◌*◌, Text, codes, Option, none, some, List, [], ◌∷◌, ◌++◌, Bool, true,
  false, ◌&&◌, ◌||◌, ltb, leb, ◌==◌, if◌then◌else◌, Result, ok, err, panic, anyhow, ok_or,
  get_elem?,
}

abbrev pub dot : ℕ
dot = 46

pub record Ipv4Addr : Type 0 where
  pub a : ℕ
  pub b : ℕ
  pub c : ℕ
  pub d : ℕ

abbrev pub push : ℕ → List Text → List Text
push c [] = (c ∷ []) ∷ []
push c (part ∷ parts) = (c ∷ part) ∷ parts

-- `split('.')`.
unfoldable pub split_dots : Text → List Text
split_dots [] = [] ∷ []
split_dots (c ∷ s) = let rest = split_dots s in if c == dot then [] ∷ rest else push c rest

abbrev pub digit : ℕ → Option ℕ
digit c = if leb 48 c && leb c 57 then some (c - 48) else none

unfoldable pub decimal : ℕ → Text → Option ℕ
decimal n [] = some n
decimal n (c ∷ s) = elim (digit c) [ none ↦ none | some k ↦ decimal (n * 10 + k) s ]

-- One to three digits, with no zero in front of another digit, and at most 255.
abbrev pub small : Option ℕ → Option ℕ
small none = none
small (some n) = if leb n 255 then some n else none

unfoldable pub octet : Text → Option ℕ
octet [] = none
octet (x ∷ []) = small (decimal 0 (x ∷ []))
octet (x ∷ y ∷ []) = if x == 48 then none else small (decimal 0 (x ∷ y ∷ []))
octet (x ∷ y ∷ z ∷ []) = if x == 48 then none else small (decimal 0 (x ∷ y ∷ z ∷ []))
octet _ = none

abbrev pub join_octets : Option ℕ → Option ℕ → Option ℕ → Option ℕ → Option Ipv4Addr
join_octets (some a) (some b) (some c) (some d) = some (record { a = a; b = b; c = c; d = d })
join_octets _ _ _ _ = none

unfoldable pub from_parts : List Text → Option Ipv4Addr
from_parts (p ∷ q ∷ r ∷ s ∷ []) = join_octets (octet p) (octet q) (octet r) (octet s)
from_parts _ = none

unfoldable pub from_str : Text → Option Ipv4Addr
from_str s = from_parts (split_dots s)

-- The order of addresses is that of their octets.
abbrev pub greater : Ipv4Addr → Ipv4Addr → Bool
greater x y =
    ltb y.a x.a
    || (x.a == y.a && (ltb y.b x.b || (x.b == y.b && (ltb y.c x.c || (x.c == y.c && ltb y.d x.d)))))

abbrev pub same_subnet : Ipv4Addr → Ipv4Addr → Bool
same_subnet x y = x.a == y.a && (x.b == y.b && x.c == y.c)

pub record DhcpIpRange : Type 0 where
  pub start : Text
  pub stop : Text

-- The checks on the two parsed addresses, in their order.
unfoldable pub check : Ipv4Addr → Ipv4Addr → Result (Unit {0})
check start_ip end_ip =
    if start_ip.d == 0 || (start_ip.d == 255 || (end_ip.d == 0 || end_ip.d == 255))
    then anyhow "IP addresses cannot be the network or broadcast address"
    else if start_ip.d == 1 || end_ip.d == 1
    then anyhow "IP addresses cannot be the router's IP address"
    else if same_subnet start_ip end_ip
    then (if greater start_ip end_ip
        then anyhow "Start IP address must be less than or equal to end IP address"
        else ok tt)
    else anyhow "IP addresses are not in the same /24 subnet"

unfoldable pub new : Text → Text → Result DhcpIpRange
new start stop = do
  start_ip ← ok_or (from_str start) "Invalid start IP address"
  end_ip ← ok_or (from_str stop) "Invalid end IP address"
  check start_ip end_ip
  ok (record { start = start; stop = stop })

-- Indexing past the parts panics.
abbrev pub index : List Text → ℕ → Result Text
index parts i = elim (get_elem? parts i) [ some part ↦ ok part | none ↦ panic ]

unfoldable pub get_router_ip : DhcpIpRange → Result Text
get_router_ip range = do
  p ← index (split_dots range.start) 0
  q ← index (split_dots range.start) 1
  r ← index (split_dots range.start) 2
  ok (p ++ dot ∷ (q ++ dot ∷ (r ++ dot ∷ codes "1")))

unfoldable pub get_start_ip : DhcpIpRange → Text
get_start_ip range = range.start

unfoldable pub get_end_ip : DhcpIpRange → Text
get_end_ip range = range.stop
