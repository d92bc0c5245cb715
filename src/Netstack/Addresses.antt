-- ===== src/Netstack/Addresses.antt =====
-- The addresses of the interface in aether/src/netstack.rs: their texts, their prefixes, and the
-- gateways. The reader of addresses of std::net is an argument.
use aether_gui.Common.{
  ℕ, ◌≤◌, ◌≡◌, ◌≢◌, Option, none, some, List, [], ◌∷◌, ◌++◌, leb, ◌==◌, if◌then◌else◌,
}
use aether_gui.Common.Outcome.{Outcome, ok, err}
use aether_gui.Common.Text.{split_once, parse_uint, unwrap_or, is_empty}
use aether_gui.Error.{AetherError}
use aether_gui.Net.{IpAddr, v4, v6}

abbrev pub before_slash : List ℕ → Option (List ℕ × List ℕ) → List ℕ
before_slash s none = s
before_slash s (some (ip, rest)) = ip

unfoldable pub strip_cidr : List ℕ → List ℕ
strip_cidr s = before_slash s (split_once 47 [] s)

abbrev pub prefix_after : Option (List ℕ × List ℕ) → Option ℕ
prefix_after none = none
prefix_after (some (ip, rest)) = parse_uint 256 rest

unfoldable pub cidr_prefix : List ℕ → Option ℕ
cidr_prefix s = prefix_after (split_once 47 [] s)

-- An address with the length of its prefix, or none.
abbrev pub Cidr : Type 0
Cidr = Option (List ℕ × ℕ)

abbrev pub with_prefix : ℕ → List ℕ → Option (List ℕ) → Outcome AetherError Cidr
with_prefix full s none = err AetherError.other
with_prefix full s (some octets) = ok (some (octets, unwrap_or (cidr_prefix s) full))

unfoldable pub parse_v4 : (List ℕ → Option (List ℕ)) → List ℕ → Outcome AetherError Cidr
parse_v4 parse s = if is_empty s then ok none else with_prefix 32 s (parse (strip_cidr s))

unfoldable pub parse_v6 : (List ℕ → Option (List ℕ)) → List ℕ → Outcome AetherError Cidr
parse_v6 parse s = if is_empty s then ok none else with_prefix 128 s (parse (strip_cidr s))

unfoldable pub routable_prefix_v4 : ℕ → ℕ
routable_prefix_v4 p = if leb 31 p then 24 else p

unfoldable pub routable_prefix_v6 : ℕ → ℕ
routable_prefix_v6 p = if leb 127 p then 64 else p

-- The octets with the last, `o[3]` or `o[15]`, replaced by that of the gateway.
unfoldable pub gateway : List ℕ → List ℕ
gateway [] = []
gateway (last ∷ []) = (if last == 1 then 2 else 1) ∷ []
gateway (o ∷ next ∷ rest) = o ∷ gateway (next ∷ rest)

-- What the code sets of smoltcp's interface.
pub record Iface : Type 0 where
  pub addrs : List (IpAddr × ℕ)
  pub ipv4_route : Option (List ℕ)
  pub ipv6_route : Option (List ℕ)

abbrev pub cidr_v4 : Cidr → List (IpAddr × ℕ)
cidr_v4 none = []
cidr_v4 (some (ip, p)) = (v4 ip, routable_prefix_v4 p) ∷ []

abbrev pub cidr_v6 : Cidr → List (IpAddr × ℕ)
cidr_v6 none = []
cidr_v6 (some (ip, p)) = (v6 ip, routable_prefix_v6 p) ∷ []

-- A default route replaces the one before it.
abbrev pub route : Option (List ℕ) → Cidr → Option (List ℕ)
route before none = before
route before (some (ip, p)) = some (gateway ip)

unfoldable pub apply_addrs : Iface → Cidr → Cidr → Iface
apply_addrs iface ip4 ip6 = record {
  addrs = cidr_v4 ip4 ++ cidr_v6 ip6;
  ipv4_route = route iface.ipv4_route ip4;
  ipv6_route = route iface.ipv6_route ip6;
}

-- The prefix that `IpCidr::new` asks for, and room for hosts beside the network and its gateway.
abbrev pub IsRoutable : IpAddr × ℕ → Type 0
IsRoutable (v4 o, p) = p ≤ 30
IsRoutable (v6 o, p) = p ≤ 126

-- A gateway is a neighbour of the address: it differs from it in the last octet and nowhere else.
abbrev pub IsNeighbour : List ℕ → List ℕ → Type 0
IsNeighbour [] gw = ⊥
IsNeighbour (last ∷ []) (x ∷ []) = last ≢ x
IsNeighbour (last ∷ []) gw = ⊥
IsNeighbour (o ∷ next ∷ rest) [] = ⊥
IsNeighbour (o ∷ next ∷ rest) (x ∷ gw) = (o ≡ x) × IsNeighbour (next ∷ rest) gw
