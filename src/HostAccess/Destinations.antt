-- ===== src/HostAccess/Destinations.antt =====
-- internal/hostaccess/routes.go: the tests of one destination of a route.
use hydrascale.Common.{
  Bool, false, ◌||◌, Option, none, some, List, [], ◌∷◌, Text, txt, text_eq, mem, is_some,
}

-- net.ParseIP, net.ParseCIDR and IPNet.Contains of the Go library.
pub record Addresses : Type 1 where
  pub Ip : Type 0
  pub IpNet : Type 0
  pub parse_ip : Text → Option Ip
  pub parse_cidr : Text → Option (Ip × IpNet)
  pub contains_ip : IpNet → Ip → Bool

abbrev pub magic_dns : Text
magic_dns = txt "100.100.100.100"

abbrev pub exit_node_split_defaults : List Text
exit_node_split_defaults = txt "0.0.0.0/1" ∷ txt "128.0.0.0/1" ∷ txt "::/1" ∷ txt "8000::/1" ∷ []

unfoldable pub is_exit_node_split_default : Text → Bool
is_exit_node_split_default dest = mem dest exit_node_split_defaults

module _ (env : Addresses) where
  open env use {IpNet, parse_ip, parse_cidr, contains_ip}

  -- `validRouteDest`
  unfoldable pub valid_route_dest : Text → Bool
  valid_route_dest dest = is_some (parse_ip dest) || is_some (parse_cidr dest)

  -- The network of a CIDR text, where it parses.
  unfoldable pub net_of : Text → Option IpNet
  net_of cidr = elim (parse_cidr cidr) [ none ↦ none | some (ip, net) ↦ some net ]

  -- Whether a network holds the address of a destination.
  unfoldable pub in_net : Option IpNet → Text → Bool
  in_net none dest = false
  in_net (some net) dest = elim (parse_ip dest) [
    | some ip ↦ contains_ip net ip
    | none ↦ elim (parse_cidr dest) [ none ↦ false | some (ip, block) ↦ contains_ip net ip ]
  ]

  unfoldable pub is_cgnat : Text → Bool
  unfolding in_net net_of
  is_cgnat dest = in_net (net_of (txt "100.64.0.0/10")) dest

  unfoldable pub is_tailscale_v6 : Text → Bool
  unfolding in_net net_of
  is_tailscale_v6 dest = in_net (net_of (txt "fd7a:115c:a1e0::/48")) dest

  -- The test of the infra network, which reads the destination as a CIDR block first.
  unfoldable pub in_infra : Option IpNet → Text → Bool
  in_infra none dest = false
  in_infra (some net) dest = elim (parse_cidr dest) [
    | some (ip, block) ↦ contains_ip net ip
    | none ↦ elim (parse_ip dest) [ none ↦ false | some ip ↦ contains_ip net ip ]
  ]
