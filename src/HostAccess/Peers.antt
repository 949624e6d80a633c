-- ===== src/HostAccess/Peers.antt =====
-- internal/hostaccess/peers.go: the peers and the services of a tailnet, and the records of their names.
pub mod Labels
use hydrascale.Common.{
  ℕ, ◌-◌, Bool, true, false, not, ◌&&◌, ◌||◌, Option, none, some, List, [], ◌∷◌, ◌++◌, Text, txt,
  text_eq, ◌==◌, eqb, leb, text_leb, if◌then◌else◌, length, all, mem, Map, lookup, put, is_some,
  has_suffix, trim_suffix, trim_prefix, trim_space, take,
}
use hydrascale.Config.{is_lower, to_lower}
use hydrascale.HostAccess.Sync.{Peer, Service, TailnetPeers}

-- net.ParseIP: whether a text is an address, and then whether To4 answers one.
abbrev pub ParseIp : Type 0
ParseIp = Text → Option Bool

-- One node of the status of tailscale.
pub record Node : Type 0 where
  pub host_name : Text
  pub dns_name : Text
  pub tailscale_ips : List Text
  pub online : Bool

-- One service that the control server reported.
pub record ServiceEndpoint : Type 0 where
  pub name : Text
  pub addrs : List Text
  pub ports : List Text

-- The status of a tailnet, with the services that CollectServices reads from it.
pub record Status : Type 0 where
  pub magic_dns_suffix : Text
  pub split_dns_routes : List Text
  pub peer : List Node
  pub services : List ServiceEndpoint

-- strings.ReplaceAll(s, " ", "-")
spaces_to_dashes : Text → Text
spaces_to_dashes [] = []
spaces_to_dashes (c ∷ s) = (if eqb c 32 then 45 else c) ∷ spaces_to_dashes s

abbrev pub is_empty : Text → Bool
is_empty [] = true
is_empty (c ∷ s) = false

-- `aliasNameOf`
unfoldable pub alias_name_of : Text → Text → Text
alias_name_of dns_name suffix =
    let name = to_lower (trim_suffix dns_name (txt ".")) in
    let zone = to_lower (trim_suffix suffix (txt ".")) in
    if is_empty name || is_empty zone
    then []
    else if not (has_suffix name (txt "." ++ zone))
    then []
    else take (length name - length zone - 1) name

-- The addresses of the two families; the last one of a family stays.
addresses_of : ParseIp → List Text → Peer → Peer
addresses_of parse [] p = p
addresses_of parse (ip ∷ ips) p = elim (parse ip) [
  | none ↦ addresses_of parse ips p
  | some true ↦ addresses_of parse ips (record p { ipv4 = ip })
  | some false ↦ addresses_of parse ips (record p { ipv6 = ip })
]

peer_of : ParseIp → Text → Node → Peer
unfolding addresses_of spaces_to_dashes alias_name_of
peer_of parse suffix node = addresses_of parse node.tailscale_ips (record {
  hostname = spaces_to_dashes (to_lower node.host_name);
  alias_name = alias_name_of node.dns_name suffix;
  ipv4 = [];
  ipv6 = [];
  online = node.online;
})

unfoldable pub peers_of : ParseIp → Text → List Node → List Peer
unfolding peer_of
peers_of parse suffix [] = []
peers_of parse suffix (node ∷ nodes) =
    let rest = peers_of parse suffix nodes in
    let peer = peer_of parse suffix node in
    if not (is_empty peer.ipv4) || not (is_empty peer.ipv6) then peer ∷ rest else rest

abbrev is_digit : ℕ → Bool
is_digit c = leb b'0' c && leb c b'9'

abbrev pub is_label_char : ℕ → Bool
is_label_char c = is_lower c || is_digit c

-- Every other character becomes a hyphen.
hyphenate : Text → Text
hyphenate [] = []
hyphenate (c ∷ s) = (if is_label_char c then c else b'-') ∷ hyphenate s

-- strings.TrimLeft(s, "-") and strings.TrimRight(s, "-")
trim_left_dashes : Text → Text
trim_left_dashes [] = []
trim_left_dashes (c ∷ s) = let rest = trim_left_dashes s in if eqb c b'-' then rest else c ∷ s

trim_right_dashes : Text → Text
trim_right_dashes [] = []
trim_right_dashes (c ∷ s) =
    let rest = trim_right_dashes s in if is_empty rest && eqb c b'-' then [] else c ∷ rest

-- The end of the loop of ReplaceAll: one hyphen for each run of hyphens.
collapse : Text → Text
collapse [] = []
collapse (c ∷ []) = c ∷ []
collapse (c ∷ d ∷ s) =
    let rest = collapse (d ∷ s) in if eqb c b'-' && eqb d b'-' then rest else c ∷ rest

abbrev label_or_dash : ℕ → Bool
label_or_dash c = is_label_char c || eqb c b'-'

-- The last character is a letter or a digit.
abbrev ends_in_label : Text → Bool
ends_in_label [] = true
ends_in_label (c ∷ []) = is_label_char c
ends_in_label (c ∷ d ∷ s) = ends_in_label (d ∷ s)

-- `serviceLabelPattern`
unfoldable pub is_service_label : Text → Bool
is_service_label [] = false
is_service_label (c ∷ s) =
    is_label_char c && all label_or_dash s && leb (length s) 62 && ends_in_label s

-- `serviceLabel`
unfoldable pub service_label : Text → Text
unfolding hyphenate trim_left_dashes trim_right_dashes collapse
service_label raw =
    let name = trim_prefix (to_lower (trim_space raw)) (txt "svc:") in
    let label = collapse (trim_right_dashes (trim_left_dashes (hyphenate name))) in
    let short = if leb (length label) 63 then label else trim_right_dashes (take 63 label) in
    if is_service_label short then short else []

-- The addresses of a service.
service_addrs : ParseIp → List Text → Service → Service
service_addrs parse [] s = s
service_addrs parse (addr ∷ addrs) s = elim (parse addr) [
  | none ↦ service_addrs parse addrs s
  | some true ↦ service_addrs parse addrs (record s { ipv4 = s.ipv4 ++ addr ∷ [] })
  | some false ↦ service_addrs parse addrs (record s { ipv6 = s.ipv6 ++ addr ∷ [] })
]

abbrev no_addrs : List Text → Bool
no_addrs [] = true
no_addrs (a ∷ as') = false

-- A service under the label that it keeps.
named : ParseIp → Text → ServiceEndpoint → Service
unfolding service_addrs
named parse label endpoint =
    service_addrs parse endpoint.addrs
      (record { name = label; raw = endpoint.name; ipv4 = []; ipv6 = []; ports = endpoint.ports })

add_service : Service → List Service → List Service
add_service s rest = if no_addrs s.ipv4 && no_addrs s.ipv6 then rest else s ∷ rest

-- The loop of `parseServices`; `taken` holds the labels so far.
unfoldable pub label_services : ParseIp → List Text → List ServiceEndpoint → List Service
unfolding named add_service
label_services parse taken [] = []
label_services parse taken (endpoint ∷ endpoints) =
    let label = service_label endpoint.name in
    let skipped = label_services parse taken endpoints in
    let first =
      add_service (named parse label endpoint) (label_services parse (label ∷ taken) endpoints) in
    if is_empty label
    then skipped
    else if mem label taken
    then add_service (named parse [] endpoint) skipped
    else first

insert_service : Service → List Service → List Service
insert_service s [] = s ∷ []
insert_service s (t ∷ ts) =
    let rest = insert_service s ts in if text_leb s.name t.name then s ∷ t ∷ ts else t ∷ rest

unfoldable pub sort_services : List Service → List Service
unfolding insert_service
sort_services [] = []
sort_services (s ∷ ss) = insert_service s (sort_services ss)

-- `parseServices`
unfoldable pub parse_services : ParseIp → List ServiceEndpoint → List Service
unfolding label_services sort_services
parse_services parse endpoints = sort_services (label_services parse [] endpoints)

-- `ParsePeers`
unfoldable pub parse_peers :
    ParseIp → Text → Option Status → Text → Text → Text → Text → TailnetPeers
unfolding peers_of parse_services
parse_peers parse id status veth_gateway veth_host veth_host_ip ns =
    let bare : TailnetPeers = record {
      tailnet_id = id;
      magic_dns_suffix = [];
      split_dns_domains = [];
      peers = [];
      services = [];
      veth_gateway = veth_gateway;
      veth_host = veth_host;
      veth_host_ip = veth_host_ip;
      ns_name = ns;
    } in
    elim status [
      | none ↦ bare
      | some st ↦ record bare {
        magic_dns_suffix = st.magic_dns_suffix;
        split_dns_domains = st.split_dns_routes;
        peers = peers_of parse st.magic_dns_suffix st.peer;
        services = parse_services parse st.services;
      }
    ]
