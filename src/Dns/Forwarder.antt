-- ===== src/Dns/Forwarder.antt =====
-- internal/dns/forwarder.go: the routing of a query to an alias zone, to the server of a domain, or to
-- the next server of the host.
pub mod Home
use hydrascale.Common.{
  ℕ, zero, suc, ◌+◌, ◌%◌, Bool, true, false, not, ◌&&◌, ◌||◌, Option, none, some, List, [], ◌∷◌,
  ◌++◌, Text, txt, text_eq, ◌==◌, eqb, leb, if◌then◌else◌, length, Map, has_prefix, has_suffix,
  or_default, fields, trim_space, Result, ok, err,
}
use hydrascale.Dns.Alias.{
  AliasZone, Question, Reply, Match, plain_name, match_alias_zone, answer_alias, class_inet,
  server_failure, refused, is_empty,
}
use hydrascale.Dns.Listeners.{Listeners, Source, source_is_host}

abbrev pub default_bind_address : Text
default_bind_address = txt "127.0.0.53:5354"

-- The state of the forwarder; `round_robin` counts the queries that it sent to the host servers.
pub record Forwarder : Type 0 where
  pub upstreams : List Text
  pub domain_routes : Map Text Text
  pub alias_zones : Map Text AliasZone
  pub round_robin : ℕ

pub data ForwarderError : Type 0 where
  no_upstream : ForwarderError

-- `NewForwarder`, without its servers.
unfoldable pub new_forwarder : List Text → Result ForwarderError Forwarder
new_forwarder [] = err no_upstream
new_forwarder (u ∷ us) =
    ok (record { upstreams = u ∷ us; domain_routes = []; alias_zones = []; round_robin = 0 })

-- The loop over the domain routes.
unfoldable pub route_of : Map Text Text → Text → Text
route_of [] qname = []
route_of ((suffix, addr) ∷ routes) qname =
    let rest = route_of routes qname in
    if has_suffix qname suffix || qname == suffix then addr else rest

element_at : ℕ → List Text → Text
element_at n [] = []
element_at zero (u ∷ us) = u
element_at (suc n) (u ∷ us) = element_at n us

-- The server that a query goes to, with the counter after it.
unfoldable pub choose_upstream : Forwarder → List Question → Forwarder × Text
unfolding route_of element_at
choose_upstream f questions =
    let routed : Text = elim questions [
      | [] ↦ []
      | q ∷ qs ↦ route_of f.domain_routes (plain_name q.name)
    ] in
    if is_empty routed
    then (
      record f { round_robin = f.round_robin + 1 },
      element_at (f.round_robin % length f.upstreams) f.upstreams,
    )
    else (f, routed)

abbrev pub failed_reply : Reply
failed_reply = record { authoritative = false; rcode = server_failure; answer = [] }

-- The reply of an upstream server, from the client of the package miekg/dns.
abbrev pub Exchange : Type 0
Exchange = Text → List Question → Option Reply

-- The half of handleDNSRequest after the alias zones.
forward_query : Exchange → List Question → Forwarder → Forwarder × Reply
unfolding choose_upstream
forward_query exchange questions f =
    let (next, upstream) = choose_upstream f questions in
    let reply : Reply = elim (exchange (upstream ++ txt ":53") questions) [
      | none ↦ failed_reply
      | some r ↦ r
    ] in
    elim f.upstreams [ [] ↦ (f, failed_reply) | u ∷ us ↦ (next, reply) ]

-- The zone of a query with one question of the class INET.
unfoldable pub zone_of : Forwarder → List Question → Option (Match × Question)
zone_of f [] = none
zone_of f (q ∷ []) =
    let found : Option (Match × Question) = elim (match_alias_zone f.alias_zones q.name) [
      | none ↦ none
      | some m ↦ some (m, q)
    ] in
    if eqb q.qclass class_inet then found else none
zone_of f (q ∷ r ∷ qs) = none

-- `handleDNSRequest`
unfoldable pub handle_dns_request : Exchange → List Question → Forwarder → Forwarder × Reply
unfolding forward_query
handle_dns_request exchange questions f =
    let forwarded = forward_query exchange questions f in
    elim (zone_of f questions) [
      | none ↦ forwarded
      | some (m, q) ↦ (f, answer_alias m.zone m.host q)
    ]

-- `vethHandler`
unfoldable pub veth_handler :
    {P : Type 0}
    → Listeners P
    → Exchange
    → Option Source
    → List Question
    → Forwarder
    → Forwarder × Reply
veth_handler listeners exchange source questions f =
    let answered = handle_dns_request exchange questions f in
    if not (source_is_host listeners source)
    then (f, record { authoritative = false; rcode = refused; answer = [] })
    else answered

server_in : List Text → List Text
server_in (a ∷ b ∷ more) = if a == txt "nameserver" then b ∷ [] else []
server_in _ = []

-- `ParseResolvConf`, on the lines of the file.
unfoldable pub parse_resolv_conf : List Text → List Text
unfolding server_in
parse_resolv_conf [] = []
parse_resolv_conf (text ∷ lines) =
    let rest = parse_resolv_conf lines in
    let line = trim_space text in
    if has_prefix line (txt "#") || is_empty line then rest else server_in (fields line) ++ rest
