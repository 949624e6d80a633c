-- ===== src/HostAccess/Manager.antt =====
-- internal/hostaccess/hostaccess.go: the host access manager, which keeps the active tailnets and the
-- names of their peers in step.
use hydrascale.Common.{
  ℕ, Bool, true, false, not, ◌&&◌, ◌||◌, Option, none, some, Answer, List, [], ◌∷◌, ◌++◌, map, Text,
  txt, text_eq, ◌==◌, if◌then◌else◌, mem, join, Map, keys, lookup, put, delete, or_default, is_some,
}
use hydrascale.Access.Compile.{sort_texts}
use hydrascale.Dns.Alias.{AliasZone, alias_zone_name}
use hydrascale.HostAccess.Sync.{TailnetPeers}
use hydrascale.HostAccess.Peers.{ParseIp, Status, parse_peers}
use hydrascale.HostAccess.Records.{
  Records, no_records, build_alias_records, build_dns_records, build_service_records,
  add_service_alias_records,
}
use hydrascale.HostAccess.Resolved.{Link, is_empty, register_domains, deregister_all}
use hydrascale.HostAccess.Hosts.{HostsFiles, update_hosts_file}
use hydrascale.HostAccess.Split.{
  AliasSettings, Claims, SplitDnsEntry, alias_of, zone_on, claim_all, split_all,
}

pub record Manager : Type 0 where
  pub active_tailnets : Map Text TailnetPeers
  pub alias_settings : AliasSettings
  pub split_report : Map Text SplitDnsEntry
  pub reported_conflicts : List Text
  pub registered : List Text

-- What SyncDNS gives the forwarder.
pub record Routing : Type 0 where
  pub domain_routes : Map Text Text
  pub alias_zones : Map Text AliasZone

-- The host of the manager: its routes (SyncHostRoutes, RemoveAllHostRoutes and RemoveHostRouteTable),
-- its forwarder (SetDomainRoutes, SetAliasZones and SyncListeners), its event recorder, and the commands
-- and files of the two DNS modes.
pub record HostAccessEnv (W : Type 0) : Type 0 where
  pub parse_ip : ParseIp
  pub quote : Text → Text
  pub sync_routes : TailnetPeers → W → W × Option Text
  pub remove_routes : Text → W → W × Option Text
  pub remove_table : W → W × Option Text
  pub route_names : Option (Routing → List Text → W → W × (List Text × Option Text))
  pub record_conflict : Text → Text → W → W
  pub files : HostsFiles W
  pub run : List Text → W → W × Answer
  -- true in the mode hosts
  pub hosts_mode : Bool
  pub hosts_path : Text

-- The active tailnets in the order of their identifiers.
unfoldable pub sorted_peers : Map Text TailnetPeers → List Text → List TailnetPeers
sorted_peers active [] = []
sorted_peers active (id ∷ ids) = elim (lookup id active) [
  | none ↦ sorted_peers active ids
  | some p ↦ p ∷ sorted_peers active ids
]

-- The records of b for the names that a does not hold.
add_new : Map Text Text → Map Text Text → Map Text Text
add_new [] m = m
add_new ((name, address) ∷ more) m =
    add_new more (if is_some (lookup name m) then m else put name address m)

-- The records of the hosts file.
unfoldable pub all_records : List TailnetPeers → Records → Records
unfolding add_new
all_records [] r = r
all_records (p ∷ ps) r =
    let peers = build_dns_records p.tailnet_id p.peers r in
    let services = build_service_records p.tailnet_id p.services no_records in
    all_records ps (record { v4 = add_new services.v4 peers.v4; v6 = add_new services.v6 peers.v6 })

abbrev has_suffix_route : TailnetPeers → Bool
has_suffix_route p = not (is_empty p.magic_dns_suffix) && not (is_empty p.veth_gateway)

no_domains : List Text → Bool
no_domains [] = true
no_domains (d ∷ ds) = false

-- The routes of the surviving domains.
route_domains : List Text → Text → Map Text Text → Map Text Text
route_domains [] gateway routes = routes
route_domains (d ∷ ds) gateway routes = route_domains ds gateway (put d gateway routes)

alias_zone_of : TailnetPeers → AliasZone
alias_zone_of p =
    let r = add_service_alias_records p.services (build_alias_records p.peers no_records) in
    record { v4 = r.v4; v6 = r.v6 }

-- The loop that builds the routes, the zones and the addresses to listen on.
unfoldable pub route_all :
    AliasSettings → List (TailnetPeers × Claims) → Routing → List Text → Routing × List Text
unfolding route_domains alias_zone_of
route_all a [] r listen = (r, listen)
route_all a ((p, c) ∷ rest) r listen =
    let zones =
      if zone_on a p
      then put (alias_zone_name (alias_of a p.tailnet_id)) (alias_zone_of p) r.alias_zones
      else r.alias_zones in
    let named =
      if has_suffix_route p
      then put p.magic_dns_suffix p.veth_gateway r.domain_routes
      else r.domain_routes in
    let routed =
      if is_empty p.veth_gateway then named else route_domains c.domains p.veth_gateway named in
    route_all a rest (record { domain_routes = routed; alias_zones = zones })
      (if zone_on a p then listen ++ p.veth_host_ip ∷ [] else listen)

-- The domains and the server of the link of one tailnet.
unfoldable pub link_of : AliasSettings → List Text → TailnetPeers → Claims → Link
link_of a live p c =
    let zone_up = zone_on a p && mem p.veth_host_ip live in
    record {
      device = p.veth_host;
      address = if zone_up then p.veth_host_ip else p.veth_gateway;
      domains =
          (if has_suffix_route p then p.magic_dns_suffix ∷ [] else [])
          ++ (if zone_up then alias_zone_name (alias_of a p.tailnet_id) ∷ [] else [])
          ++ (if is_empty p.veth_gateway then [] else c.domains);
    }

-- Whether a tailnet is registered at all.
abbrev registers : AliasSettings → TailnetPeers → Claims → Bool
registers a p c =
    not (is_empty p.veth_host)
    && (zone_on a p
        || has_suffix_route p
        || (not (no_domains c.domains) && not (is_empty p.veth_gateway)))

-- The links that RegisterDomains gets.
unfoldable pub links_of : AliasSettings → List Text → List (TailnetPeers × Claims) → List Link
unfolding link_of no_domains
links_of a live [] = []
links_of a live ((p, c) ∷ rest) =
    let more = links_of a live rest in
    let l = link_of a live p c in
    if not (registers a p c)
    then more
    else if is_empty l.address || no_domains l.domains
    then more
    else l ∷ more

-- The messages of the conflicts with their tailnets.
conflicts_of : List (TailnetPeers × Claims) → List (Text × Text)
conflicts_of [] = []
conflicts_of ((p, c) ∷ rest) =
    map (λ message. (message, p.tailnet_id)) c.conflicts ++ conflicts_of rest

report_of : List (TailnetPeers × Claims) → Map Text SplitDnsEntry
report_of [] = []
report_of ((p, c) ∷ rest) =
    (p.tailnet_id, record { tailnet_id = p.tailnet_id; domains = c.domains; conflict = c.conflict })
    ∷ report_of rest

abbrev labelled : Text → Option Text → List Text
labelled label none = []
labelled label (some e) = (label ++ e) ∷ []

-- errors.Join; none is nil.
abbrev joined : List Text → Option Text
joined [] = none
joined (e ∷ es) = some (join (e ∷ es) (10 ∷ []))

insert_conflict : Text × Text → List (Text × Text) → List (Text × Text)
insert_conflict e [] = e ∷ []
insert_conflict e (f ∷ fs) =
    let rest = insert_conflict e fs in
    if hydrascale.Common.text_leb e.0 f.0 then e ∷ f ∷ fs else f ∷ rest

sort_conflicts : List (Text × Text) → List (Text × Text)
unfolding insert_conflict
sort_conflicts [] = []
sort_conflicts (e ∷ es) = insert_conflict e (sort_conflicts es)

module _ {W : Type 0} (env : HostAccessEnv W) where
  -- The events of the conflicts that the last sync did not report.
  record_conflicts : List Text → List (Text × Text) → W → W
  record_conflicts reported [] w = w
  record_conflicts reported ((message, id) ∷ more) w =
      record_conflicts reported more
        (if mem message reported then w else env.record_conflict id message w)

  -- The forwarder: the addresses that answer, and its failure.
  route_names_of : Routing → List Text → W → W × (List Text × Option Text)
  route_names_of routing listen w = elim env.route_names [
    | none ↦ (w, ([], none))
    | some route ↦ route routing listen w
  ]

  -- The two DNS modes.
  write_names : Records → List Link → List Text → W → W × List Text × List Text
  write_names records links registered w =
      let (w1, e1) = update_hosts_file env.files env.hosts_path records w in
      let (w2, devices, e2) =
        register_domains env.run (λ ip. is_some (env.parse_ip ip)) env.quote links registered w in
      if env.hosts_mode
      then (w1, registered, labelled (txt "host-access: failed to update hosts file: ") e1)
      else (w2, devices, labelled (txt "host-access: resolved registration failed: ") (joined e2))

  -- `syncDNS`: the manager and the failures.
  unfoldable pub sync_dns : W → Manager → W × Manager × List Text
  unfolding sorted_peers all_records route_all links_of conflicts_of report_of sort_conflicts
      record_conflicts route_names_of write_names
  sync_dns w m =
      let peers = sorted_peers m.active_tailnets (sort_texts (keys m.active_tailnets)) in
      let split = split_all peers (claim_all m.alias_settings peers []) in
      let conflicts = conflicts_of split in
      let records = all_records peers no_records in
      let (routing, listen) =
        route_all m.alias_settings split (record { domain_routes = []; alias_zones = [] }) [] in
      let w1 = record_conflicts m.reported_conflicts (sort_conflicts conflicts) w in
      let (w2, live) = route_names_of routing listen w1 in
      let (w3, devices, errors) =
        write_names records (links_of m.alias_settings live.0 split) m.registered w2 in
      (
        w3,
        record m {
          split_report = report_of split;
          reported_conflicts = map (λ (c : Text × Text). c.0) conflicts;
          registered = devices;
        },
        labelled (txt "host-access: alias listener sync failed: ") live.1 ++ errors,
      )

  -- `Sync`, whose failures are logged.
  unfoldable pub sync : Text → Option Status → Text → Text → Text → Text → W → Manager → W × Manager
  unfolding sync_dns
  sync id status veth_gateway veth_host veth_host_ip ns w m =
      let peers = parse_peers env.parse_ip id status veth_gateway veth_host veth_host_ip ns in
      let active = record m { active_tailnets = put id peers m.active_tailnets } in
      let (w1, e1) = env.sync_routes peers w in
      let (w2, next, errors) = sync_dns w1 active in
      elim status [ none ↦ (w, m) | some st ↦ (w2, next) ]

  remove_of : Text → Option TailnetPeers → W → W × List Text
  remove_of id none w = (w, [])
  remove_of id (some p) w =
      let (next, failed) = env.remove_routes p.veth_host w in
      (next, labelled (txt "remove the host routes of " ++ id ++ txt ": ") failed)

  -- `Teardown`
  unfoldable pub teardown : Text → W → Manager → W × Manager × List Text
  unfolding remove_of sync_dns
  teardown id w m =
      let (w1, e1) = remove_of id (lookup id m.active_tailnets) w in
      let left = record m { active_tailnets = delete id m.active_tailnets } in
      let (w2, next, e2) = sync_dns w1 left in (w2, next, e1 ++ e2)

  remove_each : Map Text TailnetPeers → W → W × List Text
  unfolding remove_of
  remove_each [] w = (w, [])
  remove_each ((id, p) ∷ more) w =
      let (w1, e1) = remove_of id (some p) w in let (w2, e2) = remove_each more w1 in (w2, e1 ++ e2)

  deregister : List Text → W → W × List Text × List Text
  deregister registered w =
      if env.hosts_mode then (w, registered, []) else deregister_all env.run registered w

  -- `TeardownAll`
  unfoldable pub teardown_all : W → Manager → W × Manager × List Text
  unfolding remove_each sync_dns deregister
  teardown_all w m =
      let (w1, e1) = remove_each m.active_tailnets w in
      let (w2, next, e2) = sync_dns w1 (record m { active_tailnets = [] }) in
      let (w3, devices, e3) = deregister next.registered w2 in
      let (w4, e4) = env.remove_table w3 in
      (w4, record next { registered = devices }, e1 ++ e2 ++ e3 ++ labelled [] e4)
