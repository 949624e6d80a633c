-- ===== src/HostAccess/Sync.antt =====
-- internal/hostaccess/routes.go: the commands that write the host routes.
pub mod Write
pub mod Remove
use hydrascale.Common.{
  ℕ, Bool, true, false, not, ◌&&◌, ◌||◌, ◌≡◌, refl, Option, none, some, Answer, List, [], ◌∷◌, ◌++◌,
  Text, txt, text_eq, same_text, ◌==◌, eqb, itoa, mem, is_some, if◌then◌else◌, has_prefix, contains,
  join,
}
use hydrascale.HostAccess.Destinations.{Addresses, valid_route_dest}
use hydrascale.HostAccess.Tables.{
  table_is_empty, parse_host_routes, parse_host_routes_v6, parse_table_routes,
  parse_table_routes_v6, parse_route_get_output, host_route_rule_priority, host_route_rule_state,
}
use hydrascale.HostAccess.Sets.{diff_routes, merge_routes}

-- `Manager.run` of the command `ip`, on a host `W`.
abbrev pub Runner : Type 0 → Type 0
Runner W = List Text → W → W × Answer

-- `tableArgs`
unfoldable pub table_args : ℕ → List Text
table_args route_table = if eqb route_table 0 then [] else txt "table" ∷ itoa route_table ∷ []

-- `routeArgs`
unfoldable pub route_args : ℕ → Bool → List Text → List Text
unfolding table_args
route_args route_table v6 args =
    (if v6 then txt "-6" ∷ [] else []) ++ args ++ table_args route_table

-- The text of a failed command.
abbrev pub command_error : List Text → Text → Text → Text
command_error args e output =
    txt "ip " ++ join args (txt " ") ++ txt ": " ++ e ++ txt " (" ++ output ++ txt ")"

abbrev pub error_of : List Text → Answer → List Text
error_of args a = elim a.failed [ none ↦ [] | some e ↦ command_error args e a.output ∷ [] ]

-- The text of a destination before the first slash.
before_slash : Text → Text
before_slash [] = []
before_slash (c ∷ s) = let rest = before_slash s in if eqb c b'/' then [] else c ∷ rest

-- What `ip route get` answers decides whether the daemon leaves a destination to the host. The reason
-- is empty when it does not.
unfoldable pub skip_reason : Answer → Text
skip_reason a = elim a.failed [
  | some e ↦ []
  | none ↦
      let got = parse_route_get_output a.output in
      if has_prefix got.dev (txt "vh")
      then []
      else if not (got.table == []) && not (got.table == txt "main")
      then txt "the routing table "
        ++ got.table
        ++ txt " answers for that address before the main table, on the device "
        ++ got.dev
      else if not got.has_via
      then txt "the host reaches that address over a directly connected network on the device "
        ++ got.dev
      else []
]

-- internal/hostaccess/peers.go: the peers and the services of a tailnet.
pub record Peer : Type 0 where
  pub hostname : Text
  pub alias_name : Text
  pub ipv4 : Text
  pub ipv6 : Text
  pub online : Bool

pub record Service : Type 0 where
  pub name : Text
  pub raw : Text
  pub ipv4 : List Text
  pub ipv6 : List Text
  pub ports : List Text

-- `desiredPeerRoutes`
unfoldable pub desired_peer_routes : List Peer → List Text × List Text
desired_peer_routes [] = ([], [])
desired_peer_routes (p ∷ ps) =
    let (v4, v6) = desired_peer_routes ps in
    ((if p.ipv4 == [] then v4 else p.ipv4 ∷ v4), (if p.ipv6 == [] then v6 else p.ipv6 ∷ v6))

-- `desiredServiceRoutes`
unfoldable pub desired_service_routes : List Service → List Text × List Text
desired_service_routes [] = ([], [])
desired_service_routes (s ∷ ss) =
    let (v4, v6) = desired_service_routes ss in (s.ipv4 ++ v4, s.ipv6 ++ v6)

pub record TailnetPeers : Type 0 where
  pub tailnet_id : Text
  pub magic_dns_suffix : Text
  pub split_dns_domains : List Text
  pub peers : List Peer
  pub services : List Service
  pub veth_gateway : Text
  pub veth_host : Text
  pub veth_host_ip : Text
  pub ns_name : Text

-- `hostRouteRuleArgs`
abbrev pub rule_args : ℕ → Bool → Text → List Text
rule_args route_table v6 action =
    (if v6 then txt "-6" ∷ [] else [])
    ++ txt "rule"
      ∷ action
      ∷ txt "priority"
      ∷ host_route_rule_priority
      ∷ txt "from"
      ∷ txt "all"
      ∷ txt "lookup"
      ∷ itoa route_table
      ∷ []

-- The commands of SyncHostRoutes for the IPv4 and the IPv6 routes.
unfoldable pub add_v4 : ℕ → Text → Text → Text → List Text
add_v4 route_table gateway veth ip =
    route_args route_table false
      (txt "route" ∷ txt "replace" ∷ ip ∷ txt "via" ∷ gateway ∷ txt "dev" ∷ veth ∷ [])

unfoldable pub add_v6 : ℕ → Text → Text → List Text
add_v6 route_table veth ip =
    route_args route_table true (txt "route" ∷ txt "replace" ∷ ip ∷ txt "dev" ∷ veth ∷ [])

unfoldable pub del_route : ℕ → Bool → Text → List Text
del_route route_table v6 ip = route_args route_table v6 (txt "route" ∷ txt "del" ∷ ip ∷ [])

module _ {W : Type 0} (run : Runner W) where
  -- Runs a list of commands and collects the error of each.
  unfoldable pub run_all : List (List Text) → W → W × List Text
  run_all [] w = (w, [])
  run_all (args ∷ commands) w =
      let (next, answer) = run args w in
      let (last, errors) = run_all commands next in (last, error_of args answer ++ errors)

  -- `skipReasonForRoute`
  unfoldable pub skip_reason_for_route : Text → Bool → W → W × Text
  unfolding before_slash
  skip_reason_for_route dest v6 w =
      let args =
        (if v6 then txt "-6" ∷ [] else []) ++ txt "route" ∷ txt "get" ∷ before_slash dest ∷ [] in
      let (next, answer) = run args w in (next, skip_reason answer)

  -- `filterWritableRoutes`; the log lines are left out.
  unfoldable pub filter_writable_routes : Addresses → List Text → Bool → W → W × List Text
  filter_writable_routes env [] v6 w = (w, [])
  filter_writable_routes env (dest ∷ candidates) v6 w =
      let (next, reason) = skip_reason_for_route dest v6 w in
      let invalid = filter_writable_routes env candidates v6 w in
      let (last, rest) = filter_writable_routes env candidates v6 next in
      if not (valid_route_dest env dest)
      then invalid
      else (last, (if reason == [] then dest ∷ rest else rest))

  -- The second half of `ensureHostRouteRule`, after the read of the rules.
  ensure_rule : ℕ → Bool → Option Text → W → W × List Text
  ensure_rule route_table v6 none w =
      let args = rule_args route_table v6 (txt "add") in
      let (next, answer) = run args w in (next, error_of args answer)
  ensure_rule route_table v6 (some table) w = if table == itoa route_table then (w, []) else (
    w,
    (txt "the rule at the priority 32000 looks up the table \""
          ++ table
          ++ txt "\", not the table "
          ++ itoa route_table)
        ∷ [],
  )

  -- `ensureHostRouteRule`; no error stands for nil.
  unfoldable pub ensure_host_route_rule : ℕ → Bool → W → W × List Text
  unfolding ensure_rule
  ensure_host_route_rule route_table v6 w =
      let show = (if v6 then txt "-6" ∷ [] else []) ++ txt "rule" ∷ txt "show" ∷ [] in
      let (next, answer) = run show w in
      if eqb route_table 0 then (w, []) else elim answer.failed [
        | some e ↦ (next, error_of show answer)
        | none ↦ ensure_rule route_table v6 (host_route_rule_state answer.output) next
      ]
