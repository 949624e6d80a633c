-- ===== src/HostAccess/Sync/Remove.antt =====
-- internal/hostaccess/routes.go: the removal of the routes, the rules and the table.
use hydrascale.Common.{
  Bool, true, false, none, some, List, [], ◌∷◌, ◌++◌, map, Text, txt, text_eq, eqb, if◌then◌else◌,
  join, contains,
}
use hydrascale.Config.{to_lower}
use hydrascale.HostAccess.Destinations.{Addresses}
use hydrascale.HostAccess.Tables.{table_is_empty, parse_host_routes, parse_host_routes_v6}
use hydrascale.HostAccess.Sync.{Runner, route_args, rule_args, error_of, run_all, del_route}
use hydrascale.HostAccess.Sync.Write.{Settings}

-- `ruleNotPresent`
unfoldable pub rule_not_present : Text → Bool
rule_not_present output = contains (to_lower output) (txt "no such file or directory")

module _ {W : Type 0} (run : Runner W) (m : Settings) where
  -- `removeHostRouteRule`
  unfoldable pub remove_host_route_rule : Bool → W → W × List Text
  remove_host_route_rule v6 w =
      let args = rule_args m.route_table v6 (txt "del") in
      let (next, answer) = run args w in
      (next, (if rule_not_present answer.output then [] else error_of args answer))

  -- `flushHostRouteTable`
  unfoldable pub flush_host_route_table : Bool → W → W × List Text
  flush_host_route_table v6 w =
      let args = route_args m.route_table v6 (txt "route" ∷ txt "flush" ∷ []) in
      let (next, answer) = run args w in (next, error_of args answer)

  -- `RemoveHostRouteTable`
  unfoldable pub remove_host_route_table : W → W × List Text
  remove_host_route_table w =
      let (w1, e1) = remove_host_route_rule false w in
      let (w2, e2) = remove_host_route_rule true w1 in
      let (w3, e3) = flush_host_route_table false w2 in
      let (w4, e4) = flush_host_route_table true w3 in
      if eqb m.route_table 0 then (w, []) else (w4, e1 ++ e2 ++ e3 ++ e4)

module _ {W : Type 0} (env : Addresses) (run : Runner W) (m : Settings) where
  -- The IPv4 half of `RemoveAllHostRoutes`.
  remove_v4 : Text → W → W × List Text
  remove_v4 veth w =
      let show = route_args m.route_table false (txt "route" ∷ txt "show" ∷ []) in
      let (next, answer) = run show w in
      let routes = parse_host_routes env answer.output veth m.infra_subnet in
      elim answer.failed [
        | some e ↦ (next, (if table_is_empty answer.output then [] else error_of show answer))
        | none ↦ run_all run (map (del_route m.route_table false) routes) next
      ]

  -- The IPv6 half.
  remove_v6 : Text → W → W × List Text
  remove_v6 veth w =
      let show = route_args m.route_table true (txt "route" ∷ txt "show" ∷ []) in
      let (next, answer) = run show w in
      elim answer.failed [
        | some e ↦ (next, (txt "ip " ++ join show (txt " ") ++ txt ": " ++ e) ∷ [])
        | none ↦
            run_all run
              (map (del_route m.route_table true) (parse_host_routes_v6 env answer.output veth))
              next
      ]

  -- `RemoveAllHostRoutes`
  unfoldable pub remove_all_host_routes : Text → W → W × List Text
  unfolding remove_v4 remove_v6
  remove_all_host_routes veth w =
      let (w1, e1) = remove_v4 veth w in let (w2, e2) = remove_v6 veth w1 in (w2, e1 ++ e2)
