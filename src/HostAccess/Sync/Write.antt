-- ===== src/HostAccess/Sync/Write.antt =====
-- internal/hostaccess/routes.go: SyncHostRoutes.
use hydrascale.Common.{
  Answer, ℕ, true, false, not, ◌&&◌, none, some, List, [], ◌∷◌, ◌++◌, map, Text, txt, text_eq, ◌==◌,
  is_some, if◌then◌else◌, join,
}
use hydrascale.HostAccess.Destinations.{Addresses}
use hydrascale.HostAccess.Tables.{
  table_is_empty, parse_host_routes, parse_host_routes_v6, parse_table_routes,
  parse_table_routes_v6,
}
use hydrascale.HostAccess.Sets.{diff_routes, merge_routes}
use hydrascale.HostAccess.Sync.{
  Runner, route_args, error_of, desired_peer_routes, desired_service_routes, TailnetPeers, run_all,
  filter_writable_routes, ensure_host_route_rule, add_v4, add_v6, del_route,
}

-- What the manager holds of the configuration.
pub record Settings : Type 0 where
  pub route_table : ℕ
  pub infra_subnet : Text

-- The IPv4 and the IPv6 routes of a step.
abbrev pub Routes : Type 0
Routes = List Text × List Text

-- `listNsTableRoutes` and `listNsTableRoutesV6`, whose failure is logged and leaves no route.
listed : (Text → List Text) → Answer → List Text
listed parse a = elim a.failed [ some e ↦ [] | none ↦ parse a.output ]

module _ {W : Type 0} (run : Runner W) (m : Settings) where
  -- The four loops that write what the diff says.
  unfoldable pub write_routes : Text → Text → Routes → Routes → W → W × List Text
  write_routes gateway veth (want_v4, want_v6) (actual_v4, actual_v6) w =
      let (added_v4, removed_v4) = diff_routes want_v4 actual_v4 in
      let (added_v6, removed_v6) = diff_routes want_v6 actual_v6 in
      run_all run
        (map (add_v4 m.route_table gateway veth) added_v4
          ++ (map (del_route m.route_table false) removed_v4
              ++ (map (add_v6 m.route_table veth) added_v6
                  ++ map (del_route m.route_table true) removed_v6)))
        w

module _ {W : Type 0} (env : Addresses) (run : Runner W) (m : Settings) where
  -- The reads of the table 52 of a namespace.
  unfoldable pub list_ns_table_routes : Text → W → W × Routes
  unfolding listed
  list_ns_table_routes ns w =
      let in_ns = λ (args : List Text). txt "netns" ∷ txt "exec" ∷ ns ∷ txt "ip" ∷ args in
      let (w1, v4) = run (in_ns (txt "route" ∷ txt "show" ∷ txt "table" ∷ txt "52" ∷ [])) w in
      let (w2, v6) =
        run (in_ns (txt "-6" ∷ txt "route" ∷ txt "show" ∷ txt "table" ∷ txt "52" ∷ [])) w1 in
      (
        w2,
        (
          listed (λ output. parse_table_routes env output m.infra_subnet) v4,
          listed (parse_table_routes_v6 env) v6,
        ),
      )

  -- The routes that the tailnet asks for.
  unfoldable pub wanted_routes : TailnetPeers → W → W × Routes
  wanted_routes peers w =
      let (peer_v4, peer_v6) = desired_peer_routes peers.peers in
      let (service_v4, service_v6) = desired_service_routes peers.services in
      let v4 = merge_routes peer_v4 service_v4 in
      let v6 = merge_routes peer_v6 service_v6 in
      let (next, (ns_v4, ns_v6)) = list_ns_table_routes peers.ns_name w in
      if peers.ns_name == []
      then (w, (v4, v6))
      else (next, (merge_routes v4 ns_v4, merge_routes v6 ns_v6))

  -- The reads of the two tables, and the writes where both reads answer.
  unfoldable pub sync_tables : TailnetPeers → Routes → W → W × List Text
  sync_tables peers want w =
      let show_v4 = route_args m.route_table false (txt "route" ∷ txt "show" ∷ []) in
      let show_v6 = route_args m.route_table true (txt "route" ∷ txt "show" ∷ []) in
      let (w1, v4) = run show_v4 w in
      let (w2, v6) = run show_v6 w1 in
      let output_v4 = if is_some v4.failed then [] else v4.output in
      if is_some v4.failed && not (table_is_empty v4.output)
      then (w1, error_of show_v4 v4)
      else elim v6.failed [
        | some e ↦ (w2, (txt "ip " ++ join show_v6 (txt " ") ++ txt ": " ++ e) ∷ [])
        | none ↦
            write_routes run m peers.veth_gateway peers.veth_host want
              (
                parse_host_routes env output_v4 peers.veth_host m.infra_subnet,
                parse_host_routes_v6 env v6.output peers.veth_host,
              )
              w2
      ]

  -- `SyncHostRoutes`; no error stands for nil.
  unfoldable pub sync_host_routes : TailnetPeers → W → W × List Text
  sync_host_routes peers w =
      let (w1, rule_v4) = ensure_host_route_rule run m.route_table false w in
      let (w2, rule_v6) = ensure_host_route_rule run m.route_table true w1 in
      let (w3, (want_v4, want_v6)) = wanted_routes peers w2 in
      let (w4, kept_v4) = filter_writable_routes run env want_v4 false w3 in
      let (w5, kept_v6) = filter_writable_routes run env want_v6 true w4 in
      let (w6, errors) = sync_tables peers (kept_v4, kept_v6) w5 in
      (w6, rule_v4 ++ rule_v6 ++ errors)
