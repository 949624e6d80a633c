-- ===== src/HostAccess/Tables.antt =====
-- internal/hostaccess/routes.go: the parsers of the output of `ip route` and `ip rule`.
use hydrascale.Common.{
  Bool, true, false, not, ◌&&◌, ◌||◌, Option, none, some, List, [], ◌∷◌, ◌++◌, Text, txt, text_eq,
  ◌==◌, mem, if◌then◌else◌, same_text, ◌≡◌, refl, fields, split_lines, trim_space, contains,
}
use hydrascale.HostAccess.Destinations.{
  Addresses, magic_dns, is_exit_node_split_default, valid_route_dest, net_of, is_cgnat,
  is_tailscale_v6, in_infra,
}

-- `tableIsEmpty`
unfoldable pub table_is_empty : Text → Bool
table_is_empty output = contains output (txt "FIB table does not exist")

-- The lines of an output, trimmed.
unfoldable pub trimmed : List Text → List Text
trimmed [] = []
trimmed (line ∷ lines) = trim_space line ∷ trimmed lines

-- The destinations of the lines that a test keeps; the test reads the line and its fields.
unfoldable pub destinations : (Text → Text → List Text → Bool) → List Text → List Text
destinations keeps [] = []
destinations keeps (line ∷ lines) =
    let rest = destinations keeps lines in
    elim (fields line) [
      | [] ↦ rest
      | dest ∷ more ↦ if keeps line dest (dest ∷ more) then dest ∷ rest else rest
    ]

abbrev lines_of : Text → List Text
lines_of output = trimmed (split_lines (trim_space output))

abbrev on_device : Text → Text → Bool
on_device veth line = veth == [] || contains line (txt "dev " ++ veth)

module _ (env : Addresses) where
  -- The conditions of `parseHostRoutes`.
  unfoldable pub keeps_host : Text → Text → Text → Text → List Text → Bool
  keeps_host veth infra line dest more =
      not (dest == txt "default")
      && not (dest == magic_dns)
      && not (in_infra env (net_of env infra) dest)
      && on_device veth line
      && valid_route_dest env dest

  unfoldable pub parse_host_routes : Text → Text → Text → List Text
  unfolding keeps_host trimmed destinations
  parse_host_routes output veth infra = destinations (keeps_host veth infra) (lines_of output)

  -- The conditions of `parseHostRoutesV6`.
  unfoldable pub keeps_host_v6 : Text → Text → Text → List Text → Bool
  keeps_host_v6 veth line dest words =
      not (dest == txt "default" || dest == txt "::/0")
      && on_device veth line
      && not (mem (txt "kernel") words)
      && valid_route_dest env dest

  unfoldable pub parse_host_routes_v6 : Text → Text → List Text
  unfolding keeps_host_v6 trimmed destinations
  parse_host_routes_v6 output veth = destinations (keeps_host_v6 veth) (lines_of output)

  -- The conditions of `parseTableRoutes`.
  unfoldable pub keeps_table : Text → Text → Text → List Text → Bool
  keeps_table infra line dest words =
      not (dest == txt "default" || dest == txt "0.0.0.0/0" || dest == txt "::/0")
      && not (is_exit_node_split_default dest)
      && not (dest == magic_dns)
      && not (is_cgnat env dest)
      && not (is_tailscale_v6 env dest)
      && not (in_infra env (net_of env infra) dest)
      && valid_route_dest env dest

  unfoldable pub parse_table_routes : Text → Text → List Text
  unfolding keeps_table trimmed destinations
  parse_table_routes output infra = destinations (keeps_table infra) (lines_of output)

  -- The conditions of `listNsTableRoutesV6`.
  unfoldable pub keeps_table_v6 : Text → Text → List Text → Bool
  keeps_table_v6 line dest words =
      not (dest == txt "default" || dest == txt "::/0")
      && not (is_exit_node_split_default dest)
      && not (is_tailscale_v6 env dest)
      && valid_route_dest env dest

  unfoldable pub parse_table_routes_v6 : Text → List Text
  unfolding keeps_table_v6 trimmed destinations
  parse_table_routes_v6 output = destinations keeps_table_v6 (lines_of output)

-- The fields `dev`, `via` and `table` of the answer of `ip route get`.
pub record RouteGet : Type 0 where
  pub dev : Text
  pub has_via : Bool
  pub table : Text

abbrev next_or : Text → List Text → Text
next_or old [] = old
next_or old (w ∷ ws) = w

-- The loop of `parseRouteGetOutput` over the fields.
route_get_fields : RouteGet → List Text → RouteGet
route_get_fields found [] = found
route_get_fields found (f ∷ fs) =
    route_get_fields
      (if f == txt "dev"
        then record found { dev = next_or found.dev fs }
        else if f == txt "via"
        then record found { has_via = true }
        else if f == txt "table"
        then record found { table = next_or found.table fs }
        else found)
      fs

abbrev first_line : List Text → Text
first_line [] = []
first_line (line ∷ lines) = line

-- `parseRouteGetOutput`
unfoldable pub parse_route_get_output : Text → RouteGet
unfolding route_get_fields
parse_route_get_output output =
    route_get_fields (record { dev = []; has_via = false; table = [] })
      (fields (first_line (split_lines (trim_space output))))

abbrev pub host_route_rule_priority : Text
host_route_rule_priority = txt "32000"

-- What follows the word `lookup`, if anything does.
lookup_field : List Text → Option Text
lookup_field [] = none
lookup_field (f ∷ []) = none
lookup_field (f ∷ g ∷ fs) = if f == txt "lookup" then some g else lookup_field (g ∷ fs)

-- strings.TrimSuffix(s, ":")
trim_colon : Text → Text
trim_colon [] = []
trim_colon (c ∷ s) = let rest = trim_colon s in if (c ∷ s) == txt ":" then [] else c ∷ rest

rule_state_lines : List Text → Option Text
unfolding lookup_field trim_colon
rule_state_lines [] = none
rule_state_lines (line ∷ lines) =
    let rest = rule_state_lines lines in
    elim (fields line) [
      | [] ↦ rest
      | f ∷ fs ↦
          if not (trim_colon f == host_route_rule_priority)
          then rest
          else elim (lookup_field (f ∷ fs)) [ none ↦ some [] | some table ↦ some table ]
    ]

-- `hostRouteRuleState`; `none` states that no rule holds the priority.
unfoldable pub host_route_rule_state : Text → Option Text
unfolding rule_state_lines
host_route_rule_state output = rule_state_lines (split_lines output)

route_get_test :
    parse_route_get_output (txt "fd7a::1 dev tailscale0 table 52 src fd7a::2\nx")
    ≡ record { dev = txt "tailscale0"; has_via = false; table = txt "52" }
unfolding parse_route_get_output fields split_lines trim_space same_text
route_get_test = refl

rule_state_test :
    host_route_rule_state (txt "0:\tfrom all lookup local\n32000:\tfrom all lookup 53\n")
    ≡ some (txt "53")
unfolding host_route_rule_state fields split_lines same_text
rule_state_test = refl
