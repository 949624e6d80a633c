-- ===== src/Access/Compile/Guard.antt =====
-- The guard rules of the chains that CompileIPv6 returns.
use hydrascale.Common.{◌≡◌, refl, List, [], ◌++◌, map, Text, ok, bind_parts, arith}
use hydrascale.Access.Rules.{RuleSet, validate}
use hydrascale.Access.Compile.{
  Net, TopologyIpv6, Tail, Compiled, private_ranges_ipv6, sorted_ids, listen_accepts,
  neighbour_rules, host_ranges, guard_rule, closed, compile_rules, compile_family, compile_ipv6,
  valid_or_fail,
}
use hydrascale.Common.{Map}
use hydrascale.Access.Compile.{Args}

compile_family-guard :
    (set : RuleSet) (ids : List Text) (devices : Map Text Text) (listen open_rules : List Args)
    (private : List Text) (tail : Tail) (c : Compiled)
    → compile_family set ids devices listen open_rules private tail ≡ ok c
    → c.guard ≡ []
unfolding compile_family closed
compile_family-guard set ids devices listen open_rules private tail c h =
    let (c', rules, e) = bind_parts (compile_rules set.rules devices private _) _ h in
    ground (arith, e)

pub compile_ipv6-guard :
    (net : Net) (set : RuleSet) (topo : TopologyIpv6) (tail : Tail) (c : Compiled)
    → compile_ipv6 net set topo tail ≡ ok c
    → c.guard ≡ map guard_rule topo.guarded_upstreams
unfolding compile_ipv6
compile_ipv6-guard net set topo tail c h =
    let ids = sorted_ids topo.devices in
    let (u, valid, h₂) = bind_parts (valid_or_fail (validate set ids)) _ h in
    let (extra, ranges, h₃) = bind_parts (host_ranges net topo.host_prefixes) _ h₂ in
    let (base, e, done) =
      bind_parts
        (compile_family set ids topo.devices (listen_accepts ids topo.devices topo.ports)
          (neighbour_rules ids topo.devices) (private_ranges_ipv6 ++ extra) tail)
        _ h₃ in
    let none_yet = compile_family-guard set ids topo.devices _ _ _ tail base e in
    let same : record base { guard = base.guard ++ map guard_rule topo.guarded_upstreams } ≡ c =
      ground arith in
    rw (← same) (rw none_yet refl)
