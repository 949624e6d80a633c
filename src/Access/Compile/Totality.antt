-- ===== src/Access/Compile/Totality.antt =====
-- Compile succeeds on every valid rule set.
use hydrascale.Common.{
  true, ◌||◌, ◌≡◌, refl, ◌∙◌, inl, inr, some, List, [], ◌∷◌, ◌++◌, map, Text, text_eq, ◌==◌, ==_iff,
  if◌then◌else◌, mem, All, Map, lookup, keys, mem-keys, is_some, ok, err, arith, Result-cases, ◌≢◌,
}
use hydrascale.Access.Rules.{Rule, RuleSet, validate, host, internet}
use hydrascale.Access.Rules.Validation.{IsWellFormed, validate_iff}
use hydrascale.Access.Compile.{
  Args, Net, Topology, Tail, Chains, Compiled, CompileError, insert_id, sort_texts, sorted_ids,
  compile_rule, with_ports, add_matches, compile_rules, compile_family, compile, append_rule,
  chain_forward, chain_out, established_match, listen_accepts, dns_rules, private_ranges,
  private_ranges_ipv6, closed, TopologyIpv6, neighbour_rules, host_ranges, guard_rule, compile_ipv6,
}

mem-insert_id : (x a : Text) (bs : List Text) → mem x (insert_id a bs) ≡ (a == x || mem x bs)
unfolding insert_id
mem-insert_id x a [] = refl
mem-insert_id x a (b ∷ bs) = ground (arith, mem-insert_id x a bs)

mem-sort_texts : (x : Text) (xs : List Text) → mem x (sort_texts xs) ≡ mem x xs
unfolding sort_texts
mem-sort_texts x [] = refl
mem-sort_texts x (a ∷ xs) = mem-insert_id x a (sort_texts xs) ∙ ground (arith, mem-sort_texts x xs)

-- The identifiers of the device map are those of its entries.
pub mem-sorted_ids :
    (x : Text) (devices : Map Text Text) → mem x (sorted_ids devices) ≡ is_some (lookup x devices)
unfolding sorted_ids
mem-sorted_ids x devices = mem-sort_texts x (keys devices) ∙ mem-keys x devices

module _ (devices : Map Text Text) (private : List Text) where
  found_device :
      (x : Text) → mem x (sorted_ids devices) ≡ true → (d : Text) × (lookup x devices ≡ some d)
  found_device x h = ground (arith, mem-sorted_ids x devices)

  compile_rule-ne-err :
      (r : Rule)
      → IsWellFormed (sorted_ids devices) r
      → (e : CompileError) → compile_rule r devices private ≢ err e
  unfolding compile_rule
  compile_rule-ne-err r w e bad = ground (
    arith,
    ==_iff r.from host,
    ==_iff r.to host,
    ==_iff r.to internet,
    mem-sorted_ids r.from devices,
    mem-sorted_ids r.to devices,
  )

  compile_rule-total :
      (r : Rule)
      → IsWellFormed (sorted_ids devices) r
      → (result : Text × Args) × (compile_rule r devices private ≡ ok result)
  compile_rule-total r w = elim (Result-cases (compile_rule r devices private)) [
    | inl good ↦ good
    | inr (e, bad) ↦ absurd (compile_rule-ne-err r w e bad)
  ]

  compile_rules-total :
      (rs : List Rule) (c : Chains)
      → All (IsWellFormed (sorted_ids devices)) rs
      → (c' : Chains) × (compile_rules rs devices private c ≡ ok c')
  unfolding compile_rules
  compile_rules-total [] c h = (c, refl)
  compile_rules-total (r ∷ rs) c (w, h) =
      let ((chain, args), e) = compile_rule-total r w in
      let (c', more) =
        compile_rules-total rs
          (if chain == [] then c else add_matches chain (with_ports args r.ports) c) h in
      (c', rw e more)

compile_family-total :
    (set : RuleSet) (devices : Map Text Text) (listen open_rules : List Args) (private : List Text)
    (tail : Tail)
    → validate set (sorted_ids devices) ≡ []
    → (c : Compiled) × (compile_family set
          (sorted_ids devices)
          devices
          listen
          open_rules
          private
          tail
        ≡ ok c)
unfolding compile_family
compile_family-total set devices listen open_rules private tail valid =
    let (c, e) =
      compile_rules-total devices private set.rules
        (
          append_rule chain_forward established_match ∷ listen,
          append_rule chain_out established_match ∷ open_rules,
        )
        ((validate_iff set (sorted_ids devices)).0 valid).1 in
    (closed (sorted_ids devices) devices tail c, rw e)

-- Compile returns the two chains for every rule set that Validate accepts, when the bind address of
-- the DNS forwarder is a host and a port.
pub compile_total :
    (net : Net) (set : RuleSet) (topo : Topology) (tail : Tail) (dns_host dns_port : Text)
    → validate set (sorted_ids topo.devices) ≡ []
    → net.split_host_port topo.dns_address ≡ some (dns_host, dns_port)
    → (c : Compiled) × (compile net set topo tail ≡ ok c)
unfolding compile
compile_total net set topo tail dns_host dns_port valid split =
    let (c, e) =
      compile_family-total set topo.devices
        (listen_accepts (sorted_ids topo.devices) topo.devices topo.ports)
        (dns_rules (sorted_ids topo.devices) topo.devices dns_host dns_port) private_ranges tail
        valid in
    (c, rw (valid, split) e)

-- CompileIPv6 returns the chains for every rule set that Validate accepts, when each prefix of the
-- host is a CIDR prefix.
pub compile_ipv6_total :
    (net : Net) (set : RuleSet) (topo : TopologyIpv6) (tail : Tail) (extra : List Text)
    → validate set (sorted_ids topo.devices) ≡ []
    → host_ranges net topo.host_prefixes ≡ ok extra
    → (c : Compiled) × (compile_ipv6 net set topo tail ≡ ok c)
unfolding compile_ipv6
compile_ipv6_total net set topo tail extra valid ranges =
    let (c, e) =
      compile_family-total set topo.devices
        (listen_accepts (sorted_ids topo.devices) topo.devices topo.ports)
        (neighbour_rules (sorted_ids topo.devices) topo.devices) (private_ranges_ipv6 ++ extra) tail
        valid in
    (record c { guard = c.guard ++ map guard_rule topo.guarded_upstreams }, rw (valid, ranges, e))
