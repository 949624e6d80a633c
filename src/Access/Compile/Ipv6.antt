-- ===== src/Access/Compile/Ipv6.antt =====
-- What the IPv6 chains that CompileIPv6 returns decide about a packet.
use hydrascale.Common.{
  ℕ, some, Bool, true, not, ◌&&◌, ◌||◌, ◌≡◌, refl, ◌∙◌, List, [], ◌∷◌, ◌++◌, map, Text, txt,
  text_eq, same_text, if◌then◌else◌, any, Map, ok, bind_parts, arith,
}
use hydrascale.Access.Rules.{RuleSet, validate}
use hydrascale.Access.Compile.HostRanges.{IsNetwork, AreRanges, host_ranges-AreRanges}
use hydrascale.Access.Compile.{
  Args, Net, TopologyIpv6, Compiled, chain_forward, chain_out, any_device, enforce_tail,
  private_ranges_ipv6, append_rule, device_of, sorted_ids, listen_accepts, icmp_args,
  neighbour_rules, host_ranges, guard_rule, compile_family, compile_ipv6, valid_or_fail,
}
use hydrascale.Access.Netfilter.{
  Netfilter, accept, drop, next, accept_if, or_else-accept_if, traverse, judge_rule, Tests-append,
  Tests-cons, Tests-option, Tests-not,
}
use hydrascale.Access.Compile.Meaning.{
  enters, leaves, is_protocol, allows_forward, judge-accept_rule,
}
use hydrascale.Access.Compile.Family.{
  Parses-valid, valid_or_fail-ok, returns, listens_to, traverse-listen_accepts, traverse-enforce,
  compile_family_lem,
}

module _ (nf : Netfilter) (p : nf.Packet) where
  open nf use {holds, judge_drop}

  -- Neighbour discovery from a namespace.
  abbrev pub discovers : Map Text Text → Text → Text → Bool
  discovers devices id kind =
      enters nf (device_of devices id) p
      && (is_protocol nf (txt "ipv6-icmp") p && holds (txt "--icmpv6-type") kind p)

  abbrev pub asks_neighbour : Map Text Text → Text → Bool
  asks_neighbour devices id =
      discovers devices id (txt "neighbour-solicitation")
      || discovers devices id (txt "neighbour-advertisement")

  judge-icmp :
      (devices : Map Text Text) (id kind : Text)
      → judge_rule nf (append_rule chain_out (icmp_args (device_of devices id) kind)) p
        ≡ accept_if (discovers devices id kind)
  unfolding icmp_args same_text
  judge-icmp devices id kind =
      let type : Args = txt "--icmpv6-type" ∷ kind ∷ [] in
      let with_protocol : Args = txt "-p" ∷ txt "ipv6-icmp" ∷ type in
      judge-accept_rule nf chain_out (txt "-i" ∷ device_of devices id ∷ with_protocol) p _ (
        Tests-cons nf (txt "-i") (device_of devices id) with_protocol p _ refl (
          Tests-cons nf (txt "-p") (txt "ipv6-icmp") type p _ refl
            (Tests-option nf (txt "--icmpv6-type") kind p refl)))

  traverse-neighbour_rules :
      (ids : List Text) (devices : Map Text Text)
      → traverse nf (neighbour_rules ids devices) p ≡ accept_if (any (asks_neighbour devices) ids)
  unfolding neighbour_rules
  traverse-neighbour_rules [] devices = refl
  traverse-neighbour_rules (id ∷ ids) devices =
      rw
        (
          judge-icmp devices id (txt "neighbour-solicitation"),
          judge-icmp devices id (txt "neighbour-advertisement"),
          traverse-neighbour_rules ids devices,
          or_else-accept_if,
          or_else-accept_if,
        )
        (ground arith)

  -- A packet that comes from an upstream device and leaves by no namespace device.
  abbrev pub escapes : Text → Bool
  escapes upstream = enters nf upstream p && not (leaves nf any_device p)

  judge-guard_rule :
      (upstream : Text)
      → judge_rule nf (guard_rule upstream) p ≡ (if escapes upstream then drop else next)
  unfolding guard_rule same_text
  judge-guard_rule upstream =
      Tests-append nf (txt "-i" ∷ upstream ∷ []) (txt "!" ∷ txt "-o" ∷ any_device ∷ []) p _ _
        (Tests-option nf (txt "-i") upstream p refl) (Tests-not nf (txt "-o") any_device p refl)
        (txt "-j" ∷ txt "DROP" ∷ [])
      ∙ rw (judge_drop p)

  traverse-guards :
      (upstreams : List Text)
      → traverse nf (map guard_rule upstreams) p ≡ (if any escapes upstreams then drop else next)
  traverse-guards [] = refl
  traverse-guards (u ∷ us) = rw (judge-guard_rule u, traverse-guards us) (ground arith)

  abbrev pub forward_open : RuleSet → TopologyIpv6 → List Text → Bool
  forward_open set topo private =
      returns nf p
      || (any (listens_to nf p topo.devices topo.ports) (sorted_ids topo.devices)
          || any (allows_forward nf topo.devices private p) set.rules)

  chains_enforce_ipv6 :
      (net : Net) (set : RuleSet) (topo : TopologyIpv6) (c : Compiled) (extra : List Text)
      → host_ranges net topo.host_prefixes ≡ ok extra
      → compile_ipv6 net set topo enforce_tail ≡ ok c
      → (traverse nf c.forward p
          ≡ (if forward_open set topo (private_ranges_ipv6 ++ extra) then accept else drop))
        × (traverse nf c.guard p ≡ (if any escapes topo.guarded_upstreams then drop else next))
  unfolding compile_ipv6
  chains_enforce_ipv6 net set topo c extra ranges h =
      let ids = sorted_ids topo.devices in
      let (u, valid, h₂) = bind_parts (valid_or_fail (validate set ids)) _ h in
      let h₃ = rw ranges at h₂ in
      let (base, e, done) =
        bind_parts
          (compile_family set ids topo.devices (listen_accepts ids topo.devices topo.ports)
            (neighbour_rules ids topo.devices) (private_ranges_ipv6 ++ extra) enforce_tail)
          _ h₃ in
      let same : record base { guard = base.guard ++ map guard_rule topo.guarded_upstreams } ≡ c =
        ground arith in
      let (forward, out, guard) =
        compile_family_lem nf p set ids topo.devices (listen_accepts ids topo.devices topo.ports)
          (neighbour_rules ids topo.devices) (private_ranges_ipv6 ++ extra) enforce_tail base _ _
          (Parses-valid set ids (valid_or_fail-ok (validate set ids) valid))
          (traverse-listen_accepts nf p ids topo.devices topo.ports)
          (traverse-neighbour_rules ids topo.devices) e in
      rw (← same) (
        forward ∙ rw (traverse-enforce nf p chain_forward [] true (λ rest. refl)) (ground arith),
        rw guard (traverse-guards topo.guarded_upstreams),
      )

  -- In the mode enforce the IPv6 forward chain accepts return traffic, the packets for a
  -- tailscaled, and what a rule allows, where the internet excludes the private ranges and, for
  -- each prefix of the host in order, the range from its network address to that address with
  -- every host bit set; it drops every other packet. The guard rules drop exactly the packets that
  -- come from a guarded upstream device and leave by no namespace device. A prefix that
  -- net.ParseCIDR accepts is a masked network address and a mask of leading ones.
  pub forward_enforce_ipv6 :
      (net : Net) (set : RuleSet) (topo : TopologyIpv6) (c : Compiled)
      → ((prefix : Text) (ip mask : List ℕ)
          → net.parse_cidr prefix ≡ some (ip, mask)
          → IsNetwork ip mask)
      → compile_ipv6 net set topo enforce_tail ≡ ok c
      → (extra : List Text) × AreRanges net topo.host_prefixes extra
        × (traverse nf c.forward p
            ≡ (if forward_open set topo (private_ranges_ipv6 ++ extra) then accept else drop))
        × (traverse nf c.guard p ≡ (if any escapes topo.guarded_upstreams then drop else next))
  unfolding compile_ipv6
  forward_enforce_ipv6 net set topo c masked h =
      let ids = sorted_ids topo.devices in
      let (u, valid, h₂) = bind_parts (valid_or_fail (validate set ids)) _ h in
      let (extra, ranges, rest) = bind_parts (host_ranges net topo.host_prefixes) _ h₂ in
      let (forward, guard) = chains_enforce_ipv6 net set topo c extra ranges h in
      (extra, host_ranges-AreRanges net masked topo.host_prefixes extra ranges, forward, guard)
