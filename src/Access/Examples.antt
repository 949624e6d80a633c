-- ===== src/Access/Examples.antt =====
-- The theorems on internal/access at concrete rule sets, topologies and packets.
use hydrascale.Common.{
  ℕ, List, Text, subst, ◌≡◌, refl, some, [], ◌∷◌, txt, text_eq, same_text, text_leb, ne_of_==, itoa,
  All, lookup, ok, arith, inr, ◌↔◌,
}
use hydrascale.Access.Netfilter.{accept, drop}
use hydrascale.Access.Ports.{tcp, parse_port}
use hydrascale.Access.Rules.{RuleSet, host, internet, validate}
use hydrascale.Access.Compile.{Net, Topology, Tail, Compiled, enforce_tail, sorted_ids, compile}
use hydrascale.Access.Netfilter.{traverse}
use hydrascale.Access.Rules.{covers_host, preserving_rule_set}
use hydrascale.Access.Rules.Validation.{
  validate_iff, validate-preserving_rule_set, IsMode, IsWellFormed, IsPlain,
}
use hydrascale.Access.Ports.{udp}
use hydrascale.Access.Ports.Forms.{parse_port-spell}
use hydrascale.Access.Compile.{observe_tail, TopologyIpv6, host_ranges, prefix_range, compile_ipv6}
use hydrascale.Access.Compile.HostRanges.{IsNetwork, AreRanges, top_address}
use hydrascale.Access.Compile.Ipv6.{forward_enforce_ipv6}
use hydrascale.Access.Compile.Totality.{compile_total, compile_ipv6_total}
use hydrascale.Access.Compile.Verdicts.{forward_enforce, out_enforce, observe_drops_nothing}
use hydrascale.Access.Compile.Covers.{covers_host-accept}
use hydrascale.Access.Toy.{ToyPacket, before_colon, after_colon, toy_holds, toy}

-- Two tailnets, one of which reaches the internet over TLS and the host over SSH.
abbrev pub rules : RuleSet
rules = record {
  mode = [];
  rules =
      record { from = txt "work"; to = internet; ports = txt "tcp/443" ∷ [] }
      ∷ record { from = txt "work"; to = host; ports = txt "tcp/20-22" ∷ [] }
      ∷ [];
}

abbrev pub topology : Topology
topology = record {
  devices = (txt "work", txt "vh1") ∷ (txt "home", txt "vh2") ∷ [];
  dns_address = txt "127.0.0.1:5353";
  ports = (txt "work", 41641) ∷ [];
}

abbrev pub net : Net
net = record {
  split_host_port = λ s. some (before_colon s, after_colon s);
  parse_cidr = λ s. some (253 ∷ 0 ∷ [], 255 ∷ 0 ∷ []);
  ip_string = λ bytes. bytes;
}

abbrev pub ssh_packet : ToyPacket
ssh_packet = record {
  in_device = txt "vh1";
  out_device = [];
  protocol = tcp;
  state = txt "NEW";
  port = 22;
}

abbrev pub web_packet : ToyPacket
web_packet = record {
  in_device = txt "vh1";
  out_device = txt "eth0";
  protocol = tcp;
  state = txt "NEW";
  port = 443;
}

valid : validate rules (sorted_ids topology.devices) ≡ []
unfolding validate sorted_ids parse_port same_text text_leb
valid = refl

compiled : (tail : Tail) → (c : Compiled) × (compile net rules topology tail ≡ ok c)
compiled tail = compile_total net rules topology tail (txt "127.0.0.1") (txt "5353") valid refl

compile_total_example : (c : Compiled) × (compile net rules topology enforce_tail ≡ ok c)
compile_total_example =
    compile_total net rules topology enforce_tail (txt "127.0.0.1") (txt "5353") valid refl

forward_enforce_example : traverse toy (compiled enforce_tail).0.forward web_packet ≡ accept
unfolding toy_holds lookup parse_port sorted_ids text_leb same_text
forward_enforce_example =
    forward_enforce toy web_packet net rules topology (txt "127.0.0.1") (txt "5353")
      (compiled enforce_tail).0 refl (compiled enforce_tail).1

-- The rule opens the port 443 alone.
forward_enforce_drops :
    traverse toy (compiled enforce_tail).0.forward (record web_packet { port = 80 }) ≡ drop
unfolding toy_holds lookup parse_port sorted_ids text_leb same_text
forward_enforce_drops =
    forward_enforce toy (record web_packet { port = 80 }) net rules topology (txt "127.0.0.1")
      (txt "5353") (compiled enforce_tail).0 refl (compiled enforce_tail).1

out_enforce_example :
    traverse toy (compiled enforce_tail).0.out (record ssh_packet { port = 23 }) ≡ drop
unfolding toy_holds lookup parse_port sorted_ids text_leb same_text
out_enforce_example =
    out_enforce toy (record ssh_packet { port = 23 }) net rules topology (txt "127.0.0.1")
      (txt "5353") (compiled enforce_tail).0 refl (compiled enforce_tail).1

observe_drops_nothing_example :
    (traverse toy (compiled observe_tail).0.forward (record web_packet { port = 80 }) ≡ accept)
    × (traverse toy (compiled observe_tail).0.out (record web_packet { port = 80 }) ≡ accept)
unfolding toy_holds lookup parse_port sorted_ids text_leb same_text
observe_drops_nothing_example =
    observe_drops_nothing toy (record web_packet { port = 80 }) net rules topology (txt "127.0.0.1")
      (txt "5353") (compiled observe_tail).0 refl (compiled observe_tail).1

covers_host-accept_example : traverse toy (compiled enforce_tail).0.out ssh_packet ≡ accept
unfolding toy_holds covers_host parse_port lookup same_text
covers_host-accept_example =
    covers_host-accept toy ssh_packet tcp refl net rules topology (compiled enforce_tail).0
      (txt "work") (txt "127.0.0.1") (txt "5353") (ne_of_== (txt "work") host refl) refl refl refl
      (compiled enforce_tail).1

validate_iff_example :
    (validate rules (txt "work" ∷ []) ≡ [])
    ↔ (IsMode rules.mode × All (IsWellFormed (txt "work" ∷ [])) rules.rules)
validate_iff_example = validate_iff rules (txt "work" ∷ [])

-- A tailnet may have the identifier internet, and then the migrated rule set is not valid.
validate-preserving_rule_set_example :
    (validate (preserving_rule_set (txt "internet" ∷ [])) (txt "internet" ∷ []) ≡ [])
    ↔ All IsPlain (txt "internet" ∷ [])
validate-preserving_rule_set_example = validate-preserving_rule_set (txt "internet" ∷ [])

parse_port-spell_example :
    parse_port (txt "udp/1-1024") ≡ ok (record { protocol = udp; low = 1; high = 1024 })
unfolding itoa
parse_port-spell_example =
    parse_port-spell (record { protocol = udp; low = 1; high = 1024 })
      (record { protocol = inr refl; low = omega arith; ordered = omega arith; high = omega arith })

abbrev pub topology_ipv6 : TopologyIpv6
topology_ipv6 = record {
  devices = topology.devices;
  ports = topology.ports;
  host_prefixes = txt "fd00::/16" ∷ [];
  guarded_upstreams = txt "eth0" ∷ [];
}

compiled_ipv6 : (c : Compiled) × (compile_ipv6 net rules topology_ipv6 enforce_tail ≡ ok c)
unfolding host_ranges prefix_range
compiled_ipv6 =
    compile_ipv6_total net rules topology_ipv6 enforce_tail ((253 ∷ 0 ∷ b'-' ∷ 253 ∷ 255 ∷ []) ∷ [])
      valid refl

-- From the guarded upstream device to another device of the host.
abbrev escaping : ToyPacket
escaping = record web_packet { in_device = txt "eth0"; out_device = txt "eth1" }

-- The only network that these parsers answer is 253.0 with the mask 255.0.
masked :
    (prefix : Text) (ip mask : List ℕ) → net.parse_cidr prefix ≡ some (ip, mask) → IsNetwork ip mask
unfolding IsNetwork
masked prefix ip mask h =
    let e : (253 ∷ 0 ∷ [], 255 ∷ 0 ∷ []) ≡ (ip, mask) = ground (arith, h) in
    subst (λ (p : List ℕ × List ℕ). IsNetwork p.0 p.1) e
      (
        (0, 253, omega arith, omega arith, refl, refl),
        ((8, 0, omega arith, omega arith, refl, refl), tt),
      )

forward_enforce_ipv6_example :
    (extra : List Text) × AreRanges net (txt "fd00::/16" ∷ []) extra
    × (traverse toy compiled_ipv6.0.forward escaping ≡ drop)
    × (traverse toy compiled_ipv6.0.guard escaping ≡ drop)
unfolding toy_holds lookup parse_port sorted_ids text_leb same_text host_ranges prefix_range
    AreRanges top_address
forward_enforce_ipv6_example =
    forward_enforce_ipv6 toy escaping net rules topology_ipv6 compiled_ipv6.0 masked compiled_ipv6.1
