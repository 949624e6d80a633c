-- ===== src/Access/Compile/Covers.antt =====
-- A port that CoversHost reports as covered passes the compiled out chain.
use hydrascale.Common.{
  true, ◌≡◌, ◌≢◌, ◌∙◌, some, List, [], ◌∷◌, Text, text_eq, ==_iff, any, Map, ok, Result-cases, inl,
  inr, arith,
}
use hydrascale.Access.Ports.{parse_port}
use hydrascale.Access.Rules.{Rule, RuleSet, host, covers_port, covers_rule, covers_host}
use hydrascale.Access.Compile.{Net, Topology, Compiled, enforce_tail, device_of, compile}
use hydrascale.Access.Netfilter.{Netfilter, accept, traverse}
use hydrascale.Access.Compile.Meaning.{enters, is_protocol, in_entry, allows_out}
use hydrascale.Access.Compile.Verdicts.{out_enforce}

module _ (nf : Netfilter) (p : nf.Packet) (protocol : Text)
    (spoken : is_protocol nf protocol p ≡ true) where
  open nf use {destination_port}

  covers_port-in_entry :
      (ports : List Text)
      → covers_port protocol (destination_port p) ports ≡ true
      → any (in_entry nf p) ports ≡ true
  unfolding covers_port
  covers_port-in_entry [] h = h
  covers_port-in_entry (entry ∷ ports) h = elim (Result-cases (parse_port entry)) [
    | inl (q, e) ↦ ground (arith, e, ==_iff q.protocol protocol, covers_port-in_entry ports)
    | inr (failure, e) ↦ ground (arith, e, covers_port-in_entry ports)
  ]

  covers_rule-allows :
      (devices : Map Text Text) (id : Text) (r : Rule)
      → id ≢ host
      → enters nf (device_of devices id) p ≡ true
      → covers_rule id protocol (destination_port p) r ≡ true
      → allows_out nf devices p r ≡ true
  unfolding covers_rule
  covers_rule-allows devices id r named arrives h =
      ground (arith, ==_iff r.from id, ==_iff r.from host, covers_port-in_entry r.ports)

  any-covers_rule :
      (devices : Map Text Text) (id : Text) (rules : List Rule)
      → id ≢ host
      → enters nf (device_of devices id) p ≡ true
      → any (covers_rule id protocol (destination_port p)) rules ≡ true
      → any (allows_out nf devices p) rules ≡ true
  any-covers_rule devices id [] named arrives h = h
  any-covers_rule devices id (r ∷ rules) named arrives h = ground (
    arith,
    covers_rule-allows devices id r named arrives,
    any-covers_rule devices id rules named arrives,
  )

  -- A packet of a tailnet for a port that CoversHost reports as covered reaches the host: the out
  -- chain of the mode enforce accepts it.
  pub covers_host-accept :
      (net : Net) (set : RuleSet) (topo : Topology) (c : Compiled) (id dns_host dns_port : Text)
      → id ≢ host
      → enters nf (device_of topo.devices id) p ≡ true
      → covers_host set id protocol (destination_port p) ≡ true
      → net.split_host_port topo.dns_address ≡ some (dns_host, dns_port)
      → compile net set topo enforce_tail ≡ ok c
      → traverse nf c.out p ≡ accept
  unfolding covers_host
  covers_host-accept net set topo c id dns_host dns_port named arrives covered split h =
      let allowed = any-covers_rule topo.devices id set.rules named arrives covered in
      out_enforce nf p net set topo dns_host dns_port c split h ∙ rw allowed (ground arith)
