-- ===== src/Access/Compile/Verdicts.antt =====
-- What the IPv4 chains that Compile returns decide about a packet.
use hydrascale.Common.{
  Bool, true, ◌&&◌, ◌||◌, ◌≡◌, refl, ◌∙◌, some, List, [], ◌∷◌, map, Text, txt, text_eq, same_text,
  if◌then◌else◌, any, Map, ok, bind_parts, arith,
}
use hydrascale.Access.Ports.{tcp, udp}
use hydrascale.Access.Rules.{RuleSet, validate}
use hydrascale.Access.Compile.{
  Args, Net, Topology, Tail, Compiled, chain_forward, chain_out, enforce_tail, observe_tail,
  private_ranges, append_rule, device_of, sorted_ids, listen_accepts, dns_args, dns_rules,
  close_device, close_out, compile, valid_or_fail,
}
use hydrascale.Access.Netfilter.{
  Netfilter, accept, drop, next, or_else, accept_if, or_else-accept_if, traverse, judge_rule,
  traverse-append, Tests-cons, Tests-option,
}
use hydrascale.Access.Compile.Meaning.{
  enters, is_protocol, allows_forward, allows_out, judge-accept_rule,
}
use hydrascale.Access.Compile.Family.{
  Parses-valid, valid_or_fail-ok, returns, listens_to, traverse-listen_accepts, traverse-enforce,
  traverse-observe, compile_family_lem,
}

abbrev dns_match : Text → Text → Text → Text → Args
dns_match device dns_host dns_port protocol =
    txt "-i" ∷ device ∷ txt "-d" ∷ dns_host ∷ txt "-p" ∷ protocol ∷ txt "--dport" ∷ dns_port ∷ []

module _ (nf : Netfilter) (p : nf.Packet) where
  open nf use {holds}

  -- A packet of one protocol from a namespace to the DNS forwarder.
  abbrev pub to_dns : Text → Text → Text → Text → Bool
  to_dns device dns_host dns_port protocol =
      enters nf device p
      && (holds (txt "-d") dns_host p
          && (is_protocol nf protocol p && holds (txt "--dport") dns_port p))

  abbrev pub asks_dns : Map Text Text → Text → Text → Text → Bool
  asks_dns devices dns_host dns_port id =
      to_dns (device_of devices id) dns_host dns_port udp
      || to_dns (device_of devices id) dns_host dns_port tcp

  -- The packet arrives from the namespace of the tailnet.
  abbrev pub arrives_from : Map Text Text → Text → Bool
  arrives_from devices id = enters nf (device_of devices id) p

  judge-dns :
      (device dns_host dns_port protocol : Text)
      → judge_rule nf (append_rule chain_out (dns_args device dns_host dns_port protocol)) p
        ≡ accept_if (to_dns device dns_host dns_port protocol)
  unfolding dns_args same_text
  judge-dns device dns_host dns_port protocol =
      let port : Args = txt "--dport" ∷ dns_port ∷ [] in
      let with_protocol : Args = txt "-p" ∷ protocol ∷ port in
      let with_host : Args = txt "-d" ∷ dns_host ∷ with_protocol in
      judge-accept_rule nf chain_out (dns_match device dns_host dns_port protocol) p _ (
        Tests-cons nf (txt "-i") device with_host p _ refl (
          Tests-cons nf (txt "-d") dns_host with_protocol p _ refl (
            Tests-cons nf (txt "-p") protocol port p _ refl
              (Tests-option nf (txt "--dport") dns_port p refl))))

  traverse-dns_rules :
      (ids : List Text) (devices : Map Text Text) (dns_host dns_port : Text)
      → traverse nf (dns_rules ids devices dns_host dns_port) p
        ≡ accept_if (any (asks_dns devices dns_host dns_port) ids)
  unfolding dns_rules
  traverse-dns_rules [] devices dns_host dns_port = refl
  traverse-dns_rules (id ∷ ids) devices dns_host dns_port =
      rw
        (
          judge-dns (device_of devices id) dns_host dns_port udp,
          judge-dns (device_of devices id) dns_host dns_port tcp,
          traverse-dns_rules ids devices dns_host dns_port,
          or_else-accept_if,
          or_else-accept_if,
        )
        (ground arith)

  traverse-close_out :
      (ids : List Text) (devices : Map Text Text)
      → traverse nf (close_out ids devices enforce_tail) p
        ≡ (if any (arrives_from devices) ids then drop else next)
  unfolding close_out same_text
  traverse-close_out [] devices = refl
  traverse-close_out (id ∷ ids) devices =
      traverse-append nf (close_device (device_of devices id) enforce_tail)
        (close_out ids devices enforce_tail) p
      ∙ rw
          (
            traverse-enforce nf p chain_out (txt "-i" ∷ device_of devices id ∷ []) _
                (Tests-option nf (txt "-i") (device_of devices id) p refl),
            traverse-close_out ids devices,
          )
          (ground arith)

  traverse-close_out_observe :
      (ids : List Text) (devices : Map Text Text)
      → traverse nf (close_out ids devices observe_tail) p
        ≡ accept_if (any (arrives_from devices) ids)
  unfolding close_out same_text
  traverse-close_out_observe [] devices = refl
  traverse-close_out_observe (id ∷ ids) devices =
      traverse-append nf (close_device (device_of devices id) observe_tail)
        (close_out ids devices observe_tail) p
      ∙ rw
          (
            traverse-observe nf p chain_out (txt "-i" ∷ device_of devices id ∷ []) _
                (Tests-option nf (txt "-i") (device_of devices id) p refl),
            traverse-close_out_observe ids devices,
          )
          (or_else-accept_if _ _)

  abbrev pub forward_open : RuleSet → Topology → Bool
  forward_open set topo =
      returns nf p
      || (any (listens_to nf p topo.devices topo.ports) (sorted_ids topo.devices)
          || any (allows_forward nf topo.devices private_ranges p) set.rules)

  abbrev pub out_open : RuleSet → Topology → Text → Text → Bool
  out_open set topo dns_host dns_port =
      returns nf p
      || (any (asks_dns topo.devices dns_host dns_port) (sorted_ids topo.devices)
          || any (allows_out nf topo.devices p) set.rules)

  module _ (net : Net) (set : RuleSet) (topo : Topology) (dns_host dns_port : Text) where
    compile_parts :
        (tail : Tail) (c : Compiled)
        → net.split_host_port topo.dns_address ≡ some (dns_host, dns_port)
        → compile net set topo tail ≡ ok c
        → (traverse nf c.forward p
            ≡ or_else
                (accept_if (forward_open set topo))
                (traverse nf (map (append_rule chain_forward) tail) p))
          × (traverse nf c.out p
              ≡ or_else
                  (accept_if (out_open set topo dns_host dns_port))
                  (traverse nf (close_out (sorted_ids topo.devices) topo.devices tail) p))
          × (c.guard ≡ [])
    unfolding compile
    compile_parts tail c split h =
        let ids = sorted_ids topo.devices in
        let (u, valid, h₂) = bind_parts (valid_or_fail (validate set ids)) _ h in
        compile_family_lem nf p set ids topo.devices (listen_accepts ids topo.devices topo.ports)
          (dns_rules ids topo.devices dns_host dns_port) private_ranges tail c _ _
          (Parses-valid set ids (valid_or_fail-ok (validate set ids) valid))
          (traverse-listen_accepts nf p ids topo.devices topo.ports)
          (traverse-dns_rules ids topo.devices dns_host dns_port) (rw split at h₂)

    -- In the mode enforce the forward chain accepts return traffic, the packets for a tailscaled,
    -- and what a rule allows, and it drops every other packet.
    pub forward_enforce :
        (c : Compiled)
        → net.split_host_port topo.dns_address ≡ some (dns_host, dns_port)
        → compile net set topo enforce_tail ≡ ok c
        → traverse nf c.forward p ≡ (if forward_open set topo then accept else drop)
    forward_enforce c split h =
        (compile_parts enforce_tail c split h).0
        ∙ rw (traverse-enforce nf p chain_forward [] true (λ rest. refl)) (ground arith)

    -- In the mode enforce the out chain accepts return traffic, the queries to the DNS forwarder,
    -- and what a rule allows; it drops every other packet of a namespace, and it returns a packet
    -- that no namespace sent.
    pub out_enforce :
        (c : Compiled)
        → net.split_host_port topo.dns_address ≡ some (dns_host, dns_port)
        → compile net set topo enforce_tail ≡ ok c
        → traverse nf c.out p ≡ (
            if out_open set topo dns_host dns_port
            then accept
            else if any (arrives_from topo.devices) (sorted_ids topo.devices)
            then drop
            else next)
    out_enforce c split h =
        (compile_parts enforce_tail c split h).1
        ∙ rw (traverse-close_out (sorted_ids topo.devices) topo.devices) (ground arith)

    -- In the mode observe the forward chain accepts every packet, and the out chain accepts every
    -- packet of a namespace and drops none.
    pub observe_drops_nothing :
        (c : Compiled)
        → net.split_host_port topo.dns_address ≡ some (dns_host, dns_port)
        → compile net set topo observe_tail ≡ ok c
        → (traverse nf c.forward p ≡ accept)
          × (traverse nf c.out p
              ≡ accept_if (
                  out_open set topo dns_host dns_port
                  || any (arrives_from topo.devices) (sorted_ids topo.devices)))
    observe_drops_nothing c split h = (
      (compile_parts observe_tail c split h).0
          ∙ rw (traverse-observe nf p chain_forward [] true (λ rest. refl)) (ground arith),
      (compile_parts observe_tail c split h).1
          ∙ rw (traverse-close_out_observe (sorted_ids topo.devices) topo.devices)
              (or_else-accept_if _ _),
    )
