-- ===== src/Access/Compile/Meaning.antt =====
-- What a rule set asks for, packet by packet, apart from any iptables argument, and that the match
-- of each compiled rule tests just that.
use hydrascale.Common.{
  Bool, false, not, ◌&&◌, ◌||◌, ◌≡◌, refl, ◌∙◌, inl, inr, List, [], ◌∷◌, ◌++◌, map, Text, txt,
  text_eq, same_text, ◌==◌, leb, eqb, itoa, if◌then◌else◌, any, All, Map, ok, err, arith,
  Bool-cases, subst,
}
use hydrascale.Access.Ports.{Port, parse_port, match, Parses}
use hydrascale.Access.Rules.{Rule, host, internet, no_ports}
use hydrascale.Access.Compile.{
  Args, any_device, accept_args, exclude_ranges, append_rule, device_of, with_each_port, with_ports,
}
use hydrascale.Access.Netfilter.{
  Netfilter, accept_if, traverse, judge_rule, Tests, Tests-append, Tests-option, Tests-not,
}

-- The accept rule of a match.
abbrev pub accept_rule : Text → Args → Args
accept_rule chain args = append_rule chain (args ++ accept_args)

module _ (nf : Netfilter) where
  open nf use {
    Packet, holds, judge, destination_port, judge_module, judge_accept, holds_port, holds_ports,
  }

  abbrev pub enters : Text → Packet → Bool
  enters device p = holds (txt "-i") device p

  abbrev pub leaves : Text → Packet → Bool
  leaves device p = holds (txt "-o") device p

  abbrev pub is_protocol : Text → Packet → Bool
  is_protocol protocol p = holds (txt "-p") protocol p

  abbrev pub in_range : Text → Packet → Bool
  in_range r p = holds (txt "--dst-range") r p

  -- One port entry, read by the parser of the rules.
  abbrev pub in_port : Packet → Port → Bool
  in_port p q =
      is_protocol q.protocol p
      && (leb q.low (destination_port p) && leb (destination_port p) q.high)

  abbrev pub in_entry : Packet → Text → Bool
  in_entry p entry = elim (parse_port entry) [ ok q ↦ in_port p q | err e ↦ false ]

  -- An empty port list allows every port and every protocol.
  abbrev pub in_ports : List Text → Packet → Bool
  in_ports ports p = no_ports ports || any (in_entry p) ports

  -- A destination on the internet: no namespace device and no private range.
  abbrev pub to_internet : List Text → Packet → Bool
  to_internet private p = not (leaves any_device p) && not (any (λ r. in_range r p) private)

  abbrev pub reaches : Map Text Text → List Text → Text → Packet → Bool
  reaches devices private to p =
      if to == internet then to_internet private p else leaves (device_of devices to) p

  -- The rule allows the forwarded packet.
  abbrev pub allows_forward : Map Text Text → List Text → Packet → Rule → Bool
  allows_forward devices private p r =
      not (r.from == host)
      && (not (r.to == host)
          && (enters (device_of devices r.from) p
              && reaches devices private r.to p
              && in_ports r.ports p))

  -- The rule allows the packet from a namespace to the host.
  abbrev pub allows_out : Map Text Text → Packet → Rule → Bool
  allows_out devices p r =
      not (r.from == host)
      && (r.to == host && (enters (device_of devices r.from) p && in_ports r.ports p))

  pub Tests-iff :
      (args : Args) (p : Packet) {b c : Bool} → b ≡ c → Tests nf args p b → Tests nf args p c
  Tests-iff args p e t = subst (Tests nf args p) e t

  holds-port_text :
      (q : Port) (p : Packet)
      → holds
          (txt "--dport")
          (if eqb q.high q.low then itoa q.low else itoa q.low ++ txt ":" ++ itoa q.high)
          p
        ≡ (leb q.low (destination_port p) && leb (destination_port p) q.high)
  holds-port_text q p = elim (Bool-cases (eqb q.high q.low)) [
    | inl single ↦ rw single (holds_port q.low p ∙ ground arith)
    | inr several ↦ rw several (holds_ports q.low q.high p)
  ]

  Tests-match : (q : Port) (p : Packet) → Tests nf (match q) p (in_port p q)
  unfolding match same_text
  Tests-match q p =
      let text : Text =
        if eqb q.high q.low then itoa q.low else itoa q.low ++ txt ":" ++ itoa q.high in
      Tests-append nf (txt "-p" ∷ q.protocol ∷ []) (txt "--dport" ∷ text ∷ []) p _ _
        (Tests-option nf (txt "-p") q.protocol p refl)
        (Tests-iff (txt "--dport" ∷ text ∷ []) p (holds-port_text q p)
          (Tests-option nf (txt "--dport") text p refl))

  pub Tests-ranges :
      (private : List Text) (p : Packet)
      → Tests nf (exclude_ranges private) p (not (any (λ r. in_range r p) private))
  unfolding exclude_ranges same_text
  Tests-ranges [] p rest = refl
  Tests-ranges (r ∷ rs) p rest =
      judge_module (txt "iprange") _ p
      ∙ Tests-not nf (txt "--dst-range") r p refl (exclude_ranges rs ++ rest)
      ∙ ground (arith, Tests-ranges rs p rest)

  pub judge-accept_rule :
      (chain : Text) (args : Args) (p : Packet) (b : Bool)
      → Tests nf args p b
      → judge_rule nf (accept_rule chain args) p ≡ accept_if b
  unfolding append_rule
  judge-accept_rule chain args p b t = t accept_args ∙ rw (judge_accept p)

  traverse-each_port :
      (chain : Text) (args : Args) (ports : List Text) (p : Packet) (b : Bool)
      → Tests nf args p b
      → All Parses ports
      → traverse nf (map (accept_rule chain) (with_each_port args ports)) p
        ≡ accept_if (b && any (in_entry p) ports)
  unfolding with_each_port
  traverse-each_port chain args [] p b t h = ground arith
  traverse-each_port chain args (entry ∷ ports) p b t ((q, e), h) =
      rw
        (
          e,
          judge-accept_rule chain (args ++ match q) p (b && in_port p q)
              (Tests-append nf args (match q) p b (in_port p q) t (Tests-match q p)),
          traverse-each_port chain args ports p b t h,
        )
        (ground arith)

  -- One accept rule for each port entry tests the match and the ports.
  pub traverse-with_ports :
      (chain : Text) (args : Args) (ports : List Text) (p : Packet) (b : Bool)
      → Tests nf args p b
      → All Parses ports
      → traverse nf (map (accept_rule chain) (with_ports args ports)) p
        ≡ accept_if (b && in_ports ports p)
  unfolding with_ports
  traverse-with_ports chain args [] p b t h = rw (judge-accept_rule chain args p b t) (ground arith)
  traverse-with_ports chain args (entry ∷ ports) p b t h =
      traverse-each_port chain args (entry ∷ ports) p b t h
