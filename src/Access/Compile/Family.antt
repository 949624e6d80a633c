-- ===== src/Access/Compile/Family.antt =====
-- The chains of one address family, with the rules that every namespace needs and the closing rules.
use hydrascale.Common.{
  ℕ, Bool, false, ◌&&◌, ◌||◌, ◌≡◌, refl, ◌∙◌, ap, inl, inr, none, some, List, [], ◌∷◌, ◌++◌, map,
  Text, txt, text_eq, same_text, eqb, itoa, if◌then◌else◌, any, All, All-mono, Map, lookup, ok,
  bind_parts, arith, Option-cases,
}
use hydrascale.Access.Ports.{Parses, udp}
use hydrascale.Access.Rules.{Rule, RuleSet, SetFailure, validate}
use hydrascale.Access.Rules.Validation.{IsWellFormed, validate_iff}
use hydrascale.Access.Compile.{
  Args, Tail, Compiled, chain_forward, chain_out, accept_args, established_match, enforce_tail,
  observe_tail, log_args, append_rule, device_of, listen_accepts, listen_args, compile_rules,
  close_out, closed, compile_family, valid_or_fail,
}
use hydrascale.Access.Netfilter.{
  Netfilter, Verdict, drop, next, or_else, accept_if, or_else_next, traverse, judge_rule,
  traverse-append, Tests, Tests-cons, Tests-module, Tests-option,
}
use hydrascale.Access.Compile.Meaning.{
  leaves, is_protocol, allows_forward, allows_out, Tests-iff, judge-accept_rule,
}
use hydrascale.Access.Compile.Rules.{compile_rules_lem}

-- A valid rule set has no port entry that the parser refuses.
pub Parses-valid :
    (set : RuleSet) (ids : List Text)
    → validate set ids ≡ []
    → All (λ (r : Rule). All Parses r.ports) set.rules
Parses-valid set ids h =
    All-mono (λ (r : Rule) (w : IsWellFormed ids r). w.ports) set.rules
      ((validate_iff set ids).0 h).1

pub valid_or_fail-ok : (es : List SetFailure) → valid_or_fail es ≡ ok tt → es ≡ []
valid_or_fail-ok [] h = refl
valid_or_fail-ok (e ∷ es) h = cc

-- The match of a listen rule, without its target.
abbrev listen_match : Text → ℕ → Args
listen_match device port =
    txt "-o"
    ∷ device
    ∷ txt "-p"
    ∷ udp
    ∷ txt "--dport"
    ∷ itoa port
    ∷ txt "-m"
    ∷ txt "conntrack"
    ∷ txt "--ctstate"
    ∷ txt "DNAT"
    ∷ []

module _ (nf : Netfilter) (p : nf.Packet) where
  open nf use {
    holds, judge, destination_port, judge_module, judge_accept, judge_drop, judge_log, judge_option,
    holds_port,
  }

  -- Return traffic of a connection that a rule already allowed.
  abbrev pub returns : Bool
  returns = holds (txt "--ctstate") (txt "RELATED,ESTABLISHED") p

  -- A packet that the host sent on to the port of the tailscaled of the tailnet.
  abbrev pub listens_to : Map Text Text → Map Text ℕ → Text → Bool
  listens_to devices ports id = elim (lookup id ports) [
    | none ↦ false
    | some port ↦
        leaves nf (device_of devices id) p
        && (is_protocol nf udp p
            && (eqb (destination_port p) port && holds (txt "--ctstate") (txt "DNAT") p))
  ]

  judge-established :
      (chain : Text) → judge_rule nf (append_rule chain established_match) p ≡ accept_if returns
  unfolding append_rule same_text
  judge-established chain =
      judge_module (txt "conntrack") _ p
      ∙ (judge_option (txt "--ctstate") (txt "RELATED,ESTABLISHED") accept_args p refl
          ∙ rw (judge_accept p))

  Tests-listen :
      (device : Text) (port : ℕ)
      → Tests nf (listen_match device port) p (
          leaves nf device p
          && (is_protocol nf udp p
              && (eqb (destination_port p) port && holds (txt "--ctstate") (txt "DNAT") p)))
  unfolding same_text
  Tests-listen device port =
      let state : Args = txt "--ctstate" ∷ txt "DNAT" ∷ [] in
      let state' : Args = txt "-m" ∷ txt "conntrack" ∷ state in
      let with_port : Args = txt "--dport" ∷ itoa port ∷ state' in
      let with_protocol : Args = txt "-p" ∷ udp ∷ with_port in
      Tests-cons nf (txt "-o") device with_protocol p _ refl (
        Tests-cons nf (txt "-p") udp with_port p _ refl (
          Tests-iff nf with_port p
            (ap (λ b. b && holds (txt "--ctstate") (txt "DNAT") p) (holds_port port p))
            (Tests-cons nf (txt "--dport") (itoa port) state' p _ refl (
              Tests-module nf (txt "conntrack") state p _
                (Tests-option nf (txt "--ctstate") (txt "DNAT") p refl)))))

  judge-listen :
      (devices : Map Text Text) (id : Text) (port : ℕ)
      → judge_rule nf (append_rule chain_forward (listen_args devices id port)) p
        ≡ accept_if (
            leaves nf (device_of devices id) p
            && (is_protocol nf udp p
                && (eqb (destination_port p) port && holds (txt "--ctstate") (txt "DNAT") p)))
  unfolding listen_args
  judge-listen devices id port =
      judge-accept_rule nf chain_forward (listen_match (device_of devices id) port) p _
        (Tests-listen (device_of devices id) port)

  pub traverse-listen_accepts :
      (ids : List Text) (devices : Map Text Text) (ports : Map Text ℕ)
      → traverse nf (listen_accepts ids devices ports) p
        ≡ accept_if (any (listens_to devices ports) ids)
  unfolding listen_accepts
  traverse-listen_accepts [] devices ports = refl
  traverse-listen_accepts (id ∷ ids) devices ports = elim (Option-cases (lookup id ports)) [
    | inl absent ↦ ground (arith, absent, traverse-listen_accepts ids devices ports)
    | inr (port, e) ↦
        ground (arith, e, traverse-listen_accepts ids devices ports, judge-listen devices id port)
  ]

  judge-log : judge log_args p ≡ next
  unfolding same_text
  judge-log =
      judge_module (txt "limit") _ p
      ∙ (judge_option (txt "--limit") (txt "60/minute") _ p refl
          ∙ rw (judge_log _ p) (ground arith))

  pub traverse-enforce :
      (chain : Text) (args : Args) (b : Bool)
      → Tests nf args p b
      → traverse nf (map (λ closing. append_rule chain (args ++ closing)) enforce_tail) p
        ≡ (if b then drop else next)
  unfolding append_rule
  traverse-enforce chain args b t =
      or_else_next _ ∙ (t (txt "-j" ∷ txt "DROP" ∷ []) ∙ rw (judge_drop p))

  pub traverse-observe :
      (chain : Text) (args : Args) (b : Bool)
      → Tests nf args p b
      → traverse nf (map (λ closing. append_rule chain (args ++ closing)) observe_tail) p
        ≡ accept_if b
  unfolding append_rule
  traverse-observe chain args b t =
      rw (t log_args, t accept_args, judge-log, judge_accept p) (ground arith)

  opened :
      {first rest : Verdict} (a l b : Bool)
      → first ≡ accept_if a
      → rest ≡ accept_if l
      → or_else (or_else first rest) (accept_if b) ≡ accept_if (a || (l || b))
  opened a l b h k = ground arith

  -- The verdicts of the chains of one family, up to their closing rules.
  pub compile_family_lem :
      (set : RuleSet) (ids : List Text) (devices : Map Text Text) (listen open_rules : List Args)
      (private : List Text) (tail : Tail) (c : Compiled) (l o : Bool)
      → All (λ (r : Rule). All Parses r.ports) set.rules
      → traverse nf listen p ≡ accept_if l
      → traverse nf open_rules p ≡ accept_if o
      → compile_family set ids devices listen open_rules private tail ≡ ok c
      → (traverse nf c.forward p
          ≡ or_else
              (accept_if (returns || (l || any (allows_forward nf devices private p) set.rules)))
              (traverse nf (map (append_rule chain_forward) tail) p))
        × (traverse nf c.out p
            ≡ or_else
                (accept_if (returns || (o || any (allows_out nf devices p) set.rules)))
                (traverse nf (close_out ids devices tail) p))
        × (c.guard ≡ [])
  unfolding compile_family
  compile_family_lem set ids devices listen open_rules private tail c l o parsed hl ho h =
      let (c', rules, e) = bind_parts (compile_rules set.rules devices private _) _ h in
      let same : closed ids devices tail c' ≡ c = ground arith in
      let (f, g) = compile_rules_lem nf devices private p set.rules _ c' parsed rules in
      rw (← same) (
        traverse-append nf c'.0 (map (append_rule chain_forward) tail) p
            ∙ ap (λ v. or_else v (traverse nf (map (append_rule chain_forward) tail) p))
                (f ∙ opened _ _ _ (judge-established chain_forward) hl),
        traverse-append nf c'.1 (close_out ids devices tail) p
            ∙ ap (λ v. or_else v (traverse nf (close_out ids devices tail) p))
                (g ∙ opened _ _ _ (judge-established chain_out) ho),
        refl,
      )
