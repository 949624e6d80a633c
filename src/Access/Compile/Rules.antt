-- ===== src/Access/Compile/Rules.antt =====
-- The rules that the loop over the rule set adds to the two chains decide a packet as the rule set
-- says.
use hydrascale.Common.{
  Bool, true, false, ◌&&◌, ◌||◌, ◌≡◌, refl, sym, ◌∙◌, ◌⊎◌, inl, inr, List, [], ◌∷◌, ◌++◌,
  append-nil, append_assoc, map, Text, txt, text_eq, same_text, ◌==◌, if◌then◌else◌, any, All, Map,
  ok, arith, Bool-cases, ap, bind_parts,
}
use hydrascale.Access.Ports.{Parses}
use hydrascale.Access.Rules.{Rule, host, internet}
use hydrascale.Access.Compile.{
  Args, Chains, chain_forward, chain_out, any_device, exclude_ranges, device_of, compile_rule,
  with_ports, add_matches, compile_rules,
}
use hydrascale.Access.Netfilter.{
  Netfilter, Verdict, or_else, accept_if, or_else_next, or_else_assoc, traverse, traverse-append,
  Tests, Tests-append, Tests-option, Tests-not,
}
use hydrascale.Access.Compile.Meaning.{
  enters, in_ports, reaches, allows_forward, allows_out, accept_rule, Tests-ranges,
  traverse-with_ports,
}

add_matches-forward :
    (ms : List Args) (f o : List Args)
    → add_matches chain_forward ms (f, o) ≡ (f ++ map (accept_rule chain_forward) ms, o)
unfolding add_matches same_text
add_matches-forward [] f o = rw append-nil
add_matches-forward (m ∷ ms) f o =
    add_matches-forward ms (f ++ accept_rule chain_forward m ∷ []) o ∙ rw append_assoc

add_matches-out :
    (ms : List Args) (f o : List Args)
    → add_matches chain_out ms (f, o) ≡ (f, o ++ map (accept_rule chain_out) ms)
unfolding add_matches same_text
add_matches-out [] f o = rw append-nil
add_matches-out (m ∷ ms) f o =
    add_matches-out ms f (o ++ accept_rule chain_out m ∷ []) ∙ rw append_assoc

-- The part of a forward match behind the source device.
abbrev destination_args : Map Text Text → List Text → Text → Args
destination_args devices private to =
    if to == internet
    then txt "!" ∷ txt "-o" ∷ any_device ∷ exclude_ranges private
    else txt "-o" ∷ device_of devices to ∷ []

-- The three results of `compileRule`.
abbrev SkipsHost : Rule → Text → Type 0
SkipsHost r chain = ((r.from == host) ≡ true) × (chain ≡ [])

abbrev MatchesOut : Map Text Text → Rule → Text → Args → Type 0
MatchesOut devices r chain args =
    ((r.from == host) ≡ false)
    × ((r.to == host) ≡ true)
    × (chain ≡ chain_out)
    × (args ≡ txt "-i" ∷ device_of devices r.from ∷ [])

abbrev MatchesForward : Map Text Text → List Text → Rule → Text → Args → Type 0
MatchesForward devices private r chain args =
    ((r.from == host) ≡ false)
    × ((r.to == host) ≡ false)
    × (chain ≡ chain_forward)
    × (args ≡ txt "-i" ∷ device_of devices r.from ∷ destination_args devices private r.to)

compile_rule_cases :
    (r : Rule) (devices : Map Text Text) (private : List Text) (chain : Text) (args : Args)
    → compile_rule r devices private ≡ ok (chain, args)
    → SkipsHost r chain
      ⊎ MatchesOut devices r chain args
      ⊎ MatchesForward devices private r chain args
unfolding compile_rule
compile_rule_cases r devices private chain args h = ground arith

module _ (nf : Netfilter) (devices : Map Text Text) (private : List Text) (p : nf.Packet) where
  Tests-destination :
      (to : Text)
      → Tests nf (destination_args devices private to) p (reaches nf devices private to p)
  unfolding same_text
  Tests-destination to = elim (Bool-cases (to == internet)) [
    | inl public ↦ rw public (
        Tests-append nf (txt "!" ∷ txt "-o" ∷ any_device ∷ []) (exclude_ranges private) p _ _
          (Tests-not nf (txt "-o") any_device p refl) (Tests-ranges nf private p))
    | inr other ↦ rw other (Tests-option nf (txt "-o") (device_of devices to) p refl)
  ]

  out_match :
      (r : Rule)
      → All Parses r.ports
      → traverse nf
          (map
            (accept_rule chain_out)
            (with_ports (txt "-i" ∷ device_of devices r.from ∷ []) r.ports))
          p
        ≡ accept_if (enters nf (device_of devices r.from) p && in_ports nf r.ports p)
  unfolding same_text
  out_match r parsed =
      traverse-with_ports nf chain_out _ r.ports p _
        (Tests-option nf (txt "-i") (device_of devices r.from) p refl) parsed

  forward_match :
      (r : Rule)
      → All Parses r.ports
      → traverse nf
          (map (accept_rule chain_forward) (
            with_ports
              (txt "-i" ∷ device_of devices r.from ∷ destination_args devices private r.to)
              r.ports))
          p
        ≡ accept_if (
            enters nf (device_of devices r.from) p
            && reaches nf devices private r.to p
            && in_ports nf r.ports p)
  unfolding same_text
  forward_match r parsed =
      traverse-with_ports nf chain_forward _ r.ports p _
        (Tests-append nf (txt "-i" ∷ device_of devices r.from ∷ [])
          (destination_args devices private r.to) p _ _
          (Tests-option nf (txt "-i") (device_of devices r.from) p refl) (Tests-destination r.to))
        parsed

  -- What one turn of the loop adds to each chain.
  abbrev Adds : Chains → Chains → Rule → Type 0
  Adds c c' r =
      (traverse nf c'.0 p
        ≡ or_else (traverse nf c.0 p) (accept_if (allows_forward nf devices private p r)))
      × (traverse nf c'.1 p ≡ or_else (traverse nf c.1 p) (accept_if (allows_out nf devices p r)))

  add_rule_lem :
      (r : Rule) (c : Chains) (chain : Text) (args : Args)
      → All Parses r.ports
      → compile_rule r devices private ≡ ok (chain, args)
      → Adds c (if chain == [] then c else add_matches chain (with_ports args r.ports) c) r
  unfolding same_text
  add_rule_lem r (f, o) chain args parsed h =
      elim (compile_rule_cases r devices private chain args h) [
        | inl (source, empty) ↦
            rw (empty, source)
              (sym (or_else_next (traverse nf f p)), sym (or_else_next (traverse nf o p)))
        | inr (inl (source, target, e, m)) ↦
            rw (e, m, source, target, add_matches-out)
              (
                sym (or_else_next (traverse nf f p)),
                traverse-append nf o _ p ∙ ap (or_else (traverse nf o p)) (out_match r parsed),
              )
        | inr (inr (source, target, e, m)) ↦
            rw (e, m, source, target, add_matches-forward)
              (
                traverse-append nf f _ p ∙ ap (or_else (traverse nf f p)) (forward_match r parsed),
                sym (or_else_next (traverse nf o p)),
              )
      ]

  joined :
      (start : Verdict) (a b : Bool) {mid end : Verdict}
      → end ≡ or_else mid (accept_if b)
      → mid ≡ or_else start (accept_if a)
      → end ≡ or_else start (accept_if (a || b))
  joined start a b h k = ground (arith, or_else_assoc start (accept_if a) (accept_if b))

  -- The loop over the rule set appends rules that accept what some rule of the set allows.
  pub compile_rules_lem :
      (rs : List Rule) (c c' : Chains)
      → All (λ (r : Rule). All Parses r.ports) rs
      → compile_rules rs devices private c ≡ ok c'
      → (traverse nf c'.0 p
          ≡ or_else (traverse nf c.0 p) (accept_if (any (allows_forward nf devices private p) rs)))
        × (traverse nf c'.1 p
            ≡ or_else (traverse nf c.1 p) (accept_if (any (allows_out nf devices p) rs)))
  unfolding compile_rules
  compile_rules_lem [] c c' parsed h =
      let same : c ≡ c' = ground arith in
      rw (← same) (sym (or_else_next (traverse nf c.0 p)), sym (or_else_next (traverse nf c.1 p)))
  compile_rules_lem (r ∷ rs) c c' (first, parsed) h =
      let ((chain, args), one, more) = bind_parts (compile_rule r devices private) _ h in
      let added = add_rule_lem r c chain args first one in
      let rest = compile_rules_lem rs _ c' parsed more in
      (joined (traverse nf c.0 p) _ _ rest.0 added.0, joined (traverse nf c.1 p) _ _ rest.1 added.1)
