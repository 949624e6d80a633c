-- ===== src/Reconciler/Endpoints.antt =====
-- internal/reconciler/reconciler.go: declaredRules, the filter of the rules before the compiler.
use hydrascale.Common.{
  Bool, true, not, ◌||◌, ◌≡◌, refl, inl, inr, List, [], ◌∷◌, ◌++◌, Text, txt, text_eq, ◌==◌, ==_iff,
  if◌then◌else◌, All, Map, keys, mem-keys, lookup, is_some, arith,
}
use hydrascale.Access.Rules.{Rule, RuleSet, host, internet, validate}
use hydrascale.Access.Rules.Validation.{IsWellFormed, IsSource, IsDestination, validate_iff}
use hydrascale.Reconciler.{State, emit}

-- `endpointDeclared`
unfoldable pub endpoint_declared : Map Text Text → Text → Bool
endpoint_declared devices endpoint =
    endpoint == host || endpoint == internet || is_some (lookup endpoint devices)

-- `declaredRules`; `print` is Rule.String.
unfoldable pub declared_rules :
    (Rule → Text) → Map Text Text → List Rule → State → List Rule × State
unfolding endpoint_declared
declared_rules print devices [] s = ([], s)
declared_rules print devices (r ∷ rules) s =
    let message = print r ++ txt ": the configuration file declares no such tailnet" in
    let skipped =
      declared_rules print devices rules (emit (txt "access.rule_dropped") [] message s) in
    let (kept, next) = declared_rules print devices rules s in
    if not (endpoint_declared devices r.from) || not (endpoint_declared devices r.to)
    then skipped
    else (r ∷ kept, next)

endpoint_declared-source :
    (devices : Map Text Text) (from : Text)
    → IsSource (keys devices) from
    → endpoint_declared devices from ≡ true
unfolding endpoint_declared
endpoint_declared-source devices from (a, b, inl e) = ground (arith, (==_iff from host).1 e)
endpoint_declared-source devices from (a, b, inr m) = ground (arith, m, mem-keys from devices)

endpoint_declared-destination :
    (devices : Map Text Text) (to : Text)
    → IsDestination (keys devices) to
    → endpoint_declared devices to ≡ true
unfolding endpoint_declared
endpoint_declared-destination devices to (a, inl e) = ground (arith, (==_iff to host).1 e)
endpoint_declared-destination devices to (a, inr (inl e)) = ground (arith, (==_iff to internet).1 e)
endpoint_declared-destination devices to (a, inr (inr m)) = ground (arith, m, mem-keys to devices)

declared_rules_keeps :
    (print : Rule → Text) (devices : Map Text Text) (rules : List Rule) (s : State)
    → All (IsWellFormed (keys devices)) rules
    → declared_rules print devices rules s ≡ (rules, s)
unfolding declared_rules
declared_rules_keeps print devices [] s h = refl
declared_rules_keeps print devices (r ∷ rules) s (w, h) =
    let source = endpoint_declared-source devices r.from w.source in
    let destination = endpoint_declared-destination devices r.to w.destination in
    let rest = declared_rules_keeps print devices rules s h in
    rw (source, destination) (rw rest refl)

-- A rule set that passes Validate for the tailnets of the devices loses no rule to declaredRules, and
-- declaredRules records no event. LoadConfig validates the set first, so the filter never acts.
pub declared_rules_validated :
    (print : Rule → Text) (devices : Map Text Text) (set : RuleSet) (s : State)
    → validate set (keys devices) ≡ []
    → declared_rules print devices set.rules s ≡ (set.rules, s)
declared_rules_validated print devices set s valid =
    declared_rules_keeps print devices set.rules s ((validate_iff set (keys devices)).0 valid).1
