-- ===== src/Access/Rules/Validation.antt =====
-- RuleSet.Validate reports no failure for exactly the well-formed rule sets.
use hydrascale.Common.{
  ℕ, ◌+◌, true, not, ◌&&◌, ◌≡◌, ◌≢◌, ◌↔◌, ◌⊎◌, inl, inr, refl, List, [], ◌∷◌, ◌++◌, Text, text_eq,
  ◌==◌, ==_iff, if◌then◌else◌, mem, All, All-mem_self, Result-cases, arith,
}
use hydrascale.Access.Ports.{parse_port, Parses}
use hydrascale.Access.Rules.{
  Rule, RuleSet, RuleFailure, from_equals_to, host, internet, mode_enforce, mode_observe,
  from_failures, to_failures, port_failures, validate_rule, mode_failures, rules_failures, numbered,
  validate, preserving_rule_set,
}

-- A source is the host or a declared tailnet.
abbrev pub IsSource : List Text → Text → Type 0
IsSource declared from =
    (from ≢ []) × (from ≢ internet) × ((from ≡ host) ⊎ (mem from declared ≡ true))

-- A destination is the host, the internet or a declared tailnet.
abbrev pub IsDestination : List Text → Text → Type 0
IsDestination declared to = (to ≢ []) × ((to ≡ host) ⊎ (to ≡ internet) ⊎ (mem to declared ≡ true))

pub record IsWellFormed (declared : List Text) (r : Rule) : Type 0 where
  pub source : IsSource declared r.from
  pub destination : IsDestination declared r.to
  pub distinct : r.from ≢ r.to
  pub ports : All Parses r.ports

abbrev pub IsMode : Text → Type 0
IsMode mode = (mode ≡ []) ⊎ (mode ≡ mode_enforce) ⊎ (mode ≡ mode_observe)

from_failures_iff :
    (declared : List Text) (from : Text)
    → (from_failures declared from ≡ []) ↔ IsSource declared from
unfolding from_failures
from_failures_iff declared from = (
  λ h. ground (arith, ==_iff from [], ==_iff from internet, ==_iff from host),
  λ h. ground (arith, ==_iff from [], ==_iff from internet, ==_iff from host),
)

to_failures_iff :
    (declared : List Text) (to : Text) → (to_failures declared to ≡ []) ↔ IsDestination declared to
unfolding to_failures
to_failures_iff declared to = (
  λ h. ground (arith, ==_iff to [], ==_iff to internet, ==_iff to host),
  λ h. ground (arith, ==_iff to [], ==_iff to internet, ==_iff to host),
)

port_failures_iff : (ports : List Text) → (port_failures ports ≡ []) ↔ All Parses ports
unfolding port_failures
port_failures_iff [] = (λ h. tt, λ h. refl)
port_failures_iff (entry ∷ ports) = elim (Result-cases (parse_port entry)) [
  | inl (q, e) ↦ (
    λ h. ((q, e), (port_failures_iff ports).0 (rw (e, port_failures) at h)),
    λ h. rw (e, port_failures) ((port_failures_iff ports).1 h.1),
  )
  | inr (failure, e) ↦ (λ h. absurd (ground arith), λ h. absurd (ground arith))
]

append-eq-nil {ℓ} : {A : Type ℓ} (xs ys : List A) → (xs ++ ys ≡ []) ↔ ((xs ≡ []) × (ys ≡ []))
append-eq-nil [] ys = (λ h. (refl, h), λ h. h.1)
append-eq-nil (x ∷ xs) ys = (λ h. cc, λ h. cc)

abbrev equal_failures : Rule → List RuleFailure
equal_failures r = if not (r.from == []) && r.from == r.to then from_equals_to r.from ∷ [] else []

equal_failures_iff : (r : Rule) → r.from ≢ [] → (equal_failures r ≡ []) ↔ (r.from ≢ r.to)
equal_failures_iff r named = (
  λ h. ground (arith, ==_iff r.from [], ==_iff r.from r.to),
  λ h. ground (arith, ==_iff r.from [], ==_iff r.from r.to),
)

validate_rule_iff :
    (declared : List Text) (r : Rule) → (validate_rule declared r ≡ []) ↔ IsWellFormed declared r
unfolding validate_rule
validate_rule_iff declared r = (
  λ h.
      let (source, h₁) = (append-eq-nil (from_failures declared r.from) _).0 h in
      let (destination, h₂) = (append-eq-nil (to_failures declared r.to) _).0 h₁ in
      let (different, parsed) = (append-eq-nil (equal_failures r) _).0 h₂ in
      let s = (from_failures_iff declared r.from).0 source in
      record {
        source = s;
        destination = (to_failures_iff declared r.to).0 destination;
        distinct = (equal_failures_iff r s.0).0 different;
        ports = (port_failures_iff r.ports).0 parsed;
      },
  λ w. (append-eq-nil (from_failures declared r.from) _).1 (
    (from_failures_iff declared r.from).1 w.source,
    (append-eq-nil (to_failures declared r.to) _).1 (
      (to_failures_iff declared r.to).1 w.destination,
      (append-eq-nil (equal_failures r) _).1
          ((equal_failures_iff r w.source.0).1 w.distinct, (port_failures_iff r.ports).1 w.ports),
    ),
  ),
)

numbered-eq-nil : (i : ℕ) (es : List RuleFailure) → (numbered i es ≡ []) ↔ (es ≡ [])
numbered-eq-nil i [] = (λ h. refl, λ h. refl)
numbered-eq-nil i (e ∷ es) = (λ h. cc, λ h. cc)

rules_failures_iff :
    (declared : List Text) (i : ℕ) (rs : List Rule)
    → (rules_failures declared i rs ≡ []) ↔ All (IsWellFormed declared) rs
unfolding rules_failures
rules_failures_iff declared i [] = (λ h. tt, λ h. refl)
rules_failures_iff declared i (r ∷ rs) =
    let here = numbered-eq-nil i (validate_rule declared r) in
    let rule = validate_rule_iff declared r in
    let rest = rules_failures_iff declared (i + 1) rs in
    let both =
      append-eq-nil (numbered i (validate_rule declared r)) (rules_failures declared (i + 1) rs) in
    (
      λ h. let (a, b) = both.0 h in (rule.0 (here.0 a), rest.0 b),
      λ w. both.1 (here.1 (rule.1 w.0), rest.1 w.1),
    )

mode_failures_iff : (mode : Text) → (mode_failures mode ≡ []) ↔ IsMode mode
unfolding mode_failures
mode_failures_iff mode = (
  λ h. ground (arith, ==_iff mode [], ==_iff mode mode_enforce, ==_iff mode mode_observe),
  λ h. ground (arith, ==_iff mode [], ==_iff mode mode_enforce, ==_iff mode mode_observe),
)

-- Validate reports no failure exactly when the mode is empty, enforce or observe and every rule is
-- well-formed: its source is the host or a declared tailnet, its destination is the host, the
-- internet or a declared tailnet, the two differ, and every port entry parses.
pub validate_iff :
    (s : RuleSet) (tailnets : List Text)
    → (validate s tailnets ≡ []) ↔ (IsMode s.mode × All (IsWellFormed tailnets) s.rules)
unfolding validate
validate_iff s tailnets =
    let both = append-eq-nil (mode_failures s.mode) (rules_failures tailnets 1 s.rules) in
    let mode = mode_failures_iff s.mode in
    let rules = rules_failures_iff tailnets 1 s.rules in
    (λ h. let (a, b) = both.0 h in (mode.0 a, rules.0 b), λ w. both.1 (mode.1 w.0, rules.1 w.1))

-- An identifier that a source may have.
abbrev pub IsPlain : Text → Type 0
IsPlain id = (id ≢ []) × (id ≢ internet)

preserving-All :
    (all ids : List Text)
    → All (λ id. mem id all ≡ true) ids
    → All IsPlain ids
    → All (IsWellFormed all) (preserving_rule_set ids).rules
unfolding preserving_rule_set
preserving-All all [] m h = tt
preserving-All all (id ∷ ids) (m, ms) (p, h) = (
  record {
    source = (p.0, p.1, inr m);
    destination = (λ e. cc, inr (inl refl));
    distinct = p.1;
    ports = tt;
  },
  preserving-All all ids ms h,
)

preserving-IsPlain :
    (all ids : List Text) → All (IsWellFormed all) (preserving_rule_set ids).rules → All IsPlain ids
unfolding preserving_rule_set
preserving-IsPlain all [] h = tt
preserving-IsPlain all (id ∷ ids) (w, h) = ((w.source.0, w.source.1), preserving-IsPlain all ids h)

-- The rule set that keeps the reachability of version 0.9 passes Validate exactly when no
-- identifier is empty or the word internet.
pub validate-preserving_rule_set :
    (ids : List Text) → (validate (preserving_rule_set ids) ids ≡ []) ↔ All IsPlain ids
validate-preserving_rule_set ids = (
  λ h. preserving-IsPlain ids ids ((validate_iff (preserving_rule_set ids) ids).0 h).1,
  λ h.
      (validate_iff (preserving_rule_set ids) ids).1
        (unfold preserving_rule_set in inl refl, preserving-All ids ids (All-mem_self ids) h),
)
