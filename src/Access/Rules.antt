-- ===== src/Access/Rules.antt =====
-- internal/access/rules.go and migrate.go: the rule set, its validation, and the rule set that
-- keeps the reachability of version 0.9.
pub mod Validation
use hydrascale.Common.{
  ℕ, suc, ◌+◌, Bool, true, false, not, ◌&&◌, ◌||◌, List, [], ◌∷◌, ◌++◌, map, Text, txt, text_eq,
  ◌==◌, leb, if◌then◌else◌, mem, any, join, Result, ok, err,
}
use hydrascale.Access.Ports.{Port, PortError, parse_port}

abbrev pub host : Text
host = txt "host"

abbrev pub internet : Text
internet = txt "internet"

abbrev pub mode_enforce : Text
mode_enforce = txt "enforce"

abbrev pub mode_observe : Text
mode_observe = txt "observe"

pub record Rule : Type 0 where
  pub from : Text
  pub to : Text
  pub ports : List Text

pub record RuleSet : Type 0 where
  pub mode : Text
  pub rules : List Rule

unfoldable pub effective_mode : RuleSet → Text
effective_mode s = if s.mode == [] then mode_enforce else s.mode

pub data RuleFailure : Type 0 where
  from_is_empty from_is_internet to_is_empty : RuleFailure
  from_is_unknown to_is_unknown from_equals_to : Text → RuleFailure
  port_is_invalid : PortError → RuleFailure

pub data SetFailure : Type 0 where
  invalid_mode : Text → SetFailure
  invalid_rule : ℕ → List RuleFailure → SetFailure

abbrev one_if : Bool → RuleFailure → List RuleFailure
one_if b e = if b then e ∷ [] else []

-- The three switches of `Rule.validate`, and its loop over the ports.
from_failures : List Text → Text → List RuleFailure
from_failures declared from =
    if from == []
    then from_is_empty ∷ []
    else if from == internet
    then from_is_internet ∷ []
    else one_if (not (from == host) && not (mem from declared)) (from_is_unknown from)

to_failures : List Text → Text → List RuleFailure
to_failures declared to =
    if to == []
    then to_is_empty ∷ []
    else one_if (not (to == host) && not (to == internet) && not (mem to declared))
        (to_is_unknown to)

port_failures : List Text → List RuleFailure
port_failures [] = []
port_failures (entry ∷ ports) = elim (parse_port entry) [
  | ok p ↦ port_failures ports
  | err e ↦ port_is_invalid e ∷ port_failures ports
]

-- `Rule.validate`; no failure stands for the nil error.
unfoldable pub validate_rule : List Text → Rule → List RuleFailure
unfolding from_failures to_failures port_failures
validate_rule declared r =
    from_failures declared r.from
    ++ (to_failures declared r.to
        ++ (one_if (not (r.from == []) && r.from == r.to) (from_equals_to r.from)
            ++ port_failures r.ports))

mode_failures : Text → List SetFailure
mode_failures mode =
    if mode == [] || mode == mode_enforce || mode == mode_observe
    then []
    else invalid_mode mode ∷ []

abbrev numbered : ℕ → List RuleFailure → List SetFailure
numbered i [] = []
numbered i (e ∷ es) = invalid_rule i (e ∷ es) ∷ []

-- The loop over the rules, with the number of the next one.
rules_failures : List Text → ℕ → List Rule → List SetFailure
rules_failures declared i [] = []
rules_failures declared i (r ∷ rs) =
    numbered i (validate_rule declared r) ++ rules_failures declared (i + 1) rs

-- `RuleSet.Validate`; no failure stands for the nil error.
unfoldable pub validate : RuleSet → List Text → List SetFailure
unfolding mode_failures rules_failures validate_rule
validate s tailnets = mode_failures s.mode ++ rules_failures tailnets 1 s.rules

-- One entry of a rule against a port.
unfoldable pub covers_port : Text → ℕ → List Text → Bool
covers_port protocol number [] = false
covers_port protocol number (entry ∷ ports) = elim (parse_port entry) [
  | ok p ↦
      p.protocol == protocol && leb p.low number && leb number p.high
      || covers_port protocol number ports
  | err e ↦ covers_port protocol number ports
]

abbrev pub no_ports : List Text → Bool
no_ports [] = true
no_ports (entry ∷ ports) = false

unfoldable pub covers_rule : Text → Text → ℕ → Rule → Bool
covers_rule from protocol number r =
    if not (r.from == from) || not (r.to == host)
    then false
    else no_ports r.ports || covers_port protocol number r.ports

-- `RuleSet.CoversHost`.
unfoldable pub covers_host : RuleSet → Text → Text → ℕ → Bool
unfolding covers_rule covers_port
covers_host s from protocol number = any (covers_rule from protocol number) s.rules

unfoldable pub preserving_rule_set : List Text → RuleSet
preserving_rule_set ids = record {
  mode = [];
  rules = map (λ id. record { from = id; to = internet; ports = [] }) ids;
}

-- `Rule.String`
unfoldable pub rule_string : Rule → Text
rule_string r =
    let ends = r.from ++ txt " -> " ++ r.to in
    if no_ports r.ports then ends else ends ++ txt " " ++ join r.ports (txt ",")
