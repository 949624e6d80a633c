-- ===== src/Config/Publish.antt =====
-- internal/config/config.go: the published ports of each tailnet.
pub mod Validation
use hydrascale.Common.{
  ℕ, Bool, true, false, not, ◌&&◌, ◌||◌, ◌≡◌, ◌↔◌, refl, Option, none, some, List, [], ◌∷◌, ◌++◌,
  Text, txt, text_eq, ◌==◌, eqb, if◌then◌else◌, mem, map, Result, ok, err, HasEq, arith, ==_iff,
  eqb_iff,
}
use hydrascale.Access.Ports.{PortError, PublishedPort, parse_publish_port}
use hydrascale.Access.Rules.{RuleSet, covers_host}
use hydrascale.Config.{Tailnet}

pub data PublishError : Type 0 where
  host_access_off : Text → PublishError
  invalid_entry : Text → Text → PortError → PublishError
  duplicate_entry uncovered_entry : Text → Text → PublishError

pub same_published : PublishedPort → PublishedPort → Bool
same_published p q = p.protocol == q.protocol && eqb p.number q.number

pub same_published_iff : (p q : PublishedPort) → (same_published p q ≡ true) ↔ (p ≡ q)
unfolding same_published
same_published_iff p q = (
  λ h. ground (arith, ==_iff p.protocol q.protocol),
  λ h. ground (arith, ==_iff p.protocol q.protocol),
)

-- Two published ports are one key of a Go map when their fields are equal.
instance pub published_eq : HasEq PublishedPort
published_eq = record { same = same_published; same_iff = same_published_iff }

-- The loop over the entries of one tailnet; `seen` holds the ports of the entries before.
publish_entries : RuleSet → Text → Bool → List PublishedPort → List Text → List PublishError
publish_entries rules id on seen [] = []
publish_entries rules id on seen (entry ∷ entries) =
    let skipped = publish_entries rules id on seen entries in
    elim (parse_publish_port entry) [
      | err e ↦ invalid_entry id entry e ∷ skipped
      | ok p ↦
          let rest = publish_entries rules id on (p ∷ seen) entries in
          if mem p seen
          then duplicate_entry id entry ∷ skipped
          else if on && not (covers_host rules id p.protocol p.number)
          then uncovered_entry id entry ∷ rest
          else rest
    ]

-- The body of the loop over the tailnets.
publish_list : RuleSet → Bool → Text → List Text → List PublishError
unfolding publish_entries
publish_list rules on id [] = []
publish_list rules on id (entry ∷ entries) =
    let failures = publish_entries rules id on [] (entry ∷ entries) in
    if not on then host_access_off id ∷ failures else failures

publish_tailnets : RuleSet → (Text → Bool) → List Tailnet → List PublishError
publish_tailnets rules host_access [] = []
publish_tailnets rules host_access (tn ∷ tns) =
    publish_list rules (host_access tn.id) tn.id tn.publish
    ++ publish_tailnets rules host_access tns

-- The rules of a rule set that may be absent.
unfoldable pub rules_or_none : Option RuleSet → RuleSet
rules_or_none none = record { mode = []; rules = [] }
rules_or_none (some set) = set

-- `ValidatePublish`; no failure stands for the nil error.
unfoldable pub validate_publish : List Tailnet → (Text → Bool) → Option RuleSet → List PublishError
unfolding rules_or_none publish_tailnets publish_list
validate_publish tailnets host_access set =
    publish_tailnets (rules_or_none set) host_access tailnets
