-- ===== src/Config/Publish/Validation.antt =====
-- What a publish list that passes ValidatePublish guarantees.
use hydrascale.Common.{
  nil_parts, Bool, true, false, not, ◌&&◌, ◌≡◌, refl, Option, none, some, List, [], ◌∷◌, ◌⊎◌, ◌↔◌,
  inl, inr, Text, text_eq, ==_iff, mem, nodup, all, All, ok, err, Result-cases, Option-cases, arith,
}
use hydrascale.Access.Ports.{PublishedPort, parse_publish_port}
use hydrascale.Access.Rules.{RuleSet, covers_host}
use hydrascale.Config.{Tailnet}
use hydrascale.Config.Publish.{
  published_eq, publish_entries, publish_list, publish_tailnets, rules_or_none, validate_publish,
}

-- The ports of a list of entries, where every entry names one.
unfoldable pub ports_of : List Text → Option (List PublishedPort)
ports_of [] = some []
ports_of (entry ∷ entries) =
    let rest = ports_of entries in
    elim (parse_publish_port entry) [
      | err e ↦ none
      | ok p ↦ elim rest [ none ↦ none | some ports ↦ some (p ∷ ports) ]
    ]

abbrev covered : RuleSet → Text → PublishedPort → Bool
covered rules id p = covers_host rules id p.protocol p.number

abbrev fresh : List PublishedPort → List PublishedPort → Bool
fresh seen ports = all (λ p. not (mem p seen)) ports

-- Every entry names one port, no port stands twice, and a rule of the set covers each.
pub record IsPublished (rules : RuleSet) (id : Text) (entries : List Text) : Type 0 where
  pub ports : List PublishedPort
  pub parsed : ports_of entries ≡ some ports
  pub distinct : nodup ports ≡ true
  pub opened : all (covered rules id) ports ≡ true

fresh_cons :
    (p : PublishedPort) (seen ports : List PublishedPort)
    → fresh (p ∷ seen) ports ≡ (not (mem p ports) && fresh seen ports)
fresh_cons p seen [] = refl
fresh_cons p seen (q ∷ ports) = ground (arith, fresh_cons p seen ports, ==_iff p q, ==_iff q p)

fresh_nil : (ports : List PublishedPort) → fresh [] ports ≡ true
fresh_nil [] = refl
fresh_nil (p ∷ ports) = fresh_nil ports

abbrev Passes : RuleSet → Text → List PublishedPort → List Text → Type 0
Passes rules id seen entries =
    (ports : List PublishedPort) × (ports_of entries ≡ some ports)
    × (nodup ports ≡ true)
    × (fresh seen ports ≡ true)
    × (all (covered rules id) ports ≡ true)

publish_entries-Passes :
    (rules : RuleSet) (id : Text) (seen : List PublishedPort) (entries : List Text)
    → publish_entries rules id true seen entries ≡ []
    → Passes rules id seen entries
unfolding publish_entries ports_of
publish_entries-Passes rules id seen [] h = ([], refl, refl, refl, refl)
publish_entries-Passes rules id seen (entry ∷ entries) h =
    elim (Result-cases (parse_publish_port entry)) [
      | inr (e, failed) ↦ absurd (ground (arith, failed))
      | inl (p, parsed) ↦
          let (ports, e, d, f, o) =
            publish_entries-Passes rules id (p ∷ seen) entries (ground (arith, parsed)) in
          let split = fresh_cons p seen ports in
          (
            p ∷ ports,
            ground (arith, parsed, e),
            ground (arith, split, f, d),
            ground (arith, split, f, parsed, h),
            ground (arith, o, parsed, h),
          )
    ]

ports_of_parts :
    (entry : Text) (entries : List Text) (p : PublishedPort) (ports : List PublishedPort)
    → ports_of (entry ∷ entries) ≡ some (p ∷ ports)
    → (parse_publish_port entry ≡ ok p) × (ports_of entries ≡ some ports)
unfolding ports_of
ports_of_parts entry entries p ports h = elim (Result-cases (parse_publish_port entry)) [
  | inr (failure, failed) ↦ absurd (ground (arith, failed))
  | inl (q, parsed) ↦ elim (Option-cases (ports_of entries)) [
    | inl none_of ↦ absurd (ground (arith, parsed, none_of))
    | inr (rest, some_of) ↦ (ground (arith, parsed, some_of, h), ground (arith, parsed, some_of, h))
  ]
]

publish_entries_complete :
    (rules : RuleSet) (id : Text) (seen : List PublishedPort) (entries : List Text)
    → Passes rules id seen entries
    → publish_entries rules id true seen entries ≡ []
unfolding publish_entries ports_of
publish_entries_complete rules id seen [] h = refl
publish_entries_complete rules id seen (entry ∷ entries) ([], e, d, f, o) =
    elim (Result-cases (parse_publish_port entry)) [
      | inr (failure, failed) ↦ absurd (ground (arith, failed))
      | inl (p, parsed) ↦ elim (Option-cases (ports_of entries)) [
        | inl none_of ↦ absurd (ground (arith, parsed, none_of))
        | inr (rest, some_of) ↦ absurd (ground (arith, parsed, some_of))
      ]
    ]
publish_entries_complete rules id seen (entry ∷ entries) (p ∷ ports, e, d, f, o) =
    let (parsed, rest) = ports_of_parts entry entries p ports e in
    let split = fresh_cons p seen ports in
    let go =
      publish_entries_complete rules id (p ∷ seen) entries
        (ports, rest, ground (arith, d), ground (arith, split, f, d), ground (arith, o)) in
    ground (arith, parsed, go, f, o)

-- What a tailnet of a configuration may publish.
abbrev pub MayPublish : RuleSet → (Text → Bool) → Tailnet → Type 0
MayPublish rules host_access tn =
    (tn.publish ≡ []) ⊎ ((host_access tn.id ≡ true) × IsPublished rules tn.id tn.publish)

publish_list_iff :
    (rules : RuleSet) (on : Bool) (id : Text) (entries : List Text)
    → (publish_list rules on id entries ≡ [])
      ↔ ((entries ≡ []) ⊎ ((on ≡ true) × IsPublished rules id entries))
unfolding publish_list
publish_list_iff rules on id [] = (λ h. inl refl, λ h. refl)
publish_list_iff rules false id (entry ∷ entries) = (
  λ h. absurd (ground (arith, h)),
  λ k. elim k [ inl e ↦ absurd (ground (arith, e)) | inr (e, h) ↦ absurd (ground (arith, e)) ],
)
publish_list_iff rules true id (entry ∷ entries) = (
  λ h.
      let (ports, e, d, f, o) = publish_entries-Passes rules id [] (entry ∷ entries) h in
      inr (refl, record { ports = ports; parsed = e; distinct = d; opened = o }),
  λ k. elim k [
    | inl e ↦ absurd (ground (arith, e))
    | inr (e, h) ↦
        publish_entries_complete rules id [] (entry ∷ entries)
          (h.ports, h.parsed, h.distinct, fresh_nil h.ports, h.opened)
  ],
)

publish_tailnets_iff :
    (rules : RuleSet) (host_access : Text → Bool) (tns : List Tailnet)
    → (publish_tailnets rules host_access tns ≡ []) ↔ All (MayPublish rules host_access) tns
unfolding publish_tailnets
publish_tailnets_iff rules host_access [] = (λ h. tt, λ h. refl)
publish_tailnets_iff rules host_access (tn ∷ tns) =
    let (here, there) = publish_list_iff rules (host_access tn.id) tn.id tn.publish in
    let (before, after) = publish_tailnets_iff rules host_access tns in
    (
      λ h.
          let (first, rest) =
            nil_parts (publish_list rules (host_access tn.id) tn.id tn.publish)
              (publish_tailnets rules host_access tns) h in
          (here first, before rest),
      λ h. rw (there h.0) (after h.1),
    )

-- ValidatePublish reports no failure exactly when every tailnet with a publish list has its host
-- access on, each of its entries names one port, no port stands twice, and a rule of the set
-- covers each.
pub validate_publish_iff :
    (tailnets : List Tailnet) (host_access : Text → Bool) (set : Option RuleSet)
    → (validate_publish tailnets host_access set ≡ [])
      ↔ All (MayPublish (rules_or_none set) host_access) tailnets
unfolding validate_publish
validate_publish_iff tailnets host_access set =
    publish_tailnets_iff (rules_or_none set) host_access tailnets
