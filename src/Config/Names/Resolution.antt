-- ===== src/Config/Names/Resolution.antt =====
-- A validated configuration resolves every ID and every alias to the tailnet that holds it.
use hydrascale.Common.{
  Bool, true, false, ◌≡◌, refl, sym, none, some, List, [], ◌∷◌, ◌⊎◌, inl, inr, Text, text_eq, ◌==◌,
  ==_iff, ==_refl, ap, if◌then◌else◌, mem, All, All-mono, All-both, Map, lookup, put, lookup-put,
  Result-cases, Option-cases, Bool-cases, arith,
}
use hydrascale.Config.{Tailnet, Config, is_valid_alias}
use hydrascale.Config.Names.Distinct.{ids_of, check_ids_same}
use hydrascale.Config.Names.{
  check_ids, check_aliases, check_alias, alias_key, validate_tailnet_names, by_id, by_alias,
  resolve_tailnet_ref,
}

by_id_lem :
    (ref : Text) (tns : List Tailnet)
    → by_id ref tns ≡ (if mem ref (ids_of tns) then some ref else none)
unfolding by_id ids_of
by_id_lem ref [] = refl
by_id_lem ref (tn ∷ tns) = ground (arith, by_id_lem ref tns, ==_iff tn.id ref)

by_alias_declared :
    (ref id : Text) (tns : List Tailnet) → by_alias ref tns ≡ some id → mem id (ids_of tns) ≡ true
unfolding by_alias ids_of
by_alias_declared ref id [] h = absurd (ground (arith, h))
by_alias_declared ref id (tn ∷ tns) h =
    ground (arith, h, by_alias_declared ref id tns, ==_iff tn.id id)

-- What the second loop found out about a tailnet.
abbrev IsNamed : Bool → List Text → Map Text Text → Tailnet → Type 0
IsNamed resolve ids aliases tn =
    (tn.alias ≡ [])
    ⊎ ((is_valid_alias tn.alias ≡ true)
        × (mem tn.alias ids ≡ false)
        × (lookup (alias_key resolve tn.alias) aliases ≡ none))

check_alias-IsNamed :
    (resolve : Bool) (ids : List Text) (aliases : Map Text Text) (tn : Tailnet)
    → check_alias resolve ids aliases tn ≡ none
    → IsNamed resolve ids aliases tn
unfolding check_alias
check_alias-IsNamed resolve ids aliases tn h =
    elim (Option-cases (lookup (alias_key resolve tn.alias) aliases)) [
      | inl free ↦ inr (ground (arith, h), ground (arith, h), free)
      | inr (other, taken) ↦ absurd (ground (arith, h, taken))
    ]

-- A key that is free after an insertion was free before it.
IsNamed-put :
    (resolve : Bool) (ids : List Text) (aliases : Map Text Text) (key id : Text) (tn : Tailnet)
    → IsNamed resolve ids (put key id aliases) tn
    → IsNamed resolve ids aliases tn
IsNamed-put resolve ids aliases key id tn (inl e) = inl e
IsNamed-put resolve ids aliases key id tn (inr (v, m, free)) =
    inr (v, m, ground (arith, free, lookup-put key (alias_key resolve tn.alias) id aliases))

check_aliases-IsNamed :
    (resolve : Bool) (ids : List Text) (aliases : Map Text Text) (tns : List Tailnet)
    → check_aliases resolve ids aliases tns ≡ none
    → All (IsNamed resolve ids aliases) tns
unfolding check_aliases
check_aliases-IsNamed resolve ids aliases [] h = tt
check_aliases-IsNamed resolve ids aliases (tn ∷ tns) h = elim (Bool-cases (tn.alias == [])) [
  | inl blank ↦ (
    inl ((==_iff tn.alias []).0 blank),
    check_aliases-IsNamed resolve ids aliases tns (ground (arith, blank, h)),
  )
  | inr named ↦ elim (Option-cases (check_alias resolve ids aliases tn)) [
    | inr (e, failed) ↦ absurd (ground (arith, named, failed, h))
    | inl passed ↦ (
      check_alias-IsNamed resolve ids aliases tn passed,
      All-mono (IsNamed-put resolve ids aliases (alias_key resolve tn.alias) tn.id) tns (
          check_aliases-IsNamed resolve ids (put (alias_key resolve tn.alias) tn.id aliases) tns
            (ground (arith, named, passed, h))),
    )
  ]
]

-- An alias that resolves to its tailnet by the second loop.
abbrev IsFound : List Tailnet → Tailnet → Type 0
IsFound tns tn = (tn.alias ≡ []) ⊎ (by_alias tn.alias tns ≡ some tn.id)

IsFound-skip :
    (tn : Tailnet) (tns : List Tailnet) (x : Tailnet)
    → tn.alias ≡ []
    → IsFound tns x
    → IsFound (tn ∷ tns) x
unfolding by_alias
IsFound-skip tn tns x blank (inl e) = inl e
IsFound-skip tn tns x blank (inr found) = inr (ground (arith, found, (==_iff tn.alias []).1 blank))

IsFound-cons :
    (resolve : Bool) (ids : List Text) (aliases : Map Text Text) (tn : Tailnet) (tns : List Tailnet)
    (x : Tailnet)
    → IsNamed resolve ids (put (alias_key resolve tn.alias) tn.id aliases) x × IsFound tns x
    → IsFound (tn ∷ tns) x
unfolding by_alias
IsFound-cons resolve ids aliases tn tns x (inl e, found) = inl e
IsFound-cons resolve ids aliases tn tns x (inr named, inl e) = inl e
IsFound-cons resolve ids aliases tn tns x (inr (v, m, free), inr found) =
    elim (Bool-cases (tn.alias == x.alias)) [
      | inr other ↦ inr (ground (arith, found, other))
      | inl same ↦
          let e : tn.alias ≡ x.alias = (==_iff tn.alias x.alias).0 same in
          let k : alias_key resolve tn.alias ≡ alias_key resolve x.alias =
            ap (alias_key resolve) e in
          absurd (
            ground (
              arith,
              k,
              free,
              ==_iff (alias_key resolve tn.alias) (alias_key resolve x.alias),
              lookup-put (alias_key resolve tn.alias) (alias_key resolve x.alias) tn.id aliases,
            ))
    ]

IsFound-head :
    (tn : Tailnet) (tns : List Tailnet) → (tn.alias == []) ≡ false → IsFound (tn ∷ tns) tn
unfolding by_alias
IsFound-head tn tns named = inr (ground (arith, named, ==_refl tn.alias))

check_aliases-IsFound :
    (resolve : Bool) (ids : List Text) (aliases : Map Text Text) (tns : List Tailnet)
    → check_aliases resolve ids aliases tns ≡ none
    → All (IsFound tns) tns
unfolding check_aliases
check_aliases-IsFound resolve ids aliases [] h = tt
check_aliases-IsFound resolve ids aliases (tn ∷ tns) h = elim (Bool-cases (tn.alias == [])) [
  | inl blank ↦
      let e : tn.alias ≡ [] = (==_iff tn.alias []).0 blank in
      (
        inl e,
        All-mono (λ x. IsFound-skip tn tns x e) tns
            (check_aliases-IsFound resolve ids aliases tns (ground (arith, blank, h))),
      )
  | inr named ↦ elim (Option-cases (check_alias resolve ids aliases tn)) [
    | inr (e, failed) ↦ absurd (ground (arith, named, failed, h))
    | inl passed ↦
        let after = put (alias_key resolve tn.alias) tn.id aliases in
        let rest : check_aliases resolve ids after tns ≡ none = ground (arith, named, passed, h) in
        (
          IsFound-head tn tns named,
          All-mono (IsFound-cons resolve ids aliases tn tns) tns (
              All-both (IsNamed resolve ids after) (IsFound tns) tns
                (check_aliases-IsNamed resolve ids after tns rest)
                (check_aliases-IsFound resolve ids after tns rest)),
        )
  ]
]

mem-ids_of : (tns : List Tailnet) → All (λ (tn : Tailnet). mem tn.id (ids_of tns) ≡ true) tns
unfolding ids_of
mem-ids_of [] = tt
mem-ids_of (tn ∷ tns) = (
  ground (arith, ==_refl tn.id),
  All-mono (λ (x : Tailnet) m. ground (arith, m)) tns (mem-ids_of tns),
)

-- Where a reference of a tailnet leads.
abbrev pub IsResolved : Config → Tailnet → Type 0
IsResolved c tn =
    (resolve_tailnet_ref c tn.id ≡ some tn.id)
    × ((tn.alias ≡ []) ⊎ (resolve_tailnet_ref c tn.alias ≡ some tn.id))

resolve_tailnet_ref-IsResolved :
    (c : Config) (ids : List Text) (aliases : Map Text Text) (tn : Tailnet)
    → ((ref : Text) → mem ref ids ≡ mem ref (ids_of c.tailnets))
    → (mem tn.id (ids_of c.tailnets) ≡ true)
      × (IsNamed c.resolver.resolve_aliases ids aliases tn × IsFound c.tailnets tn)
    → IsResolved c tn
unfolding resolve_tailnet_ref
resolve_tailnet_ref-IsResolved c ids aliases tn same (declared, (inl e, found)) =
    (ground (arith, declared, by_id_lem tn.id c.tailnets), inl e)
resolve_tailnet_ref-IsResolved c ids aliases tn same (declared, (inr named, inl e)) =
    (ground (arith, declared, by_id_lem tn.id c.tailnets), inl e)
resolve_tailnet_ref-IsResolved c ids aliases tn same (declared, (inr (v, m, free), inr found)) = (
  ground (arith, declared, by_id_lem tn.id c.tailnets),
  inr (ground (arith, m, found, same tn.alias, by_id_lem tn.alias c.tailnets)),
)

-- In a configuration that passes ValidateTailnetNames, the ID of every tailnet resolves to that
-- tailnet, and so does its alias where it has one.
pub validate_tailnet_names-IsResolved :
    (c : Config) → validate_tailnet_names c ≡ none → All (IsResolved c) c.tailnets
unfolding validate_tailnet_names
validate_tailnet_names-IsResolved c h = elim (Result-cases (check_ids [] c.tailnets)) [
  | inr (e, failed) ↦ absurd (ground (arith, failed, h))
  | inl (ids, passed) ↦
      let resolve = c.resolver.resolve_aliases in
      let rest : check_aliases resolve ids [] c.tailnets ≡ none = ground (arith, passed, h) in
      let facts =
        All-both (λ (tn : Tailnet). mem tn.id (ids_of c.tailnets) ≡ true)
          (λ tn. IsNamed resolve ids [] tn × IsFound c.tailnets tn) c.tailnets
          (mem-ids_of c.tailnets)
          (All-both (IsNamed resolve ids []) (IsFound c.tailnets) c.tailnets
            (check_aliases-IsNamed resolve ids [] c.tailnets rest)
            (check_aliases-IsFound resolve ids [] c.tailnets rest)) in
      All-mono
        (λ tn. resolve_tailnet_ref-IsResolved c ids [] tn (check_ids_same ids c.tailnets passed))
        c.tailnets facts
]

-- A reference resolves only to the ID of a declared tailnet.
pub resolve_tailnet_ref_declared :
    (c : Config) (ref id : Text)
    → resolve_tailnet_ref c ref ≡ some id
    → mem id (ids_of c.tailnets) ≡ true
unfolding resolve_tailnet_ref
resolve_tailnet_ref_declared c ref id h = elim (Bool-cases (mem ref (ids_of c.tailnets))) [
  | inl m ↦ let e : ref ≡ id = ground (arith, m, by_id_lem ref c.tailnets, h) in rw (sym e) m
  | inr m ↦ by_alias_declared ref id c.tailnets (ground (arith, m, by_id_lem ref c.tailnets, h))
]
