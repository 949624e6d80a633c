-- ===== src/Config/Names.antt =====
-- internal/config/config.go: the names of the tailnets.
pub mod Distinct
pub mod Resolution
use hydrascale.Common.{
  ℕ, Bool, true, false, not, ◌&&◌, ◌||◌, ◌≡◌, ◌≢◌, refl, Option, none, some, List, [], ◌∷◌, ◌++◌,
  map, Text, txt, text_eq, ◌==◌, ==_iff, if◌then◌else◌, any, mem, Map, lookup, put, Result, ok, err,
  arith,
}
use hydrascale.Config.{Tailnet, Config, is_valid_id, is_valid_alias, is_dns_label, to_lower}

pub data NameError : Type 0 where
  empty_id : NameError
  invalid_id duplicate_id invalid_alias alias_is_id alias_folds_to_id alias_is_no_label :
      Text → NameError
  duplicate_alias : Text → Text → Text → NameError

-- The first loop of `ValidateTailnetNames`; `ids` are those that it has seen.
pub check_ids : List Text → List Tailnet → Result NameError (List Text)
check_ids ids [] = ok ids
check_ids ids (tn ∷ tns) =
    let rest = check_ids (tn.id ∷ ids) tns in
    if tn.id == []
    then err empty_id
    else if not (is_valid_id tn.id)
    then err (invalid_id tn.id)
    else if mem tn.id ids
    then err (duplicate_id tn.id)
    else rest

-- strings.EqualFold, on ASCII texts.
abbrev equal_fold : Text → Text → Bool
equal_fold s t = to_lower s == to_lower t

-- The key of an alias in the map of the aliases.
abbrev alias_key : Bool → Text → Text
alias_key resolve alias = if resolve then to_lower alias else alias

-- One alias that is not empty, against the ids and the aliases before it.
check_alias : Bool → List Text → Map Text Text → Tailnet → Option NameError
check_alias resolve ids aliases tn =
    let key = alias_key resolve tn.alias in
    if not (is_valid_alias tn.alias)
    then some (invalid_alias tn.alias)
    else if mem tn.alias ids
    then some (alias_is_id tn.alias)
    else if resolve && any (λ id. equal_fold id tn.alias) ids
    then some (alias_folds_to_id tn.alias)
    else if resolve && not (is_dns_label tn.alias)
    then some (alias_is_no_label tn.alias)
    else elim (lookup key aliases) [
      | none ↦ none
      | some other ↦ some (duplicate_alias tn.alias other tn.id)
    ]

-- The second loop; `none` is the nil error.
check_aliases : Bool → List Text → Map Text Text → List Tailnet → Option NameError
check_aliases resolve ids aliases [] = none
check_aliases resolve ids aliases (tn ∷ tns) =
    let key = alias_key resolve tn.alias in
    let skipped = check_aliases resolve ids aliases tns in
    let rest = check_aliases resolve ids (put key tn.id aliases) tns in
    if tn.alias == []
    then skipped
    else elim (check_alias resolve ids aliases tn) [ none ↦ rest | some e ↦ some e ]

unfoldable pub validate_tailnet_names : Config → Option NameError
unfolding check_ids check_aliases check_alias
validate_tailnet_names c = elim (check_ids [] c.tailnets) [
  | err e ↦ some e
  | ok ids ↦ check_aliases c.resolver.resolve_aliases ids [] c.tailnets
]

-- The first loop of `ResolveTailnetRef`.
by_id : Text → List Tailnet → Option Text
by_id ref [] = none
by_id ref (tn ∷ tns) = if tn.id == ref then some tn.id else by_id ref tns

-- The second loop.
by_alias : Text → List Tailnet → Option Text
by_alias ref [] = none
by_alias ref (tn ∷ tns) =
    if not (tn.alias == []) && tn.alias == ref then some tn.id else by_alias ref tns

-- `ResolveTailnetRef`; `none` is the error.
unfoldable pub resolve_tailnet_ref : Config → Text → Option Text
unfolding by_id by_alias
resolve_tailnet_ref c ref = elim (by_id ref c.tailnets) [
  | some id ↦ some id
  | none ↦ by_alias ref c.tailnets
]
