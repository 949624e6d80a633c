-- ===== src/Config/Names/Distinct.antt =====
-- The IDs of a validated configuration.
use hydrascale.Common.{
  Bool, true, not, ◌&&◌, ◌||◌, ◌≡◌, refl, none, List, [], ◌∷◌, inl, inr, map, Text, text_eq, ==_iff,
  mem, nodup, all, ok, Result-cases, arith,
}
use hydrascale.Config.{Tailnet, Config, is_valid_id}
use hydrascale.Config.Names.{check_ids, validate_tailnet_names}

unfoldable pub ids_of : List Tailnet → List Text
ids_of tns = map (λ (tn : Tailnet). tn.id) tns

check_ids-mem :
    (seen ids : List Text) (tns : List Tailnet)
    → check_ids seen tns ≡ ok ids
    → (ref : Text) → mem ref ids ≡ (mem ref (ids_of tns) || mem ref seen)
unfolding check_ids ids_of
check_ids-mem seen ids [] h ref = ground (arith, h)
check_ids-mem seen ids (tn ∷ tns) h ref =
    let rest : check_ids (tn.id ∷ seen) tns ≡ ok ids = ground (arith, h) in
    ground (arith, check_ids-mem (tn.id ∷ seen) ids tns rest ref)

-- The set that the first loop collects is the set of the IDs.
pub check_ids_same :
    (ids : List Text) (tns : List Tailnet)
    → check_ids [] tns ≡ ok ids
    → (ref : Text) → mem ref ids ≡ mem ref (ids_of tns)
check_ids_same ids tns h ref = ground (arith, check_ids-mem [] ids tns h ref)

abbrev absent : List Text → List Text → Bool
absent seen ids = all (λ id. not (mem id seen)) ids

absent_cons :
    (a : Text) (seen ids : List Text) → absent (a ∷ seen) ids ≡ (not (mem a ids) && absent seen ids)
absent_cons a seen [] = refl
absent_cons a seen (id ∷ ids) = ground (arith, absent_cons a seen ids, ==_iff a id, ==_iff id a)

check_ids-nodup :
    (seen ids : List Text) (tns : List Tailnet)
    → check_ids seen tns ≡ ok ids
    → (nodup (ids_of tns) ≡ true)
      × (absent seen (ids_of tns) ≡ true)
      × (all is_valid_id (ids_of tns) ≡ true)
unfolding check_ids ids_of
check_ids-nodup seen ids [] h = (refl, refl, refl)
check_ids-nodup seen ids (tn ∷ tns) h =
    let rest : check_ids (tn.id ∷ seen) tns ≡ ok ids = ground (arith, h) in
    let (d, a, v) = check_ids-nodup (tn.id ∷ seen) ids tns rest in
    let split = absent_cons tn.id seen (ids_of tns) in
    (ground (arith, d, a, split), ground (arith, h, a, split), ground (arith, h, v))

-- The IDs of a configuration that passes ValidateTailnetNames are valid, and no two tailnets hold
-- the same ID.
pub validate_tailnet_names-nodup :
    (c : Config)
    → validate_tailnet_names c ≡ none
    → (nodup (ids_of c.tailnets) ≡ true) × (all is_valid_id (ids_of c.tailnets) ≡ true)
unfolding validate_tailnet_names
validate_tailnet_names-nodup c h = elim (Result-cases (check_ids [] c.tailnets)) [
  | inr (e, failed) ↦ absurd (ground (arith, failed, h))
  | inl (ids, passed) ↦ let (d, a, v) = check_ids-nodup [] ids c.tailnets passed in (d, v)
]
