-- ===== src/Dns/Alias/Below.antt =====
-- What a match of an alias zone says of the name.
use hydrascale.Common.{
  ◌-◌, true, ◌≡◌, refl, sym, ap, ◌∙◌, ◌⊎◌, inl, inr, some, [], ◌∷◌, ◌++◌, Text, txt, text_eq, ◌==◌,
  ==_iff, length, length-append, Map, has_suffix, take, Bool-cases, arith,
}
use hydrascale.Dns.Alias.{AliasZone, Match, plain_name, match_zone, match_alias_zone}

suffix_parts :
    (s suffix : Text) → has_suffix s suffix ≡ true → (before : Text) × (s ≡ before ++ suffix)
unfolding has_suffix
suffix_parts [] suffix h = ([], sym ((==_iff suffix []).0 h))
suffix_parts (c ∷ s) suffix h = elim (Bool-cases ((c ∷ s) == suffix)) [
  | inl whole ↦ ([], (==_iff (c ∷ s) suffix).0 whole)
  | inr part ↦
      let (before, e) = suffix_parts s suffix (ground (arith, h, part)) in
      (c ∷ before, ap (λ (rest : Text). c ∷ rest) e)
]

take-append : (before after : Text) → take (length before) (before ++ after) ≡ before
unfolding take
take-append [] after = refl
take-append (c ∷ before) after = ap (λ (rest : Text). c ∷ rest) (take-append before after)

-- What stands before the dot of a zone.
host_of :
    (name before zone : Text)
    → name ≡ before ++ (txt "." ++ zone)
    → take (length name - length zone - 1) name ≡ before
host_of name before zone e =
    let n : length (before ++ (txt "." ++ zone)) - length zone - 1 ≡ length before =
      omega (arith, length-append before (txt "." ++ zone), length-append (txt ".") zone) in
    rw e (rw n (take-append before (txt "." ++ zone)))

-- A name at the apex of a zone, or a host below it.
abbrev pub IsIn : Text → Match → Text → Type 0
IsIn name m zone = ((name ≡ zone) × (m.host ≡ [])) ⊎ (name ≡ m.host ++ (txt "." ++ zone))

-- An entry of a map.
abbrev pub IsEntry : Text → AliasZone → Map Text AliasZone → Type 0
IsEntry zone records [] = ⊥
IsEntry zone records ((z, r) ∷ zones) = ((z ≡ zone) × (r ≡ records)) ⊎ IsEntry zone records zones

match_zone-IsIn :
    (zones : Map Text AliasZone) (name : Text) (m : Match)
    → match_zone zones name ≡ some m
    → (zone : Text) × IsEntry zone m.zone zones × IsIn name m zone
unfolding match_zone
match_zone-IsIn [] name m h = absurd (ground (arith, h))
match_zone-IsIn ((zone, records) ∷ zones) name m h = elim (Bool-cases (name == zone)) [
  | inl apex ↦
      let made : Match = record { zone = records; host = [] } in
      let same : made ≡ m = ground (arith, h, apex) in
      (
        zone,
        inl (refl, ap (λ (x : Match). x.zone) same),
        inl ((==_iff name zone).0 apex, sym (ap (λ (x : Match). x.host) same)),
      )
  | inr other ↦ elim (Bool-cases (has_suffix name (txt "." ++ zone))) [
    | inl below ↦
        let (before, parts) = suffix_parts name (txt "." ++ zone) below in
        let made : Match = record {
          zone = records;
          host = take (length name - length zone - 1) name;
        } in
        let same : made ≡ m = ground (arith, h, other, below) in
        let host : before ≡ m.host =
          sym (host_of name before zone parts) ∙ ap (λ (x : Match). x.host) same in
        (zone, inl (refl, ap (λ (x : Match). x.zone) same), inr (rw (← host) parts))
    | inr elsewhere ↦
        let (z, entry, here) = match_zone-IsIn zones name m (ground (arith, h, other, elsewhere)) in
        (z, inr entry, here)
  ]
]

-- A query name that matchAliasZone accepts, in lower case and without its final dot, is the apex of a
-- declared zone and then has the empty host name, or it is the answered host name, a dot and that zone;
-- the answered records are those of that zone.
pub match_alias_zone-IsIn :
    (zones : Map Text AliasZone) (qname : Text) (m : Match)
    → match_alias_zone zones qname ≡ some m
    → (zone : Text) × IsEntry zone m.zone zones × IsIn (plain_name qname) m zone
unfolding match_alias_zone
match_alias_zone-IsIn zones qname m h = match_zone-IsIn zones (plain_name qname) m h
