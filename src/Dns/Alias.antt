-- ===== src/Dns/Alias.antt =====
-- internal/dns/alias.go: the alias zones, and the answer of the forwarder from one.
pub mod Below
use hydrascale.Common.{
  ℕ, ◌+◌, ◌-◌, Bool, true, false, not, ◌&&◌, ◌||◌, Option, none, some, List, [], ◌∷◌, ◌++◌, Text,
  txt, text_eq, ◌==◌, eqb, if◌then◌else◌, length, Map, lookup, is_some, has_suffix, trim_suffix,
  take,
}
use hydrascale.Config.{to_lower}

abbrev pub alias_domain_suffix : Text
alias_domain_suffix = txt "ts.internal"

abbrev pub alias_record_ttl : ℕ
alias_record_ttl = 30

-- The codes of the package miekg/dns that the forwarder reads and writes.
abbrev pub type_a : ℕ
type_a = 1

abbrev pub type_aaaa : ℕ
type_aaaa = 28

abbrev pub class_inet : ℕ
class_inet = 1

abbrev pub no_error : ℕ
no_error = 0

abbrev pub server_failure : ℕ
server_failure = 2

abbrev pub name_error : ℕ
name_error = 3

abbrev pub refused : ℕ
refused = 5

pub record AliasZone : Type 0 where
  pub v4 : Map Text Text
  pub v6 : Map Text Text

-- `AliasZoneName`
unfoldable pub alias_zone_name : Text → Text
alias_zone_name alias = to_lower alias ++ txt "." ++ alias_domain_suffix

-- The question of a query, and an address record of an answer.
pub record Question : Type 0 where
  pub name : Text
  pub qtype : ℕ
  pub qclass : ℕ

pub record AddressRecord : Type 0 where
  pub name : Text
  pub rrtype : ℕ
  pub ttl : ℕ
  pub address : Text

pub record Reply : Type 0 where
  pub authoritative : Bool
  pub rcode : ℕ
  pub answer : List AddressRecord

-- The name of a question as the forwarder compares it.
abbrev pub plain_name : Text → Text
plain_name qname = to_lower (trim_suffix qname (txt "."))

pub record Match : Type 0 where
  pub zone : AliasZone
  pub host : Text

-- The loop of `matchAliasZone`.
unfoldable pub match_zone : Map Text AliasZone → Text → Option Match
match_zone [] name = none
match_zone ((zone, records) ∷ zones) name =
    let rest = match_zone zones name in
    if name == zone
    then some (record { zone = records; host = [] })
    else if has_suffix name (txt "." ++ zone)
    then some (record { zone = records; host = take (length name - length zone - 1) name })
    else rest

-- `matchAliasZone`
unfoldable pub match_alias_zone : Map Text AliasZone → Text → Option Match
unfolding match_zone
match_alias_zone zones qname = match_zone zones (plain_name qname)

record_of : Question → ℕ → Text → AddressRecord
record_of q rrtype address = record {
  name = q.name;
  rrtype = rrtype;
  ttl = alias_record_ttl;
  address = address;
}

abbrev pub is_empty : Text → Bool
is_empty [] = true
is_empty (c ∷ s) = false

-- The records of a host that the question asks for.
records_of : Question → Option Text → Option Text → List AddressRecord
unfolding record_of
records_of q v4 v6 =
    let six : List AddressRecord = elim v6 [
      | none ↦ []
      | some address ↦ if eqb q.qtype type_aaaa then record_of q type_aaaa address ∷ [] else []
    ] in
    elim v4 [
      | none ↦ six
      | some address ↦ if eqb q.qtype type_a then record_of q type_a address ∷ [] else six
    ]

-- `answerAlias`
unfoldable pub answer_alias : AliasZone → Text → Question → Reply
unfolding records_of
answer_alias zone host q =
    let v4 = lookup host zone.v4 in
    let v6 = lookup host zone.v6 in
    if is_empty host || (not (is_some v4) && not (is_some v6))
    then record {
      authoritative = true;
      rcode = if is_empty host then no_error else name_error;
      answer = [];
    }
    else record { authoritative = true; rcode = no_error; answer = records_of q v4 v6 }
