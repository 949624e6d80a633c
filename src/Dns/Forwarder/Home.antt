-- ===== src/Dns/Forwarder/Home.antt =====
-- Which queries reach an upstream server.
use hydrascale.Common.{
  true, false, ◌≡◌, refl, ap, ◌⊎◌, inl, inr, Option, List, [], ◌∷◌, text_eq, eqb, is_some,
  Bool-cases, Option-cases, arith,
}
use hydrascale.Dns.Alias.{Question, Reply, Match, match_alias_zone, class_inet, answer_alias}
use hydrascale.Dns.Listeners.{Listeners, Source, source_is_host}
use hydrascale.Dns.Forwarder.{Forwarder, Exchange, zone_of, handle_dns_request, veth_handler}

-- A query that the forwarder answers itself: from a source that is not the host, or for a name of the
-- class INET in an alias zone.
abbrev pub IsOwn : {P : Type 0} → Listeners P → Option Source → Question → Forwarder → Type 0
IsOwn listeners source q f =
    (source_is_host listeners source ≡ false)
    ⊎ ((eqb q.qclass class_inet ≡ true) × (is_some (match_alias_zone f.alias_zones q.name) ≡ true))

zone_of_own :
    (q : Question) (f : Forwarder)
    → eqb q.qclass class_inet ≡ true
    → is_some (match_alias_zone f.alias_zones q.name) ≡ true
    → is_some (zone_of f (q ∷ [])) ≡ true
unfolding zone_of
zone_of_own q f inet found = ground (arith, inet, found)

handle_dns_request_home :
    (exchange : Exchange) (questions : List Question) (f : Forwarder)
    → is_some (zone_of f questions) ≡ true
    → (mq : Match × Question) × (handle_dns_request exchange questions f
        ≡ (f, answer_alias mq.0.zone mq.0.host mq.1))
unfolding handle_dns_request
handle_dns_request_home exchange questions f held = elim (Option-cases (zone_of f questions)) [
  | inl gone ↦ absurd (ground (arith, held, gone))
  | inr (mq, found) ↦ (mq, rw (found, handle_dns_request) refl)
]

handle_dns_request_same :
    (one other : Exchange) (q : Question) (f : Forwarder)
    → is_some (zone_of f (q ∷ [])) ≡ true
    → handle_dns_request one (q ∷ []) f ≡ handle_dns_request other (q ∷ []) f
unfolding handle_dns_request
handle_dns_request_same one other q f held = elim (Option-cases (zone_of f (q ∷ []))) [
  | inl gone ↦ absurd (ground (arith, held, gone))
  | inr (mq, found) ↦ rw (found, handle_dns_request) refl
]

-- The forwarder answers a query of a source that is not the host, and a query for a name of an alias
-- zone, without any upstream server: the reply does not depend on the servers, and the state does not
-- change.
pub veth_handler_home :
    {P : Type 0} (listeners : Listeners P) (one other : Exchange) (source : Option Source)
    (q : Question) (f : Forwarder)
    → IsOwn listeners source q f
    → (veth_handler listeners one source (q ∷ []) f
        ≡ veth_handler listeners other source (q ∷ []) f)
      × ((veth_handler listeners one source (q ∷ []) f).0 ≡ f)
unfolding veth_handler
veth_handler_home listeners one other source q f (inl foreign) = rw foreign (refl, refl)
veth_handler_home listeners one other source q f (inr (inet, found)) =
    let held = zone_of_own q f inet found in
    let (a, first) = handle_dns_request_home one (q ∷ []) f held in
    let same = handle_dns_request_same one other q f held in
    elim (Bool-cases (source_is_host listeners source)) [
      | inr foreign ↦ rw foreign (refl, refl)
      | inl home ↦ rw home (same, ap (λ (r : Forwarder × Reply). r.0) first)
    ]
