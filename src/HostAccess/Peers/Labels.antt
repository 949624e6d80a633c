-- ===== src/HostAccess/Peers/Labels.antt =====
-- The names of the services of a tailnet.
use hydrascale.Common.{
  true, false, ◌≡◌, refl, ◌∙◌, List, [], ◌∷◌, Text, text_eq, ==_iff, ==_refl, if◌then◌else◌, mem,
  nodup, Bool-cases, Option-cases, inl, inr, arith,
}
use hydrascale.HostAccess.Sync.{Service}
use hydrascale.HostAccess.Peers.{
  ParseIp, ServiceEndpoint, is_empty, is_service_label, service_label, service_addrs, named,
  add_service, label_services, insert_service, sort_services, parse_services,
}

-- The names that services keep.
abbrev pub names : List Service → List Text
names [] = []
names (s ∷ ss) = let rest = names ss in if is_empty s.name then rest else s.name ∷ rest

insert_service-mem :
    (s : Service) (ts : List Service) (a : Text)
    → mem a (names (insert_service s ts)) ≡ mem a (names (s ∷ ts))
unfolding insert_service
insert_service-mem s [] a = refl
insert_service-mem s (t ∷ ts) a = ground (arith, insert_service-mem s ts a)

insert_service-nodup :
    (s : Service) (ts : List Service) → nodup (names (insert_service s ts)) ≡ nodup (names (s ∷ ts))
unfolding insert_service
insert_service-nodup s [] = refl
insert_service-nodup s (t ∷ ts) = ground (
  arith,
  insert_service-nodup s ts,
  insert_service-mem s ts t.name,
  ==_iff s.name t.name,
  ==_iff t.name s.name,
)

sort_services-mem :
    (ss : List Service) (a : Text) → mem a (names (sort_services ss)) ≡ mem a (names ss)
unfolding sort_services
sort_services-mem [] a = refl
sort_services-mem (s ∷ ss) a =
    insert_service-mem s (sort_services ss) a ∙ ground (arith, sort_services-mem ss a)

sort_services-nodup : (ss : List Service) → nodup (names (sort_services ss)) ≡ nodup (names ss)
unfolding sort_services
sort_services-nodup [] = refl
sort_services-nodup (s ∷ ss) =
    insert_service-nodup s (sort_services ss)
    ∙ ground (arith, sort_services-nodup ss, sort_services-mem ss s.name)

service_addrs-name :
    (parse : ParseIp) (addrs : List Text) (s : Service)
    → (service_addrs parse addrs s).name ≡ s.name
unfolding service_addrs
service_addrs-name parse [] s = refl
service_addrs-name parse (addr ∷ addrs) s = elim (Option-cases (parse addr)) [
  | inl other ↦ rw (other, service_addrs) (service_addrs-name parse addrs s)
  | inr (four, read) ↦ elim (Bool-cases four) [
    | inl v4 ↦ rw (read, v4, service_addrs) (service_addrs-name parse addrs _)
    | inr v6 ↦ rw (read, v6, service_addrs) (service_addrs-name parse addrs _)
  ]
]

named-name :
    (parse : ParseIp) (label : Text) (endpoint : ServiceEndpoint)
    → (named parse label endpoint).name ≡ label
unfolding named
named-name parse label endpoint = service_addrs-name parse endpoint.addrs _

-- The names are new and distinct, and each one passes the pattern of a label.
abbrev IsNamed : List Text → List Service → Type 0
IsNamed taken ss =
    ((a : Text) → mem a (names ss) ≡ true → (mem a taken ≡ false) × (is_service_label a ≡ true))
    × (nodup (names ss) ≡ true)

service_label-IsLabel :
    (raw : Text)
    → is_empty (service_label raw) ≡ false
    → is_service_label (service_label raw) ≡ true
unfolding service_label
service_label-IsLabel raw h = ground (arith, h)

add_service-first :
    (taken : List Text) (label : Text) (s : Service) (rest : List Service)
    → s.name ≡ label
    → is_empty label ≡ false
    → mem label taken ≡ false
    → is_service_label label ≡ true
    → IsNamed (label ∷ taken) rest
    → IsNamed taken (add_service s rest)
unfolding add_service
add_service-first taken label s rest e full new valid (each, distinct) =
    let absent : mem label (names rest) ≡ false = elim (Bool-cases (mem label (names rest))) [
      | inr absent ↦ absent
      | inl there ↦ absurd (ground (arith, (each label there).0, ==_refl label))
    ] in
    (
      λ a h. elim (Bool-cases (mem a (names rest))) [
        | inl there ↦ (ground (arith, (each a there).0), (each a there).1)
        | inr elsewhere ↦
            let same : label ≡ a = ground (arith, h, e, elsewhere, ==_iff label a) in
            (rw (← same) new, rw (← same) valid)
      ],
      ground (arith, e, distinct, absent, full),
    )

add_service-unnamed :
    (taken : List Text) (s : Service) (rest : List Service)
    → s.name ≡ []
    → IsNamed taken rest
    → IsNamed taken (add_service s rest)
unfolding add_service
add_service-unnamed taken s rest e (each, distinct) =
    (λ a h. each a (ground (arith, h, e)), ground (arith, e, distinct))

label_services-IsNamed :
    (parse : ParseIp) (taken : List Text) (endpoints : List ServiceEndpoint)
    → IsNamed taken (label_services parse taken endpoints)
unfolding label_services
label_services-IsNamed parse taken [] = (λ a h. absurd (ground (arith, h)), refl)
label_services-IsNamed parse taken (endpoint ∷ endpoints) =
    let label = service_label endpoint.name in
    let skipped = label_services-IsNamed parse taken endpoints in
    elim (Bool-cases (is_empty label)) [
      | inl bare ↦ rw bare skipped
      | inr full ↦ elim (Bool-cases (mem label taken)) [
        | inl again ↦
            rw (full, again)
              (add_service-unnamed taken (named parse [] endpoint)
                (label_services parse taken endpoints) (named-name parse [] endpoint) skipped)
        | inr new ↦
            rw (full, new)
              (add_service-first taken label (named parse label endpoint)
                (label_services parse (label ∷ taken) endpoints) (named-name parse label endpoint)
                full new (service_label-IsLabel endpoint.name full)
                (label_services-IsNamed parse (label ∷ taken) endpoints))
      ]
    ]

-- The names that parseServices gives to the services of a tailnet are distinct, and each one is a DNS
-- label in lower case that neither begins nor ends with a hyphen. A service whose label another one
-- holds has no name.
pub parse_services-names :
    (parse : ParseIp) (endpoints : List ServiceEndpoint)
    → (nodup (names (parse_services parse endpoints)) ≡ true)
      × ((a : Text)
          → mem a (names (parse_services parse endpoints)) ≡ true
          → is_service_label a ≡ true)
unfolding parse_services
parse_services-names parse endpoints =
    let ss = label_services parse [] endpoints in
    let (each, distinct) = label_services-IsNamed parse [] endpoints in
    (
      sort_services-nodup ss ∙ distinct,
      λ a h. (each a (ground (arith, h, sort_services-mem ss a))).1,
    )
