-- ===== src/HostAccess/Split/Owners.antt =====
-- Each split DNS domain has one owner.
use hydrascale.Common.{
  true, false, ◌≡◌, refl, inl, inr, List, [], ◌∷◌, ◌++◌, Text, text_eq, ==_iff, ==_refl, mem,
  mem-append, nodup, Map, lookup, lookup-put, is_some, Bool-cases, Option-cases, arith, nodup-snoc,
}
use hydrascale.HostAccess.Sync.{TailnetPeers}
use hydrascale.HostAccess.Split.{
  Claims, normalize_split_domain, is_reserved, claim_domain, claim_raw, claim_domains,
  split_tailnet, split_all,
}

-- The claims of a tailnet from the owners at its start.
record Sound (owner : Map Text Text) (c : Claims) : Type 0 where
  fresh : (a : Text) → mem a c.domains ≡ true → is_some (lookup a owner) ≡ false
  owned : (a : Text) → mem a c.domains ≡ true → is_some (lookup a c.owner) ≡ true
  grows : (a : Text) → is_some (lookup a owner) ≡ true → is_some (lookup a c.owner) ≡ true
  distinct : nodup c.domains ≡ true

claim_domain-Sound :
    (owner : Map Text Text) (id domain : Text) (c : Claims)
    → Sound owner c
    → Sound owner (claim_domain id domain c)
unfolding claim_domain
claim_domain-Sound owner id domain c s = elim (Bool-cases (is_reserved domain)) [
  | inl reserved ↦ rw reserved s
  | inr free ↦ elim (Bool-cases (mem domain c.seen)) [
    | inl again ↦ rw (free, again) s
    | inr new ↦ elim (Option-cases (lookup domain c.owner)) [
      | inr (owner_id, taken) ↦
          rw (free, new)
            (rw taken
              (record { fresh = s.fresh; owned = s.owned; grows = s.grows; distinct = s.distinct }))
      | inl open_claim ↦
          let absent : mem domain c.domains ≡ false = ground (arith, s.owned domain, open_claim) in
          let unowned : is_some (lookup domain owner) ≡ false =
            ground (arith, s.grows domain, open_claim) in
          rw (free, new)
            (rw open_claim (record {
              fresh = λ a h. ground (
                arith,
                h,
                s.fresh a,
                mem-append a c.domains (domain ∷ []),
                unowned,
                ==_iff domain a,
              );
              owned = λ a h. ground (
                arith,
                h,
                s.owned a,
                mem-append a c.domains (domain ∷ []),
                lookup-put domain a id c.owner,
                ==_iff domain a,
              );
              grows = λ a h. ground (arith, h, s.grows a, lookup-put domain a id c.owner);
              distinct = nodup-snoc domain c.domains s.distinct absent;
            }))
    ]
  ]
]

claim_domains-Sound :
    (owner : Map Text Text) (id : Text) (raws : List Text) (c : Claims)
    → Sound owner c
    → Sound owner (claim_domains id raws c)
unfolding claim_domains claim_raw
claim_domains-Sound owner id [] c s = s
claim_domains-Sound owner id (raw ∷ raws) c s = elim (Option-cases (normalize_split_domain raw)) [
  | inl refused ↦ rw (refused, claim_raw) (claim_domains-Sound owner id raws c s)
  | inr (domain, named) ↦
      rw (named, claim_raw)
        (claim_domains-Sound owner id raws (claim_domain id domain c)
          (claim_domain-Sound owner id domain c s))
]

split_tailnet-Sound :
    (p : TailnetPeers) (owner : Map Text Text) → Sound owner (split_tailnet p owner)
unfolding split_tailnet
split_tailnet-Sound p owner =
    let start : Claims = record {
      owner = owner;
      seen = [];
      domains = [];
      conflict = [];
      conflicts = [];
    } in
    claim_domains-Sound owner p.tailnet_id p.split_dns_domains start (record {
      fresh = λ a h. absurd (ground (arith, h));
      owned = λ a h. absurd (ground (arith, h));
      grows = λ a h. h;
      distinct = refl;
    })

-- The domains of every tailnet.
abbrev pub all_domains : List (TailnetPeers × Claims) → List Text
all_domains [] = []
all_domains ((p, c) ∷ rest) = c.domains ++ all_domains rest

split_all-fresh :
    (ps : List TailnetPeers) (owner : Map Text Text) (a : Text)
    → mem a (all_domains (split_all ps owner)) ≡ true
    → is_some (lookup a owner) ≡ false
unfolding split_all
split_all-fresh [] owner a h = absurd (ground (arith, h))
split_all-fresh (p ∷ ps) owner a h =
    let c = split_tailnet p owner in
    let s = split_tailnet-Sound p owner in
    let rest = split_all-fresh ps c.owner a in
    ground (
      arith,
      h,
      s.fresh a,
      s.grows a,
      rest,
      mem-append a c.domains (all_domains (split_all ps c.owner)),
    )

nodup-append :
    (xs ys : List Text)
    → nodup xs ≡ true
    → nodup ys ≡ true
    → ((a : Text) → mem a xs ≡ true → mem a ys ≡ false)
    → nodup (xs ++ ys) ≡ true
nodup-append [] ys h k apart = k
nodup-append (x ∷ xs) ys h k apart =
    let rest = nodup-append xs ys (ground (arith, h)) k (λ a m. apart a (ground (arith, m))) in
    let other : mem x ys ≡ false = apart x (ground (arith, ==_refl x)) in
    ground (arith, h, rest, other, mem-append x xs ys)

-- The split DNS domains that the manager registers: no domain belongs to two tailnets or twice to one,
-- and none is a MagicDNS suffix or an alias zone that a tailnet claimed before.
pub split_all-nodup :
    (ps : List TailnetPeers) (owner : Map Text Text)
    → (nodup (all_domains (split_all ps owner)) ≡ true)
      × ((a : Text)
          → is_some (lookup a owner) ≡ true
          → mem a (all_domains (split_all ps owner)) ≡ false)
unfolding split_all
split_all-nodup [] owner = (refl, λ a h. refl)
split_all-nodup (p ∷ ps) owner =
    let c = split_tailnet p owner in
    let s = split_tailnet-Sound p owner in
    let (rest, apart) = split_all-nodup ps c.owner in
    (
      nodup-append c.domains (all_domains (split_all ps c.owner)) s.distinct rest
          (λ a m. apart a (s.owned a m)),
      λ a h. ground (arith, h, split_all-fresh (p ∷ ps) owner a),
    )
