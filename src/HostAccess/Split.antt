-- ===== src/HostAccess/Split.antt =====
-- internal/hostaccess/hostaccess.go: the owner of each split DNS domain.
pub mod Owners
use hydrascale.Common.{
  Bool, true, false, not, ◌&&◌, ◌||◌, Option, none, some, List, [], ◌∷◌, ◌++◌, Text, txt, text_eq,
  ◌==◌, if◌then◌else◌, mem, Map, lookup, put, or_default, is_some, has_suffix, trim_suffix,
  trim_space,
}
use hydrascale.Config.{to_lower}
use hydrascale.Dns.Alias.{alias_zone_name}
use hydrascale.HostAccess.Sync.{TailnetPeers}
use hydrascale.HostAccess.Resolved.{valid_dns_name, is_empty}

-- `normalizeSplitDomain`
unfoldable pub normalize_split_domain : Text → Option Text
normalize_split_domain raw =
    let domain = to_lower (trim_suffix (trim_space raw) (txt ".")) in
    if not (valid_dns_name domain) then none else some domain

-- What the claims read: the aliases of the tailnets, and whether the zones are on.
pub record AliasSettings : Type 0 where
  pub resolve_aliases : Bool
  pub aliases : Map Text Text

abbrev pub alias_of : AliasSettings → Text → Text
alias_of a id = or_default (lookup id a.aliases) []

abbrev pub zone_on : AliasSettings → TailnetPeers → Bool
zone_on a p =
    a.resolve_aliases && not (is_empty (alias_of a p.tailnet_id)) && not (is_empty p.veth_host_ip)

-- A claim stands where the domain has no owner yet.
unfoldable pub claim : Text → Text → Map Text Text → Map Text Text
claim domain id owner = if is_some (lookup domain owner) then owner else put domain id owner

claim_suffix : TailnetPeers → Map Text Text → Map Text Text
unfolding claim
claim_suffix p owner =
    if is_empty p.magic_dns_suffix
    then owner
    else elim (normalize_split_domain p.magic_dns_suffix) [
      | none ↦ owner
      | some suffix ↦ claim suffix p.tailnet_id owner
    ]

claim_zone : AliasSettings → TailnetPeers → Map Text Text → Map Text Text
unfolding claim
claim_zone a p owner =
    if zone_on a p
    then claim (alias_zone_name (alias_of a p.tailnet_id)) p.tailnet_id owner
    else owner

-- The first loop over the sorted tailnets: the MagicDNS suffixes and the alias zones.
unfoldable pub claim_all : AliasSettings → List TailnetPeers → Map Text Text → Map Text Text
unfolding claim_suffix claim_zone
claim_all a [] owner = owner
claim_all a (p ∷ ps) owner = claim_all a ps (claim_zone a p (claim_suffix p owner))

-- `SplitDNSEntry`
pub record SplitDnsEntry : Type 0 where
  pub tailnet_id : Text
  pub domains : List Text
  pub conflict : Text

-- The variables of the second loop.
pub record Claims : Type 0 where
  pub owner : Map Text Text
  pub seen : List Text
  pub domains : List Text
  pub conflict : Text
  pub conflicts : List Text

abbrev add_conflict : Text → Text → Text
add_conflict [] message = message
add_conflict (c ∷ s) message = (c ∷ s) ++ (txt "; " ++ message)

abbrev pub claimed_by : Text → Text → Text → Text
claimed_by domain id owner_id =
    txt "the split DNS domain " ++ domain ++ txt " of " ++ id ++ txt " is claimed by " ++ owner_id

-- A domain of the name space of Tailscale itself.
abbrev pub is_reserved : Text → Bool
is_reserved domain = domain == txt "ts.net" || has_suffix domain (txt ".ts.net")

-- One domain that is a DNS name.
unfoldable pub claim_domain : Text → Text → Claims → Claims
claim_domain id domain c =
    let known = record c { seen = domain ∷ c.seen } in
    if is_reserved domain
    then c
    else if mem domain c.seen
    then c
    else elim (lookup domain c.owner) [
      | some owner_id ↦
          let message = claimed_by domain id owner_id in
          record known {
            conflict = add_conflict c.conflict message;
            conflicts = c.conflicts ++ message ∷ [];
          }
      | none ↦ record known { owner = put domain id c.owner; domains = c.domains ++ domain ∷ [] }
    ]

claim_raw : Text → Text → Claims → Claims
unfolding claim_domain
claim_raw id raw c = elim (normalize_split_domain raw) [
  | none ↦ c
  | some domain ↦ claim_domain id domain c
]

-- The inner loop over the split DNS domains of one tailnet.
unfoldable pub claim_domains : Text → List Text → Claims → Claims
unfolding claim_raw
claim_domains id [] c = c
claim_domains id (raw ∷ raws) c = claim_domains id raws (claim_raw id raw c)

-- One tailnet of the second loop, from the owners so far.
unfoldable pub split_tailnet : TailnetPeers → Map Text Text → Claims
unfolding claim_domains
split_tailnet p owner =
    claim_domains p.tailnet_id p.split_dns_domains
      (record { owner = owner; seen = []; domains = []; conflict = []; conflicts = [] })

-- The second loop: the domains of each tailnet, with its conflicts.
unfoldable pub split_all : List TailnetPeers → Map Text Text → List (TailnetPeers × Claims)
unfolding split_tailnet
split_all [] owner = []
split_all (p ∷ ps) owner = let c = split_tailnet p owner in (p, c) ∷ split_all ps c.owner
