-- ===== src/HostAccess/Resolved/Checked.antt =====
-- What reaches a command of resolvectl.
use hydrascale.Common.{
  Bool, true, false, ◌≡◌, refl, ◌⊎◌, none, Answer, List, [], ◌∷◌, Text, text_eq, All, Bool-cases,
  Option-cases, inl, inr, arith,
}
use hydrascale.HostAccess.Resolved.{
  Link, valid_dns_name, valid_device_name, bare_domain, no_texts, bad_domain, link_error,
  links_error, register_domains,
}

abbrev IsDomain : Text → Type 0
IsDomain d = valid_dns_name (bare_domain d) ≡ true

-- A link whose device, address and domains are what they claim to be.
pub record IsChecked (is_ip : Text → Bool) (l : Link) : Type 0 where
  pub device : valid_device_name l.device ≡ true
  pub address : is_ip l.address ≡ true
  pub some_domain : no_texts l.domains ≡ false
  pub domains : All IsDomain l.domains

bad_domain-none : (ds : List Text) → bad_domain ds ≡ none → All IsDomain ds
unfolding bad_domain
bad_domain-none [] h = tt
bad_domain-none (d ∷ ds) h = elim (Bool-cases (valid_dns_name (bare_domain d))) [
  | inl good ↦ (good, bad_domain-none ds (ground (arith, h, good)))
  | inr bad ↦ absurd (ground (arith, h, bad))
]

module _ (is_ip : Text → Bool) (quote : Text → Text) where
  link_error-none : (l : Link) → link_error is_ip quote l ≡ none → IsChecked is_ip l
  unfolding link_error
  link_error-none l h =
      let domains : bad_domain l.domains ≡ none = elim (Option-cases (bad_domain l.domains)) [
        | inl good ↦ good
        | inr (d, bad) ↦ absurd (ground (arith, h, bad))
      ] in
      record {
        device = ground (arith, h);
        address = ground (arith, h);
        some_domain = ground (arith, h);
        domains = bad_domain-none l.domains domains;
      }

  links_error-none :
      (links : List Link) → links_error is_ip quote links ≡ none → All (IsChecked is_ip) links
  unfolding links_error
  links_error-none [] h = tt
  links_error-none (l ∷ links) h = elim (Option-cases (link_error is_ip quote l)) [
    | inr (e, bad) ↦ absurd (ground (arith, h, bad))
    | inl good ↦ (link_error-none l good, links_error-none links (ground (arith, h, good)))
  ]

  -- RegisterDomains runs no command and keeps its registrations, or every link that it was given has the
  -- name of a device, an address, and at least one domain, each of them a DNS name.
  pub register_domains-IsChecked :
      {W : Type 0} (run : List Text → W → W × Answer) (links : List Link) (registered : List Text)
      (w : W)
      → (((register_domains run is_ip quote links registered w).0 ≡ w)
          × ((register_domains run is_ip quote links registered w).1 ≡ registered))
        ⊎ All (IsChecked is_ip) links
  unfolding register_domains
  register_domains-IsChecked run [] registered w = inl (refl, refl)
  register_domains-IsChecked run (l ∷ links) registered w =
      elim (Option-cases (links_error is_ip quote (l ∷ links))) [
        | inr (e, bad) ↦ inl (rw (bad, register_domains) (refl, refl))
        | inl good ↦ inr (links_error-none (l ∷ links) good)
      ]
