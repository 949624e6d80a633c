-- ===== src/Config/Loader/Safety.antt =====
-- What a configuration that LoadConfig returns guarantees.
use hydrascale.Common.{
  true, false, ◌≡◌, ◌⊎◌, inl, inr, none, some, [], Text, txt, text_eq, same_text, ◌==◌, ==_iff, ok,
  All, all, nodup, refl, Result-cases, Option-cases, List-cases, Bool-cases, arith,
}
use hydrascale.Config.{Config, tailnet_host_access, is_valid_id}
use hydrascale.Config.Names.Distinct.{ids_of, validate_tailnet_names-nodup}
use hydrascale.Config.Names.{validate_tailnet_names}
use hydrascale.Config.Publish.{validate_publish, rules_or_none}
use hydrascale.Config.Publish.Validation.{MayPublish, validate_publish_iff}
use hydrascale.Config.Addresses.{
  Parsers, is_loopback_ip, is_loopback_host, validate_bind_address, validate_console_bind_address,
  console_bind_address_of, validate_control_url,
}
use hydrascale.Config.Loader.{check_config, load_config, default_infra_subnet}
use hydrascale.Config.Loader.Again.{load_config_again}

module _ (env : Parsers) where
  -- A host and a port of which the host is a loopback address.
  abbrev pub IsLoopback : Text → Type 0
  IsLoopback addr =
      (host : Text) × (port : Text) × (env.split_host_port addr ≡ some (host, port))
      × (is_loopback_ip env host ≡ true)

  validate_console-IsLoopback :
      (addr : Text) → validate_console_bind_address env addr ≡ none → IsLoopback addr
  unfolding validate_console_bind_address
  validate_console-IsLoopback addr h = elim (Option-cases (env.split_host_port addr)) [
    | inl bad ↦ absurd (ground (arith, bad, h))
    | inr ((host, port), split) ↦ (host, port, split, ground (arith, split, h))
  ]

  validate_bind-IsLoopback :
      (addr : Text) → validate_bind_address env addr ≡ none → (addr ≡ []) ⊎ IsLoopback addr
  unfolding validate_bind_address
  validate_bind-IsLoopback addr h = elim (Bool-cases (addr == [])) [
    | inl blank ↦ inl ((==_iff addr []).0 blank)
    | inr set ↦ elim (Option-cases (env.split_host_port addr)) [
      | inl bad ↦ absurd (ground (arith, bad, set, h))
      | inr ((host, port), split) ↦ inr (host, port, split, ground (arith, split, set, h))
    ]
  ]

  -- No URL, https to a host, or http to a loopback host.
  abbrev pub IsControlUrl : Text → Type 0
  IsControlUrl raw =
      (raw ≡ [])
      ⊎ ((scheme : Text) × (host : Text) × (env.parse_url raw ≡ some (scheme, host))
          × (((scheme ≡ txt "https") × ((host == []) ≡ false))
              ⊎ ((scheme ≡ txt "http") × (is_loopback_host env host ≡ true))))

  scheme_cases :
      (raw scheme host : Text)
      → env.parse_url raw ≡ some (scheme, host)
      → validate_control_url env raw ≡ none
      → (raw == []) ≡ false
      → ((scheme ≡ txt "https") × ((host == []) ≡ false))
        ⊎ ((scheme ≡ txt "http") × (is_loopback_host env host ≡ true))
  unfolding validate_control_url same_text
  scheme_cases raw scheme host parsed h set = elim (Bool-cases (scheme == txt "https")) [
    | inl tls ↦
        let e : scheme ≡ txt "https" = (==_iff scheme (txt "https")).0 tls in
        let other : (scheme == txt "http") ≡ false = rw e refl in
        inl (e, ground (arith, set, parsed, tls, other, h))
    | inr plain ↦ elim (Bool-cases (scheme == txt "http")) [
      | inl http ↦
          inr ((==_iff scheme (txt "http")).0 http, ground (arith, set, parsed, plain, http, h))
      | inr other ↦ absurd (ground (arith, set, parsed, plain, other, h))
    ]
  ]

  validate_control_url-IsControlUrl :
      (raw : Text) → validate_control_url env raw ≡ none → IsControlUrl raw
  unfolding validate_control_url
  validate_control_url-IsControlUrl raw h = elim (Bool-cases (raw == [])) [
    | inl blank ↦ inl ((==_iff raw []).0 blank)
    | inr set ↦ elim (Option-cases (env.parse_url raw)) [
      | inl bad ↦ absurd (ground (arith, bad, set, h))
      | inr ((scheme, host), parsed) ↦
          inr (scheme, host, parsed, scheme_cases raw scheme host parsed h set)
    ]
  ]

  pub record IsSafe (c : Config) : Type 0 where
    pub distinct : nodup (ids_of c.tailnets) ≡ true
    pub valid : all is_valid_id (ids_of c.tailnets) ≡ true
    pub published : All (MayPublish (rules_or_none c.access) (tailnet_host_access c)) c.tailnets
    pub control_url : IsControlUrl c.control_url
    pub bind_address : (c.resolver.bind_address ≡ []) ⊎ IsLoopback c.resolver.bind_address
    pub console : IsLoopback (console_bind_address_of c)

  names_of : (c : Config) → check_config env c ≡ ok tt → validate_tailnet_names c ≡ none
  unfolding check_config
  names_of c h = elim (Option-cases (validate_tailnet_names c)) [
    | inl good ↦ good
    | inr (e, bad) ↦ absurd (ground (arith, bad, h))
  ]

  console_of :
      (c : Config)
      → check_config env c ≡ ok tt
      → validate_console_bind_address env (console_bind_address_of c) ≡ none
  unfolding check_config
  console_of c h =
      elim (Option-cases (validate_console_bind_address env (console_bind_address_of c))) [
        | inl good ↦ good
        | inr (e, bad) ↦ absurd (ground (arith, bad, h))
      ]

  control_url_of :
      (c : Config) → check_config env c ≡ ok tt → validate_control_url env c.control_url ≡ none
  unfolding check_config
  control_url_of c h = elim (Option-cases (validate_control_url env c.control_url)) [
    | inl good ↦ good
    | inr (e, bad) ↦ absurd (ground (arith, bad, h))
  ]

  bind_address_of :
      (c : Config)
      → check_config env c ≡ ok tt
      → validate_bind_address env c.resolver.bind_address ≡ none
  unfolding check_config
  bind_address_of c h = elim (Option-cases (validate_bind_address env c.resolver.bind_address)) [
    | inl good ↦ good
    | inr (e, bad) ↦ absurd (ground (arith, bad, h))
  ]

  published_of :
      (c : Config)
      → check_config env c ≡ ok tt
      → validate_publish c.tailnets (tailnet_host_access c) c.access ≡ []
  unfolding check_config
  published_of c h =
      elim (List-cases (validate_publish c.tailnets (tailnet_host_access c) c.access)) [
        | inl good ↦ good
        | inr (e, es, bad) ↦ absurd (ground (arith, bad, h))
      ]

  check_config-IsSafe : (c : Config) → check_config env c ≡ ok tt → IsSafe c
  check_config-IsSafe c h = record {
    distinct = (validate_tailnet_names-nodup c (names_of c h)).0;
    valid = (validate_tailnet_names-nodup c (names_of c h)).1;
    published =
        (validate_publish_iff c.tailnets (tailnet_host_access c) c.access).0 (published_of c h);
    control_url = validate_control_url-IsControlUrl c.control_url (control_url_of c h);
    bind_address = validate_bind-IsLoopback c.resolver.bind_address (bind_address_of c h);
    console = validate_console-IsLoopback (console_bind_address_of c) (console_of c h);
  }

  load_config-check : (c d : Config) → load_config env c ≡ ok d → check_config env c ≡ ok tt
  unfolding load_config
  load_config-check c d h = elim (Result-cases (check_config env c)) [
    | inl (u, good) ↦ good
    | inr (e, bad) ↦ absurd (ground (arith, bad, h))
  ]

  -- In a configuration that LoadConfig returns no two tailnets hold the same ID and every ID is
  -- valid, each publish list is covered by the rules, the global control URL is absent, https to a
  -- host, or http to a loopback host, the address that the file gives the DNS forwarder is absent or
  -- a loopback address, and the console binds a loopback address. The hypothesis on the subnet is
  -- what net.ParseCIDR answers for the default.
  pub load_config-IsSafe :
      (c d : Config)
      → env.parse_cidr default_infra_subnet ≡ some (true, 16, 32)
      → load_config env c ≡ ok d
      → IsSafe d
  load_config-IsSafe c d cidr h =
      check_config-IsSafe d (load_config-check d d (load_config_again env cidr c d h))
