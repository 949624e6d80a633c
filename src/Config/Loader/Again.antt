-- ===== src/Config/Loader/Again.antt =====
-- What LoadConfig returns passes LoadConfig again, unchanged.
use hydrascale.Common.{
  true, false, ◌≡◌, refl, sym, ◌∙◌, none, some, [], inl, inr, Text, text_eq, ◌==◌, ok, Result-cases,
  Option-cases, Bool-cases, arith, same_text,
}
use hydrascale.Config.{ℤ, Config, tailnet_host_access, validate_route_table}
use hydrascale.Config.Names.{validate_tailnet_names}
use hydrascale.Config.Addresses.{Parsers, console_bind_address_of}
use hydrascale.Config.Loader.{
  check_config, is_zero, migrate_version, interval_of, parse_interval, default_infra_subnet,
  check_subnet, default_subnet, default_secrets, load_config,
}

module _ (env : Parsers) where
  -- The checks read none of the fields that the defaults fill in.
  check_config-migrate_version :
      (c : Config) → check_config env (migrate_version c) ≡ check_config env c
  unfolding check_config migrate_version tailnet_host_access validate_tailnet_names
      console_bind_address_of
  check_config-migrate_version c = elim (Bool-cases (is_zero c.version)) [
    | inr kept ↦ rw kept refl
    | inl zero ↦ elim (Bool-cases (c.resolver.mode == [])) [
      | inl blank ↦ rw (zero, blank) refl
      | inr set ↦ rw (zero, set) refl
    ]
  ]

  -- What the loader fills in stays as it is.
  record IsFilled (c : Config) : Type 0 where
    version : is_zero c.version ≡ false
    interval : parse_interval env c ≡ ok c
    secrets : (c.secrets_file == []) ≡ false
    subnet : default_subnet env c ≡ ok c

  load_config-IsFilled :
      (c : Config)
      → IsFilled c
      → check_config env c ≡ ok tt
      → validate_route_table c.route_table ≡ none
      → load_config env c ≡ ok c
  unfolding load_config migrate_version default_secrets
  load_config-IsFilled c filled checked table =
      rw (checked, filled.version)
        (rw filled.interval (rw filled.secrets (rw filled.subnet (rw table refl))))

  -- The parts of a load that succeeded.
  record IsLoad (c d : Config) : Type 0 where
    checked : check_config env c ≡ ok tt
    timed : Config
    interval : parse_interval env (migrate_version c) ≡ ok timed
    subnet : default_subnet env (default_secrets timed) ≡ ok d
    table : validate_route_table d.route_table ≡ none

  load_config-IsLoad : (c d : Config) → load_config env c ≡ ok d → IsLoad c d
  unfolding load_config
  load_config-IsLoad c d h = elim (Result-cases (check_config env c)) [
    | inr (e, failed) ↦ absurd (ground (arith, failed, h))
    | inl (u, checked) ↦ elim (Result-cases (parse_interval env (migrate_version c))) [
      | inr (e, failed) ↦ absurd (ground (arith, failed, checked, h))
      | inl (timed, interval) ↦ elim (Result-cases (default_subnet env (default_secrets timed))) [
        | inr (e, failed) ↦ absurd (ground (arith, failed, interval, checked, h))
        | inl (placed, subnet) ↦ elim (Option-cases (validate_route_table placed.route_table)) [
          | inr (e, failed) ↦ absurd (ground (arith, failed, subnet, interval, checked, h))
          | inl table ↦
              let e : placed ≡ d = ground (arith, table, subnet, interval, checked, h) in
              record {
                checked = checked;
                timed = timed;
                interval = interval;
                subnet = rw (sym e) subnet;
                table = rw (sym e) table;
              }
        ]
      ]
    ]
  ]

  migrate_version_nonzero : (c : Config) → is_zero (migrate_version c).version ≡ false
  unfolding migrate_version
  migrate_version_nonzero c = elim (Bool-cases (is_zero c.version)) [
    | inl zero ↦ rw zero refl
    | inr kept ↦ rw (kept, kept) refl
  ]

  interval_of_fixed :
      (raw : Text) (i d : ℤ) → interval_of env raw i ≡ ok d → interval_of env raw d ≡ ok d
  unfolding interval_of
  interval_of_fixed raw i d h = elim (Bool-cases (raw == [])) [
    | inl blank ↦ elim (Bool-cases (is_zero i)) [
      | inl zero ↦ ground (arith, blank, zero, h)
      | inr kept ↦ ground (arith, blank, kept, h)
    ]
    | inr set ↦ elim (Option-cases (env.parse_duration raw)) [
      | inl bad ↦ absurd (ground (arith, set, bad, h))
      | inr (e, parsed) ↦ ground (arith, set, parsed, h)
    ]
  ]

  -- Two configurations that the later steps treat alike.
  record Keeps (c d : Config) : Type 0 where
    version : is_zero d.version ≡ is_zero c.version
    interval : interval_of env d.raw_interval d.interval ≡ ok d.interval
    checked : check_config env d ≡ check_config env c

  parse_interval-Keeps : (c t : Config) → parse_interval env c ≡ ok t → Keeps c t
  unfolding parse_interval check_config tailnet_host_access validate_tailnet_names
      console_bind_address_of
  parse_interval-Keeps c t h = elim (Result-cases (interval_of env c.raw_interval c.interval)) [
    | inr (e, failed) ↦ absurd (ground (arith, failed, h))
    | inl (d, found) ↦
        let e : record c { interval = d } ≡ t = ground (arith, found, h) in
        rw (sym e) (record {
          version = refl;
          interval = interval_of_fixed c.raw_interval c.interval d found;
          checked = refl;
        })
  ]

  default_secrets-Keeps : (b c : Config) → Keeps b c → Keeps b (default_secrets c)
  unfolding default_secrets check_config tailnet_host_access validate_tailnet_names
      console_bind_address_of
  default_secrets-Keeps b c k = elim (Bool-cases (c.secrets_file == [])) [
    | inl blank ↦
        rw blank (record { version = k.version; interval = k.interval; checked = k.checked })
    | inr set ↦ rw set k
  ]

  default_secrets_named : (c : Config) → ((default_secrets c).secrets_file == []) ≡ false
  unfolding default_secrets same_text
  default_secrets_named c = elim (Bool-cases (c.secrets_file == [])) [
    | inl blank ↦ rw blank refl
    | inr set ↦ rw set set
  ]

  check_default :
      env.parse_cidr default_infra_subnet ≡ some (true, 16, 32)
      → check_subnet env default_infra_subnet ≡ ok tt
  unfolding check_subnet
  check_default cidr = rw (cidr, check_subnet) refl

  module _ (cidr : env.parse_cidr default_infra_subnet ≡ some (true, 16, 32)) where
    default_subnet-IsFilled :
        (b c d : Config)
        → is_zero b.version ≡ false
        → Keeps b c
        → (c.secrets_file == []) ≡ false
        → default_subnet env c ≡ ok d
        → IsFilled d × (check_config env d ≡ check_config env b)
    unfolding default_subnet default_secrets parse_interval same_text check_config
        tailnet_host_access validate_tailnet_names console_bind_address_of
    default_subnet-IsFilled b c d v k s h = elim (Bool-cases (c.infra_subnet == [])) [
      | inl blank ↦
          let e : record c { infra_subnet = default_infra_subnet } ≡ d = ground (arith, blank, h) in
          rw (sym e) (
            (record {
              version = k.version ∙ v;
              interval = rw k.interval refl;
              secrets = s;
              subnet = rw (check_default cidr) refl;
            }),
            k.checked,
          )
      | inr set ↦ elim (Result-cases (check_subnet env c.infra_subnet)) [
        | inr (e, failed) ↦ absurd (ground (arith, set, failed, h))
        | inl (u, fits) ↦
            let e : c ≡ d = ground (arith, set, fits, h) in
            rw (sym e) (
              (record {
                version = k.version ∙ v;
                interval = rw k.interval refl;
                secrets = s;
                subnet = rw (set, fits) refl;
              }),
              k.checked,
            )
      ]
    ]

    -- What LoadConfig returns passes LoadConfig again, and the second load changes nothing. The
    -- hypothesis is what net.ParseCIDR answers for the default subnet.
    pub load_config_again : (c d : Config) → load_config env c ≡ ok d → load_config env d ≡ ok d
    load_config_again c d h =
        let load = load_config-IsLoad c d h in
        let m = migrate_version c in
        let s = default_secrets load.timed in
        let k : Keeps m s =
          default_secrets-Keeps m load.timed (parse_interval-Keeps m load.timed load.interval) in
        let (filled, checked) =
          default_subnet-IsFilled m s d (migrate_version_nonzero c) k
            (default_secrets_named load.timed) load.subnet in
        load_config-IsFilled d filled (checked ∙ check_config-migrate_version c ∙ load.checked)
          load.table
