-- ===== src/Config/Loader.antt =====
-- internal/config/config.go: LoadConfig, from the decoded file on.
pub mod Again
pub mod Safety
use hydrascale.Common.{
  ℕ, Bool, true, false, not, ◌&&◌, ◌||◌, Option, none, some, List, [], ◌∷◌, ◌++◌, map, Text, txt,
  text_eq, ◌==◌, eqb, ltb, if◌then◌else◌, Result, ok, err, ◌>>=◌, ◌>>◌, refuse_if, is_some,
}
use hydrascale.Access.Rules.{SetFailure, validate}
use hydrascale.Config.{
  ℤ, pos, negsuc, Tailnet, ResolverConfig, Config, tailnet_host_access, RouteTableError,
  validate_route_table,
}
use hydrascale.Config.Names.{NameError, validate_tailnet_names}
use hydrascale.Config.Publish.{PublishError, validate_publish}
use hydrascale.Config.Addresses.{
  Parsers, AddressError, UrlError, validate_bind_address, validate_console_bind_address,
  console_bind_address_of, validate_control_url,
}

pub data LoadError : Type 0 where
  bad_names : NameError → LoadError
  bad_tailnet_url : Text → UrlError → LoadError
  bad_access : List SetFailure → LoadError
  bad_publish : List PublishError → LoadError
  bad_global_url : UrlError → LoadError
  bad_bind_address bad_console_address : AddressError → LoadError
  bad_probe_target bad_interval bad_subnet subnet_is_no_ipv4 subnet_too_small : Text → LoadError
  bad_route_table : RouteTableError → LoadError

-- The error of a check, if it found one.
abbrev pub passed : {E : Type 0} → (E → LoadError) → Option E → Result LoadError (Unit {0})
passed wrap none = ok tt
passed wrap (some e) = err (wrap e)

-- The failures of a check, if it found any.
abbrev pub none_of : {E : Type 0} → (List E → LoadError) → List E → Result LoadError (Unit {0})
none_of wrap [] = ok tt
none_of wrap (e ∷ es) = err (wrap (e ∷ es))

check_urls : Parsers → List Tailnet → Result LoadError (Unit {0})
check_urls env [] = ok tt
check_urls env (tn ∷ tns) =
    passed (bad_tailnet_url tn.id) (validate_control_url env tn.control_url) >> check_urls env tns

abbrev check_access : Config → Result LoadError (Unit {0})
check_access c = elim c.access [
  | none ↦ ok tt
  | some set ↦ none_of bad_access (validate set (map (λ (tn : Tailnet). tn.id) c.tailnets))
]

-- The checks of `LoadConfig` before it fills in a default.
unfoldable pub check_config : Parsers → Config → Result LoadError (Unit {0})
unfolding check_urls
check_config env c = do
  passed bad_names (validate_tailnet_names c)
  check_urls env c.tailnets
  check_access c
  none_of bad_publish (validate_publish c.tailnets (tailnet_host_access c) c.access)
  passed bad_global_url (validate_control_url env c.control_url)
  passed bad_bind_address (validate_bind_address env c.resolver.bind_address)
  passed bad_console_address (validate_console_bind_address env (console_bind_address_of c))
  refuse_if (not (c.probe_target == []) && not (is_some (env.parse_ip c.probe_target)))
      (bad_probe_target c.probe_target)

abbrev pub is_zero : ℤ → Bool
is_zero (pos n) = eqb n 0
is_zero (negsuc n) = false

-- A version 1 file holds no version.
unfoldable pub migrate_version : Config → Config
migrate_version c =
    if is_zero c.version
    then record c {
      version = pos 2;
      resolver =
          if c.resolver.mode == [] then record c.resolver { mode = txt "unified" } else c.resolver;
    }
    else c

abbrev default_interval : ℤ
default_interval = pos 10000000000

-- The interval that the text or the default gives.
unfoldable pub interval_of : Parsers → Text → ℤ → Result LoadError ℤ
interval_of env raw interval = do
  parsed ←
      if raw == []
      then ok interval
      else elim (env.parse_duration raw) [ none ↦ err (bad_interval raw) | some d ↦ ok d ]
  ok (if is_zero parsed then default_interval else parsed)

unfoldable pub parse_interval : Parsers → Config → Result LoadError Config
parse_interval env c = do
  interval ← interval_of env c.raw_interval c.interval
  ok (record c { interval = interval })

abbrev pub default_secrets_path : Text
default_secrets_path = txt "/etc/hydrascale/secrets.yaml"

abbrev pub default_infra_subnet : Text
default_infra_subnet = txt "10.200.0.0/16"

unfoldable pub check_subnet : Parsers → Text → Result LoadError (Unit {0})
check_subnet env subnet = elim (env.parse_cidr subnet) [
  | none ↦ err (bad_subnet subnet)
  | some (is_ipv4, ones, bits) ↦ do
    refuse_if (not is_ipv4) (subnet_is_no_ipv4 subnet)
    refuse_if (not (eqb bits 32) || ltb 16 ones) (subnet_too_small subnet)
]

unfoldable pub default_subnet : Parsers → Config → Result LoadError Config
default_subnet env c =
    if c.infra_subnet == []
    then ok (record c { infra_subnet = default_infra_subnet })
    else check_subnet env c.infra_subnet >> ok c

unfoldable pub default_secrets : Config → Config
default_secrets c =
    if c.secrets_file == [] then record c { secrets_file = default_secrets_path } else c

unfoldable pub load_config : Parsers → Config → Result LoadError Config
unfolding check_config
load_config env c = do
  check_config env c
  timed ← parse_interval env (migrate_version c)
  placed ← default_subnet env (default_secrets timed)
  passed bad_route_table (validate_route_table placed.route_table)
  ok placed
