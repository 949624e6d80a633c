-- ===== src/Config/Examples.antt =====
-- The theorems on internal/config at a concrete configuration.
use hydrascale.Common.{
  ◌≡◌, ◌↔◌, refl, true, false, none, some, [], ◌∷◌, Text, txt, text_eq, same_text, ◌==◌, lookup,
  All, ok,
}
use hydrascale.Access.Ports.{parse_publish_port, parse_port}
use hydrascale.Access.Rules.{RuleSet, host, validate, covers_host}
use hydrascale.Access.Toy.{before_colon, after_colon}
use hydrascale.Config.{
  pos, Tailnet, Config, tailnet_host_access, is_valid_id, is_valid_alias, to_lower, is_dns_label,
  validate_route_table,
}
use hydrascale.Config.Names.{validate_tailnet_names}
use hydrascale.Config.Names.Resolution.{IsResolved, validate_tailnet_names-IsResolved}
use hydrascale.Config.Publish.{validate_publish, rules_or_none}
use hydrascale.Config.Publish.Validation.{MayPublish, validate_publish_iff}
use hydrascale.Config.Addresses.{
  Parsers, is_loopback_ip, validate_bind_address, validate_console_bind_address,
  console_bind_address_of, validate_control_url,
}
use hydrascale.Config.Loader.{
  check_config, migrate_version, interval_of, parse_interval, default_subnet, default_secrets,
  default_infra_subnet, default_secrets_path, load_config,
}
use hydrascale.Config.Loader.Again.{load_config_again}
use hydrascale.Config.Loader.Safety.{IsSafe, load_config-IsSafe}

abbrev work : Tailnet
work = record {
  id = txt "work";
  exit_node = [];
  auth_key = [];
  host_access = none;
  control_url = txt "https:vpn";
  alias = txt "w";
  publish = txt "tcp/22" ∷ [];
}

abbrev home : Tailnet
home = record {
  id = txt "home";
  exit_node = [];
  auth_key = [];
  host_access = some false;
  control_url = [];
  alias = [];
  publish = [];
}

abbrev rules : RuleSet
rules = record {
  mode = [];
  rules = record { from = txt "work"; to = host; ports = txt "tcp/20-22" ∷ [] } ∷ [];
}

-- A version 1 file that leaves every default out.
abbrev file : Config
file = record {
  version = pos 0;
  host_access = true;
  control_url = txt "https:control";
  tailnets = work ∷ home ∷ [];
  resolver = record { mode = []; bind_address = txt "127.0.0.1:5353"; resolve_aliases = true };
  interval = pos 0;
  raw_interval = [];
  host_dns_mode = [];
  allow_unprotected = false;
  infra_subnet = [];
  route_table = pos 53;
  ipv6 = false;
  secrets_file = [];
  probe_target = [];
  access = some rules;
  console_bind_address = [];
}

abbrev loaded : Config
loaded = record file {
  version = pos 2;
  resolver = record {
    mode = txt "unified";
    bind_address = txt "127.0.0.1:5353";
    resolve_aliases = true;
  };
  interval = pos 10000000000;
  infra_subnet = default_infra_subnet;
  secrets_file = default_secrets_path;
}

-- Parsers for which 127.0.0.1 is the only loopback address and every subnet is large enough.
abbrev env : Parsers
env = record {
  Ip = Text;
  split_host_port = λ s. some (before_colon s, after_colon s);
  parse_ip = λ s. some s;
  is_loopback = λ ip. ip == txt "127.0.0.1";
  parse_url = λ s. some (before_colon s, after_colon s);
  parse_duration = λ s. some (pos 5);
  parse_cidr = λ s. some (true, 16, 32);
}

validate_tailnet_names-IsResolved_example : All (IsResolved file) (work ∷ home ∷ [])
unfolding validate_tailnet_names same_text lookup is_valid_id is_valid_alias to_lower is_dns_label
validate_tailnet_names-IsResolved_example = validate_tailnet_names-IsResolved file refl

validate_publish_iff_example :
    (validate_publish (work ∷ home ∷ []) (λ id. true) (some rules) ≡ [])
    ↔ All (MayPublish (rules_or_none (some rules)) (λ id. true)) (work ∷ home ∷ [])
validate_publish_iff_example = validate_publish_iff (work ∷ home ∷ []) (λ id. true) (some rules)

load_config_again_example : load_config env loaded ≡ ok loaded
unfolding load_config check_config migrate_version parse_interval interval_of default_secrets
    default_subnet validate_route_table validate_tailnet_names same_text lookup is_valid_id
    is_valid_alias to_lower is_dns_label validate validate_publish parse_publish_port parse_port
    covers_host tailnet_host_access rules_or_none validate_control_url validate_bind_address
    validate_console_bind_address console_bind_address_of is_loopback_ip
load_config_again_example = load_config_again env refl file loaded refl

load_config-IsSafe_example : IsSafe env loaded
unfolding load_config check_config migrate_version parse_interval interval_of default_secrets
    default_subnet validate_route_table validate_tailnet_names same_text lookup is_valid_id
    is_valid_alias to_lower is_dns_label validate validate_publish parse_publish_port parse_port
    covers_host tailnet_host_access rules_or_none validate_control_url validate_bind_address
    validate_console_bind_address console_bind_address_of is_loopback_ip
load_config-IsSafe_example = load_config-IsSafe env file loaded refl refl
