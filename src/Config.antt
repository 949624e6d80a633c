-- ===== src/Config.antt =====
-- internal/config/config.go: the configuration, its accessors and the checks of its fields.
pub mod Names
pub mod Addresses
pub mod Publish
pub mod Loader
mod Examples
use hydrascale.Common.{
  ℕ, ◌≤◌, Bool, true, false, not, ◌≡◌, refl, ◌&&◌, ◌||◌, Option, none, some, List, [], ◌∷◌, ◌++◌,
  Text, txt, text_eq, ◌==◌, leb, ltb, eqb, if◌then◌else◌, any, all, length, Result, ok, err,
}
use hydrascale.Access.Rules.{RuleSet, effective_mode, mode_enforce}

-- An integer of Go, for a key that the file may set below zero.
pub data ℤ : Type 0 where
  pos : ℕ → ℤ
  -- `negsuc n` is -(n + 1).
  negsuc : ℕ → ℤ

pub record Tailnet : Type 0 where
  pub id : Text
  pub exit_node : Text
  pub auth_key : Text
  pub host_access : Option Bool
  pub control_url : Text
  pub alias : Text
  pub publish : List Text

pub record ResolverConfig : Type 0 where
  pub mode : Text
  pub bind_address : Text
  pub resolve_aliases : Bool

pub record Config : Type 0 where
  pub version : ℤ
  pub host_access : Bool
  pub control_url : Text
  pub tailnets : List Tailnet
  pub resolver : ResolverConfig
  -- nanoseconds, and the text of the file
  pub interval : ℤ
  pub raw_interval : Text
  pub host_dns_mode : Text
  pub allow_unprotected : Bool
  pub infra_subnet : Text
  pub route_table : ℤ
  pub ipv6 : Bool
  pub secrets_file : Text
  pub probe_target : Text
  pub access : Option RuleSet
  pub console_bind_address : Text

unfoldable pub access_mode : Config → Text
access_mode c = elim c.access [ none ↦ mode_enforce | some set ↦ effective_mode set ]

-- The loop of `TailnetHostAccess` over the tailnets.
host_access_in : Text → Bool → List Tailnet → Bool
host_access_in id global [] = global
host_access_in id global (tn ∷ tns) =
    if tn.id == id
    then elim tn.host_access [ none ↦ global | some on ↦ on ]
    else host_access_in id global tns

unfoldable pub tailnet_host_access : Config → Text → Bool
unfolding host_access_in
tailnet_host_access c id = host_access_in id c.host_access c.tailnets

unfoldable pub effective_host_dns_mode : Config → Text
effective_host_dns_mode c =
    if not (c.host_dns_mode == [])
    then c.host_dns_mode
    else if any (λ (tn : Tailnet). tailnet_host_access c tn.id) c.tailnets
    then txt "hosts"
    else []

abbrev route_table_default : ℕ
route_table_default = 253

abbrev route_table_main : ℕ
route_table_main = 254

abbrev route_table_local : ℕ
route_table_local = 255

abbrev max_route_table : ℕ
max_route_table = 4294967294

pub data RouteTableError : Type 0 where
  negative too_large reserved : ℤ → RouteTableError

-- `ValidateRouteTable`; `none` is the nil error.
unfoldable pub validate_route_table : ℤ → Option RouteTableError
validate_route_table (negsuc n) = some (negative (negsuc n))
validate_route_table (pos table) =
    if eqb table 0
    then none
    else if ltb max_route_table table
    then some (too_large (pos table))
    else if eqb table route_table_default
        || eqb table route_table_main
        || eqb table route_table_local
    then some (reserved (pos table))
    else none

abbrev pub is_lower : ℕ → Bool
is_lower c = leb b'a' c && leb c b'z'

abbrev is_upper : ℕ → Bool
is_upper c = leb b'A' c && leb c b'Z'

abbrev pub is_alphanumeric : ℕ → Bool
is_alphanumeric c = is_lower c || is_upper c || (leb b'0' c && leb c b'9')

-- `[a-zA-Z0-9][<more>]{0,62}`
matches_name : (ℕ → Bool) → Text → Bool
matches_name more [] = false
matches_name more (c ∷ s) = is_alphanumeric c && all more s && leb (length s) 62

id_char : ℕ → Bool
id_char c = is_alphanumeric c || eqb c b'.' || eqb c b'_' || eqb c b'-'

alias_char : ℕ → Bool
alias_char c = is_alphanumeric c || eqb c b'_' || eqb c b'-'

unfoldable pub is_valid_id : Text → Bool
unfolding matches_name id_char
is_valid_id id = matches_name id_char id

unfoldable pub is_valid_alias : Text → Bool
unfolding matches_name alias_char
is_valid_alias alias = matches_name alias_char alias

label_char : ℕ → Bool
label_char c = is_alphanumeric c || eqb c b'-'

-- The last character is a letter or a digit.
ends_well : Text → Bool
ends_well [] = true
ends_well (c ∷ []) = is_alphanumeric c
ends_well (c ∷ d ∷ s) = ends_well (d ∷ s)

-- `[a-zA-Z0-9]([a-zA-Z0-9-]{0,61}[a-zA-Z0-9])?`
unfoldable pub is_dns_label : Text → Bool
unfolding label_char ends_well
is_dns_label [] = false
is_dns_label (c ∷ s) = is_alphanumeric c && all label_char s && leb (length s) 62 && ends_well s

-- strings.ToLower on the ASCII texts that the patterns let through.
abbrev lower_char : ℕ → ℕ
lower_char c = if is_upper c then Prim.Native.Nat.◌+◌ c 32 else c

unfoldable pub to_lower : Text → Text
to_lower [] = []
to_lower (c ∷ s) = lower_char c ∷ to_lower s

unfoldable pub resolve_control_url : Text → Text → Text
resolve_control_url per_tailnet global = if not (per_tailnet == []) then per_tailnet else global

abbrev upper_char : ℕ → ℕ
upper_char c = if is_lower c then Prim.Native.Nat.◌-◌ c 32 else c

-- strings.ToUpper(strings.ReplaceAll(id, "-", "_")) on an ASCII text.
upper_name : Text → Text
upper_name [] = []
upper_name (c ∷ s) = (if eqb c b'-' then b'_' else upper_char c) ∷ upper_name s

unfoldable pub auth_key_env_var : Text → Text
unfolding upper_name
auth_key_env_var id = txt "HYDRASCALE_AUTHKEY_" ++ upper_name id

-- `ResolveAuthKey`; `getenv` is os.Getenv.
unfoldable pub resolve_auth_key : (Text → Text) → Text → Text → Text
resolve_auth_key getenv id config_key =
    let v = getenv (auth_key_env_var id) in if not (v == []) then v else config_key

auth_key_env_var_test : auth_key_env_var (txt "corp-prod") ≡ txt "HYDRASCALE_AUTHKEY_CORP_PROD"
unfolding auth_key_env_var
auth_key_env_var_test = refl

-- `ValidateResolverMode`; true stands for the nil error.
unfoldable pub validate_resolver_mode : Text → Bool
validate_resolver_mode mode = mode == [] || mode == txt "unified"
