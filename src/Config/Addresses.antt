-- ===== src/Config/Addresses.antt =====
-- internal/config/config.go and internal/config/console.go: the checks of an address and of a URL.
use hydrascale.Common.{
  ℕ, Bool, false, not, ◌&&◌, ◌||◌, Option, none, some, [], ◌∷◌, Text, txt, text_eq, ◌==◌, eqb,
  if◌then◌else◌,
}
use hydrascale.Config.{ℤ, Config}

-- The parsers of the Go library that the checks call: net.SplitHostPort, net.ParseIP with
-- IP.IsLoopback, url.Parse as scheme and host, time.ParseDuration in nanoseconds, and
-- net.ParseCIDR, which answers whether IP.To4 gives an address, and the two numbers of Mask.Size.
pub record Parsers : Type 1 where
  pub Ip : Type 0
  pub split_host_port : Text → Option (Text × Text)
  pub parse_ip : Text → Option Ip
  pub is_loopback : Ip → Bool
  pub parse_url : Text → Option (Text × Text)
  pub parse_duration : Text → Option ℤ
  pub parse_cidr : Text → Option (Bool × ℕ × ℕ)

pub data AddressError : Type 0 where
  address_required : AddressError
  bad_address no_port no_loopback : Text → AddressError

pub data UrlError : Type 0 where
  bad_url no_https no_host : Text → UrlError

-- The nil test and IsLoopback on what net.ParseIP answers.
unfoldable pub is_loopback_ip : Parsers → Text → Bool
is_loopback_ip env host = elim (env.parse_ip host) [ none ↦ false | some ip ↦ env.is_loopback ip ]

-- `ValidateBindAddress`; `none` is the nil error.
unfoldable pub validate_bind_address : Parsers → Text → Option AddressError
validate_bind_address env addr = if addr == [] then none else elim (env.split_host_port addr) [
  | none ↦ some (bad_address addr)
  | some (host, port) ↦ if is_loopback_ip env host then none else some (no_loopback host)
]

-- `ValidateConsoleBindAddress`.
unfoldable pub validate_console_bind_address : Parsers → Text → Option AddressError
validate_console_bind_address env addr =
    if addr == [] then some address_required else elim (env.split_host_port addr) [
      | none ↦ some (bad_address addr)
      | some (host, port) ↦
          if port == []
          then some (no_port addr)
          else if is_loopback_ip env host
          then none
          else some (no_loopback addr)
    ]

abbrev default_console_bind_address : Text
default_console_bind_address = txt "127.0.0.1:9443"

-- `Config.ConsoleBindAddress`.
unfoldable pub console_bind_address_of : Config → Text
console_bind_address_of c =
    if c.console_bind_address == [] then default_console_bind_address else c.console_bind_address

is_bracket : ℕ → Bool
is_bracket c = eqb c b'[' || eqb c b']'

trim_left : Text → Text
unfolding is_bracket
trim_left [] = []
trim_left (c ∷ s) = let rest = trim_left s in if is_bracket c then rest else c ∷ s

trim_right : Text → Text
unfolding is_bracket
trim_right [] = []
trim_right (c ∷ s) = let rest = trim_right s in if rest == [] && is_bracket c then [] else c ∷ rest

-- strings.Trim(host, "[]")
unfoldable pub trim_brackets : Text → Text
unfolding trim_left trim_right
trim_brackets s = trim_right (trim_left s)

-- `isLoopbackHost`.
unfoldable pub is_loopback_host : Parsers → Text → Bool
is_loopback_host env host =
    if host == []
    then false
    else is_loopback_ip env
        (elim (env.split_host_port host) [ some (h, port) ↦ h | none ↦ trim_brackets host ])

-- `ValidateControlURL`.
unfoldable pub validate_control_url : Parsers → Text → Option UrlError
validate_control_url env raw = if raw == [] then none else elim (env.parse_url raw) [
  | none ↦ some (bad_url raw)
  | some (scheme, host) ↦
      if scheme == txt "http" && is_loopback_host env host
      then none
      else if not (scheme == txt "https")
      then some (no_https raw)
      else if host == []
      then some (no_host raw)
      else none
]
