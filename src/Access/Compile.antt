-- ===== src/Access/Compile.antt =====
-- internal/access/compile.go: the compiler from a rule set to iptables argument lists.
pub mod Meaning
pub mod Rules
pub mod Family
pub mod Verdicts
pub mod Ipv6
pub mod HostRanges
pub mod Totality
pub mod Covers
pub mod Guard
use Prim.Native.Nat.{bit_or}
use hydrascale.Common.{
  ℕ, ◌-◌, Bool, true, false, Option, none, some, List, [], ◌∷◌, ◌++◌, map, Text, txt, text_eq, ◌==◌,
  text_leb, itoa, if◌then◌else◌, Map, lookup, keys, or_default, Result, ok, err, ◌>>=◌, ◌>>◌, ◌||◌,
}
use hydrascale.Access.Ports.{Port, PortError, parse_port, match, tcp, udp}
use hydrascale.Access.Rules.{
  Rule, RuleSet, SetFailure, validate, host, internet, mode_enforce, mode_observe,
}

-- One argument list of iptables, and a list of them.
abbrev pub Args : Type 0
Args = List Text

abbrev pub chain_forward : Text
chain_forward = txt "HYDRASCALE-FWD"

abbrev pub chain_out : Text
chain_out = txt "HYDRASCALE-OUT"

abbrev pub any_device : Text
any_device = txt "vh+"

abbrev pub Tail : Type 0
Tail = List Args

abbrev pub accept_args : Args
accept_args = txt "-j" ∷ txt "ACCEPT" ∷ []

abbrev pub enforce_tail : Tail
enforce_tail = (txt "-j" ∷ txt "DROP" ∷ []) ∷ []

abbrev pub log_args : Args
log_args =
    txt "-m"
    ∷ txt "limit"
    ∷ txt "--limit"
    ∷ txt "60/minute"
    ∷ txt "-j"
    ∷ txt "LOG"
    ∷ txt "--log-prefix"
    ∷ txt "hydrascale-would-deny: "
    ∷ []

abbrev pub observe_tail : Tail
observe_tail = log_args ∷ accept_args ∷ []

pub data CompileError : Type 0 where
  invalid_set : List SetFailure → CompileError
  bad_mode bad_dns_address bad_prefix : Text → CompileError
  no_device : Rule → Text → CompileError

unfoldable pub tail_for_mode : Text → Result CompileError Tail
tail_for_mode mode =
    if mode == [] || mode == mode_enforce
    then ok enforce_tail
    else if mode == mode_observe
    then ok observe_tail
    else err (bad_mode mode)

pub record Topology : Type 0 where
  pub devices : Map Text Text
  pub dns_address : Text
  pub ports : Map Text ℕ

pub record TopologyIpv6 : Type 0 where
  pub devices : Map Text Text
  pub ports : Map Text ℕ
  pub host_prefixes : List Text
  pub guarded_upstreams : List Text

pub record Compiled : Type 0 where
  pub guard : List Args
  pub forward : List Args
  pub out : List Args

abbrev pub private_ranges : List Text
private_ranges =
    txt "10.0.0.0-10.255.255.255"
    ∷ txt "172.16.0.0-172.31.255.255"
    ∷ txt "192.168.0.0-192.168.255.255"
    ∷ txt "169.254.0.0-169.254.255.255"
    ∷ txt "127.0.0.0-127.255.255.255"
    ∷ []

abbrev pub private_ranges_ipv6 : List Text
private_ranges_ipv6 =
    txt "fc00::-fdff:ffff:ffff:ffff:ffff:ffff:ffff:ffff"
    ∷ txt "fe80::-febf:ffff:ffff:ffff:ffff:ffff:ffff:ffff"
    ∷ txt "::1-::1"
    ∷ []

unfoldable pub exclude_ranges : List Text → Args
exclude_ranges [] = []
exclude_ranges (r ∷ rs) =
    txt "-m" ∷ txt "iprange" ∷ txt "!" ∷ txt "--dst-range" ∷ r ∷ exclude_ranges rs

abbrev pub established_match : Args
established_match =
    txt "-m" ∷ txt "conntrack" ∷ txt "--ctstate" ∷ txt "RELATED,ESTABLISHED" ∷ accept_args

-- The parts of the package `net` of Go that the compiler calls.
pub record Net : Type 0 where
  pub split_host_port : Text → Option (Text × Text)
  -- the bytes of the network address and of the mask
  pub parse_cidr : Text → Option (List ℕ × List ℕ)
  pub ip_string : List ℕ → Text

-- `last[i] = ipnet.IP[i] | ^ipnet.Mask[i]`
last_address : List ℕ → List ℕ → List ℕ
last_address [] mask = []
last_address (a ∷ ip) [] = []
last_address (a ∷ ip) (m ∷ mask) = bit_or a (255 - m) ∷ last_address ip mask

unfoldable pub prefix_range : Net → Text → Result CompileError Text
unfolding last_address
prefix_range net prefix = elim (net.parse_cidr prefix) [
  | none ↦ err (bad_prefix prefix)
  | some (ip, mask) ↦ ok (net.ip_string ip ++ (txt "-" ++ net.ip_string (last_address ip mask)))
]

insert_id : Text → List Text → List Text
insert_id a [] = a ∷ []
insert_id a (b ∷ bs) = let rest = insert_id a bs in if text_leb a b then a ∷ b ∷ bs else b ∷ rest

-- sort.Strings
unfoldable pub sort_texts : List Text → List Text
unfolding insert_id
sort_texts [] = []
sort_texts (a ∷ as') = insert_id a (sort_texts as')

unfoldable pub sorted_ids : Map Text Text → List Text
unfolding sort_texts
sorted_ids devices = sort_texts (keys devices)

unfoldable pub append_rule : Text → Args → Args
append_rule chain args = txt "-A" ∷ chain ∷ args

-- `devices[id]`, which is empty for an absent key.
abbrev pub device_of : Map Text Text → Text → Text
device_of devices id = or_default (lookup id devices) []

listen_args : Map Text Text → Text → ℕ → Args
listen_args devices id port =
    txt "-o"
    ∷ device_of devices id
    ∷ txt "-p"
    ∷ udp
    ∷ txt "--dport"
    ∷ itoa port
    ∷ txt "-m"
    ∷ txt "conntrack"
    ∷ txt "--ctstate"
    ∷ txt "DNAT"
    ∷ accept_args

unfoldable pub listen_accepts : List Text → Map Text Text → Map Text ℕ → List Args
unfolding listen_args append_rule
listen_accepts [] devices ports = []
listen_accepts (id ∷ ids) devices ports = elim (lookup id ports) [
  | none ↦ listen_accepts ids devices ports
  | some port ↦
      append_rule chain_forward (listen_args devices id port) ∷ listen_accepts ids devices ports
]

-- The chain and the match of one rule; the chain is empty for a source that is the host.
unfoldable pub compile_rule : Rule → Map Text Text → List Text → Result CompileError (Text × Args)
compile_rule r devices private =
    if r.from == host then ok ([], []) else elim (lookup r.from devices) [
      | none ↦ err (no_device r r.from)
      | some source ↦
          if r.to == host
          then ok (chain_out, txt "-i" ∷ source ∷ [])
          else if r.to == internet
          then ok (
            chain_forward,
            txt "-i" ∷ source ∷ txt "!" ∷ txt "-o" ∷ any_device ∷ exclude_ranges private,
          )
          else elim (lookup r.to devices) [
            | none ↦ err (no_device r r.to)
            | some destination ↦ ok (chain_forward, txt "-i" ∷ source ∷ txt "-o" ∷ destination ∷ [])
          ]
    ]

-- `p, _ := parsePort(entry)`: the zero port where the parse fails.
abbrev port_or_zero : Result PortError Port → Port
port_or_zero (ok p) = p
port_or_zero (err e) = record { protocol = []; low = 0; high = 0 }

with_each_port : Args → List Text → List Args
with_each_port args [] = []
with_each_port args (entry ∷ ports) =
    (args ++ match (port_or_zero (parse_port entry))) ∷ with_each_port args ports

unfoldable pub with_ports : Args → List Text → List Args
unfolding with_each_port
with_ports args [] = args ∷ []
with_ports args (entry ∷ ports) = with_each_port args (entry ∷ ports)

-- The forward rules and the out rules so far.
abbrev pub Chains : Type 0
Chains = List Args × List Args

-- The inner loop of `compile`: one accept rule for each match.
add_matches : Text → List Args → Chains → Chains
add_matches chain [] c = c
add_matches chain (args ∷ more) (forward, out) =
    let rule = append_rule chain (args ++ accept_args) in
    add_matches chain more
      (if chain == chain_forward then (forward ++ rule ∷ [], out) else (forward, out ++ rule ∷ []))

-- The outer loop of `compile`.
pub compile_rules : List Rule → Map Text Text → List Text → Chains → Result CompileError Chains
compile_rules [] devices private c = ok c
compile_rules (r ∷ rs) devices private c = do
  (chain, args) ← compile_rule r devices private
  compile_rules rs devices private
      (if chain == [] then c else add_matches chain (with_ports args r.ports) c)

-- The closing rules of the out chain, for one namespace device.
close_device : Text → Tail → List Args
close_device device tail = map (λ closing. append_rule chain_out (txt "-i" ∷ device ∷ closing)) tail

pub close_out : List Text → Map Text Text → Tail → List Args
unfolding close_device
close_out [] devices tail = []
close_out (id ∷ ids) devices tail =
    close_device (device_of devices id) tail ++ close_out ids devices tail

closed : List Text → Map Text Text → Tail → Chains → Compiled
unfolding close_out
closed ids devices tail (forward, out) = record {
  guard = [];
  forward = forward ++ map (append_rule chain_forward) tail;
  out = out ++ close_out ids devices tail;
}

-- `compile`, for one address family.
unfoldable pub compile_family :
    RuleSet
    → List Text
    → Map Text Text
    → List Args
    → List Args
    → List Text
    → Tail
    → Result CompileError Compiled
unfolding compile_rules add_matches closed
compile_family set ids devices listen open_rules private tail = do
  c ← compile_rules set.rules devices private (
    append_rule chain_forward established_match ∷ listen,
    append_rule chain_out established_match ∷ open_rules,
  )
  ok (closed ids devices tail c)

dns_args : Text → Text → Text → Text → Args
dns_args device dns_host dns_port protocol =
    txt "-i"
    ∷ device
    ∷ txt "-d"
    ∷ dns_host
    ∷ txt "-p"
    ∷ protocol
    ∷ txt "--dport"
    ∷ dns_port
    ∷ accept_args

pub dns_rules : List Text → Map Text Text → Text → Text → List Args
unfolding dns_args append_rule
dns_rules [] devices dns_host dns_port = []
dns_rules (id ∷ ids) devices dns_host dns_port =
    append_rule chain_out (dns_args (device_of devices id) dns_host dns_port udp)
    ∷ append_rule chain_out (dns_args (device_of devices id) dns_host dns_port tcp)
    ∷ dns_rules ids devices dns_host dns_port

-- `Validate` as a step that fails with its failures.
abbrev pub valid_or_fail : List SetFailure → Result CompileError (Unit {0})
valid_or_fail [] = ok tt
valid_or_fail (e ∷ es) = err (invalid_set (e ∷ es))

abbrev split_or_fail : Option (Text × Text) → Text → Result CompileError (Text × Text)
split_or_fail none address = err (bad_dns_address address)
split_or_fail (some parts) address = ok parts

unfoldable pub compile : Net → RuleSet → Topology → Tail → Result CompileError Compiled
unfolding dns_rules
compile net set topo tail = do
  let ids = sorted_ids topo.devices
  valid_or_fail (validate set ids)
  (dns_host, dns_port) ← split_or_fail (net.split_host_port topo.dns_address) topo.dns_address
  compile_family set ids topo.devices (listen_accepts ids topo.devices topo.ports)
      (dns_rules ids topo.devices dns_host dns_port) private_ranges tail

abbrev neighbour_kinds : List Text
neighbour_kinds = txt "neighbour-solicitation" ∷ txt "neighbour-advertisement" ∷ []

pub icmp_args : Text → Text → Args
icmp_args device kind =
    txt "-i" ∷ device ∷ txt "-p" ∷ txt "ipv6-icmp" ∷ txt "--icmpv6-type" ∷ kind ∷ accept_args

pub neighbour_rules : List Text → Map Text Text → List Args
unfolding icmp_args append_rule
neighbour_rules [] devices = []
neighbour_rules (id ∷ ids) devices =
    map (λ kind. append_rule chain_out (icmp_args (device_of devices id) kind)) neighbour_kinds
    ++ neighbour_rules ids devices

unfoldable pub host_ranges : Net → List Text → Result CompileError (List Text)
host_ranges net [] = ok []
host_ranges net (prefix ∷ prefixes) = do
  r ← prefix_range net prefix
  rs ← host_ranges net prefixes
  ok (r ∷ rs)

pub guard_rule : Text → Args
unfolding append_rule
guard_rule upstream =
    append_rule chain_forward
      (txt "-i" ∷ upstream ∷ txt "!" ∷ txt "-o" ∷ any_device ∷ txt "-j" ∷ txt "DROP" ∷ [])

-- `CompileIPv6`.
unfoldable pub compile_ipv6 : Net → RuleSet → TopologyIpv6 → Tail → Result CompileError Compiled
unfolding neighbour_rules host_ranges guard_rule
compile_ipv6 net set topo tail = do
  let ids = sorted_ids topo.devices
  valid_or_fail (validate set ids)
  extra ← host_ranges net topo.host_prefixes
  c ←
      compile_family set ids topo.devices (listen_accepts ids topo.devices topo.ports)
        (neighbour_rules ids topo.devices) (private_ranges_ipv6 ++ extra) tail
  ok (record c { guard = c.guard ++ map guard_rule topo.guarded_upstreams })
