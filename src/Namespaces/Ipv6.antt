-- ===== src/Namespaces/Ipv6.antt =====
-- internal/namespaces/ipv6.go: what the daemon reads of the IPv6 of the host, the forwarding keys
-- that it sets, and the IPv6 path of a namespace.
pub mod Undone
use hydrascale.Common.{
  ℕ, Bool, true, false, not, ◌||◌, Option, none, some, Answer, List, [], ◌∷◌, ◌++◌, Text, txt,
  text_eq, ◌==◌, eqb, ltb, mem, map, length, is_some, if◌then◌else◌, Result, ok, err, contains,
  fields, join, trim_space, trim_suffix, has_prefix, split_on, before_mark,
}
use hydrascale.Namespaces.{veth_names}
use hydrascale.Namespaces.Rules.{RuleError, command_failed, veth_ipv6, nat_rules_ipv6, ensure_rules}
use hydrascale.Reconciler.Env.{Ipv6Host}

-- The devices that the words of a line name after `dev`, after those found before.
unfoldable pub devices_in : List Text → List Text → List Text
devices_in (word ∷ next ∷ more) devices = devices_in (next ∷ more) (
    if word == txt "dev"
    then (if mem next devices then devices else devices ++ next ∷ [])
    else devices)
devices_in (word ∷ []) devices = devices
devices_in [] devices = devices

unfoldable pub route_devices : List Text → List Text → List Text
unfolding devices_in
route_devices [] devices = devices
route_devices (line ∷ lines) devices = route_devices lines (devices_in (fields line) devices)

-- `parseRouteDevices`
unfoldable pub parse_route_devices : Text → List Text
unfolding route_devices
parse_route_devices output = route_devices (split_on 10 output) []

-- The prefix of an address line; `network_of` is net.ParseCIDR with the text of the network.
unfoldable pub prefix_in : (Text → Option Text) → List Text → Option Text
prefix_in network_of (number ∷ device ∷ family ∷ address ∷ more) =
    if not (family == txt "inet6") || has_prefix device (txt "vh") then none else network_of address
prefix_in network_of _ = none

unfoldable pub host_prefixes : (Text → Option Text) → List Text → List Text → List Text
unfolding prefix_in
host_prefixes network_of [] prefixes = prefixes
host_prefixes network_of (line ∷ lines) prefixes =
    host_prefixes network_of lines (elim (prefix_in network_of (fields line)) [
      | none ↦ prefixes
      | some prefix ↦ if mem prefix prefixes then prefixes else prefixes ++ prefix ∷ []
    ])

-- `parseHostPrefixes`
unfoldable pub parse_host_prefixes : (Text → Option Text) → Text → List Text
unfolding host_prefixes
parse_host_prefixes network_of output = host_prefixes network_of (split_on 10 output) []

-- `sysctlDevice`
unfoldable pub sysctl_device : Text → Text
sysctl_device device = map (λ c. if eqb c 46 then 47 else c) device

-- `parseLinkNames`
unfoldable pub link_names : List Text → List Text
link_names [] = []
link_names (line ∷ lines) =
    let rest = link_names lines in
    elim (fields line) [
      | number ∷ name ∷ more ↦ before_mark 64 (trim_suffix name (txt ":")) ∷ rest
      | _ ↦ rest
    ]

unfoldable pub parse_link_names : Text → List Text
unfolding link_names
parse_link_names output = link_names (split_on 10 output)

abbrev pub ipv6_key : Text → Text → Text
unfolding sysctl_device
ipv6_key device key = txt "net.ipv6.conf." ++ sysctl_device device ++ key

abbrev pub read_key : Text → List Text
read_key key = txt "sysctl" ∷ txt "-n" ∷ key ∷ []

abbrev pub write_key : Text → Text → List Text
write_key key value = txt "sysctl" ∷ txt "-w" ∷ (key ++ txt "=" ++ value) ∷ []

module _ {W : Type 0} (run : List Text → W → W × Answer) where
  -- `EnableForceForwarding`: the devices that it changed, and the failure that stopped it.
  unfoldable pub enable_force_forwarding : List Text → W → W × List Text × Option RuleError
  unfolding sysctl_device
  enable_force_forwarding [] w = (w, [], none)
  enable_force_forwarding (device ∷ upstreams) w =
      let key = ipv6_key device (txt ".force_forwarding") in
      let (checked, held) = run (read_key key) w in
      let (set, answer) = run (write_key key (txt "1")) checked in
      let next = enable_force_forwarding upstreams checked in
      let (last, changed, failure) = enable_force_forwarding upstreams set in
      if is_some held.failed
      then (checked, [], some (command_failed (read_key key) held))
      else if trim_space held.output == txt "1"
      then next
      else if is_some answer.failed
      then (set, [], some (command_failed (write_key key (txt "1")) answer))
      else (last, device ∷ changed, failure)

  -- `DisableForceForwarding`, with its failures together.
  unfoldable pub disable_force_forwarding : List Text → W → W × List RuleError
  unfolding sysctl_device
  disable_force_forwarding [] w = (w, [])
  disable_force_forwarding (device ∷ upstreams) w =
      let command = write_key (ipv6_key device (txt ".force_forwarding")) (txt "0") in
      let (set, answer) = run command w in
      let (last, failures) = disable_force_forwarding upstreams set in
      (
        last,
        if is_some answer.failed
            then (if contains answer.output (txt "No such file or directory")
                then failures
                else command_failed command answer ∷ failures)
            else failures,
      )

  -- The loop of `EnableAllForwarding` over the devices.
  unfoldable pub accept_advertisements : List Text → W → W × List Text × Option RuleError
  unfolding sysctl_device
  accept_advertisements [] w = (w, [], none)
  accept_advertisements (device ∷ devices) w =
      let key = ipv6_key device (txt ".accept_ra") in
      let (checked, held) = run (read_key key) w in
      let (set, answer) = run (write_key key (txt "2")) checked in
      let next = accept_advertisements devices checked in
      let (last, changed, failure) = accept_advertisements devices set in
      if is_some held.failed || not (trim_space held.output == txt "1")
      then next
      else if is_some answer.failed
      then (set, [], some (command_failed (write_key key (txt "2")) answer))
      else (last, device ∷ changed, failure)

  -- `EnableAllForwarding`
  unfoldable pub enable_all_forwarding : W → W × List Text × Option RuleError
  unfolding accept_advertisements parse_link_names
  enable_all_forwarding w =
      let list = txt "ip" ∷ txt "-o" ∷ txt "link" ∷ txt "show" ∷ [] in
      let all = write_key (txt "net.ipv6.conf.all.forwarding") (txt "1") in
      let (listed, links) = run list w in
      let (between, changed, failure) =
        accept_advertisements (parse_link_names links.output) listed in
      let (last, answer) = run all between in
      if is_some links.failed
      then (listed, [], some (command_failed list links))
      else if is_some failure
      then (between, changed, failure)
      else (last, changed, if is_some answer.failed then some (command_failed all answer) else none)

  -- A row of commands up to the first failure.
  unfoldable pub run_steps : List (List Text) → W → W × Option RuleError
  run_steps [] w = (w, none)
  run_steps (step ∷ steps) w =
      let (after, answer) = run step w in
      let rest = run_steps steps after in
      if is_some answer.failed then (after, some (command_failed step answer)) else rest

  -- `EnsureIPv6Path`
  unfoldable pub ensure_ipv6_path :
      (Text → List ℕ) → Text → ℕ → Bool → W → W × List Text × Option RuleError
  unfolding run_steps ensure_rules nat_rules_ipv6 veth_ipv6 sysctl_device
  ensure_ipv6_path sha256 ns index force w =
      let host_veth = (veth_names sha256 ns).0 in
      let ns_veth = (veth_names sha256 ns).1 in
      let ips = veth_ipv6 index in
      let steps =
        (txt "ip"
          ∷ txt "-6"
          ∷ txt "addr"
          ∷ txt "replace"
          ∷ ips.host_ip
          ∷ txt "dev"
          ∷ host_veth
          ∷ txt "nodad"
          ∷ [])
        ∷ (txt "ip"
            ∷ txt "netns"
            ∷ txt "exec"
            ∷ ns
            ∷ txt "ip"
            ∷ txt "-6"
            ∷ txt "addr"
            ∷ txt "replace"
            ∷ ips.ns_ip
            ∷ txt "dev"
            ∷ ns_veth
            ∷ txt "nodad"
            ∷ [])
        ∷ (txt "ip"
            ∷ txt "netns"
            ∷ txt "exec"
            ∷ ns
            ∷ txt "ip"
            ∷ txt "-6"
            ∷ txt "route"
            ∷ txt "replace"
            ∷ txt "default"
            ∷ txt "via"
            ∷ ips.host_gateway
            ∷ txt "dev"
            ∷ ns_veth
            ∷ [])
        ∷ (if force
            then write_key (ipv6_key host_veth (txt ".force_forwarding")) (txt "1") ∷ []
            else []) in
      let (ready, failure) = run_steps steps w in
      elim failure [
        | some stopped ↦ (ready, [], some stopped)
        | none ↦ ensure_rules run (txt "ip6tables") (txt "ip6 nat ") (nat_rules_ipv6 index) ready
      ]

  -- `ReadIPv6Host`
  unfoldable pub read_ipv6_host : (Text → Option Text) → W → W × Result RuleError Ipv6Host
  unfolding parse_route_devices parse_host_prefixes
  read_ipv6_host network_of w =
      let show_routes = txt "ip" ∷ txt "-6" ∷ txt "route" ∷ txt "show" ∷ txt "default" ∷ [] in
      let show_addresses =
        txt "ip"
        ∷ txt "-6"
        ∷ txt "-o"
        ∷ txt "addr"
        ∷ txt "show"
        ∷ txt "scope"
        ∷ txt "global"
        ∷ [] in
      let all = read_key (txt "net.ipv6.conf.all.forwarding") in
      let (w1, routes) = run show_routes w in
      let (w2, addresses) = run show_addresses w1 in
      let (w3, forced) = run (read_key (txt "net.ipv6.conf.all.force_forwarding")) w2 in
      let (w4, forwards) = run all w3 in
      if is_some routes.failed
      then (w1, err (command_failed show_routes routes))
      else if is_some addresses.failed
      then (w2, err (command_failed show_addresses addresses))
      else if is_some forwards.failed
      then (w4, err (command_failed all forwards))
      else (
        w4,
        ok (record {
          upstreams = parse_route_devices routes.output;
          prefixes = parse_host_prefixes network_of addresses.output;
          force_forwarding = not (is_some forced.failed);
          forwarding = trim_space forwards.output == txt "1";
        }),
      )
