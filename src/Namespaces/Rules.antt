-- ===== src/Namespaces/Rules.antt =====
-- internal/namespaces, ns.go, ipv6.go and removal.go: the nat rules of a namespace, how the daemon
-- adds and deletes them, and the plan of a removal.
pub mod Planned
use hydrascale.Common.{
  ℕ, zero, suc, ◌+◌, ◌/◌, ◌%◌, Bool, true, false, ◌||◌, not, Option, none, some, Answer, List, [],
  ◌∷◌, ◌++◌, map, Text, txt, itoa, contains, join, length, ltb, text_eq, ◌==◌, is_some,
  if◌then◌else◌, Result, ok, err, trim_suffix,
}
use hydrascale.Config.{is_valid_id}
use hydrascale.Namespaces.{
  hex_digit, namespace_name, veth_index, veth_names, veth_ips, listen_port, Blocks, VethIps,
  VethError,
}

-- %x of a number; the fuel is at least the number.
unfoldable pub hex_digits : ℕ → ℕ → Text
hex_digits zero n = hex_digit n ∷ []
hex_digits (suc fuel) n =
    let rest = hex_digits fuel (n / 16) in
    if ltb n 16 then hex_digit n ∷ [] else rest ++ hex_digit (n % 16) ∷ []

pub record VethIpv6 : Type 0 where
  pub host_ip : Text
  pub ns_ip : Text
  pub host_gateway : Text
  pub prefix : Text

-- `VethIPv6`
unfoldable pub veth_ipv6 : ℕ → VethIpv6
unfolding hex_digits
veth_ipv6 index =
    let base = txt "fd5c:9a3e:7b10:" ++ hex_digits index index ++ txt "::" in
    record {
      host_ip = base ++ txt "1/64";
      ns_ip = base ++ txt "2/64";
      host_gateway = base ++ txt "1";
      prefix = base ++ txt "/64";
    }

-- `listenForward`
unfoldable pub listen_forward : Text → ℕ → List Text
listen_forward addr port =
    txt "PREROUTING"
    ∷ txt "!"
    ∷ txt "-i"
    ∷ txt "vh+"
    ∷ txt "-m"
    ∷ txt "addrtype"
    ∷ txt "--dst-type"
    ∷ txt "LOCAL"
    ∷ txt "-p"
    ∷ txt "udp"
    ∷ txt "--dport"
    ∷ itoa port
    ∷ txt "-j"
    ∷ txt "DNAT"
    ∷ txt "--to-destination"
    ∷ (addr ++ txt ":" ++ itoa port)
    ∷ []

-- The POSTROUTING rule of a source.
abbrev pub masquerade : Text → List Text
masquerade source = txt "POSTROUTING" ∷ txt "-s" ∷ source ∷ txt "-j" ∷ txt "MASQUERADE" ∷ []

-- The rules of `EnsureForwardPath`.
unfoldable pub nat_rules : VethIps → ℕ → List (List Text)
unfolding listen_forward
nat_rules ips index =
    masquerade ips.ns_address ∷ listen_forward ips.ns_gateway (listen_port index) ∷ []

-- `natRulesIPv6`
unfoldable pub nat_rules_ipv6 : ℕ → List (List Text)
unfolding veth_ipv6 listen_forward
nat_rules_ipv6 index =
    let ips = veth_ipv6 index in
    let addr = txt "[" ++ trim_suffix ips.ns_ip (txt "/64") ++ txt "]" in
    masquerade ips.prefix ∷ listen_forward addr (listen_port index) ∷ []

-- An operation on the nat table.
abbrev pub nat : Text → List Text → List Text
nat operation rule = txt "-t" ∷ txt "nat" ∷ operation ∷ rule

abbrev pub with_tool : Text → List (List Text) → List (List Text)
with_tool tool rules = map (λ rule. tool ∷ rule) rules

-- `ruleAbsent`
unfoldable pub rule_absent : Text → Bool
rule_absent output =
    contains output (txt "does a matching rule exist")
    || contains output (txt "No chain/target/match by that name")

pub data RuleError : Type 0 where
  bad_veth : VethError → RuleError
  -- the command and its answer
  command_failed : List Text → Answer → RuleError

-- The deletes of `vethTeardownRules`.
unfoldable pub veth_deletes : Text → VethIps → ℕ → List (List Text)
unfolding listen_forward
veth_deletes host_veth ips index =
    (txt "-D" ∷ txt "FORWARD" ∷ txt "-i" ∷ host_veth ∷ txt "-j" ∷ txt "ACCEPT" ∷ [])
    ∷ (txt "-D"
        ∷ txt "FORWARD"
        ∷ txt "-o"
        ∷ host_veth
        ∷ txt "-m"
        ∷ txt "state"
        ∷ txt "--state"
        ∷ txt "RELATED,ESTABLISHED"
        ∷ txt "-j"
        ∷ txt "ACCEPT"
        ∷ [])
    ∷ nat (txt "-D") (masquerade ips.ns_address)
    ∷ nat (txt "-D") (listen_forward ips.ns_gateway (listen_port index))
    ∷ []

module _ (env : Blocks) (sha256 : Text → List ℕ) where
  -- `vethTeardownRules`.
  unfoldable pub veth_teardown_rules : Text → Text → Result VethError (List (List Text))
  unfolding veth_deletes
  veth_teardown_rules subnet ns =
      let host_veth = (veth_names sha256 ns).0 in
      let index = veth_index sha256 ns in
      elim (veth_ips env subnet index) [
        | err failure ↦ err failure
        | ok ips ↦ ok (veth_deletes host_veth ips index)
      ]

  -- `vethTeardownRulesIPv6`
  unfoldable pub veth_teardown_rules_ipv6 : Text → List (List Text)
  unfolding nat_rules_ipv6
  veth_teardown_rules_ipv6 ns = map (nat (txt "-D")) (nat_rules_ipv6 (veth_index sha256 ns))

-- The commands and their failures, where W is the host.
module _ {W : Type 0} (run : List Text → W → W × Answer) where
  -- `deleteRule`
  unfoldable pub delete_veth_rule : List Text → W → W × Option RuleError
  unfolding rule_absent
  delete_veth_rule command w =
      let (after, answer) = run command w in
      let quiet = rule_absent answer.output in
      (
        after,
        if is_some answer.failed
            then (if quiet then none else some (command_failed command answer))
            else none,
      )

  -- `ensureNATRule`
  unfoldable pub ensure_nat_rule : Text → List Text → W → W × Result RuleError Bool
  ensure_nat_rule tool rule w =
      let (checked, held) = run (tool ∷ nat (txt "-C") rule) w in
      let (after, answer) = run (tool ∷ nat (txt "-A") rule) checked in
      if is_some held.failed
      then (
        after,
        if is_some answer.failed
            then err (command_failed (tool ∷ nat (txt "-A") rule) answer)
            else ok true,
      )
      else (checked, ok false)

  -- The loop of `EnsureForwardPath` and of `EnsureIPv6Path`: the rules that it wrote, and the
  -- failure that stopped it.
  unfoldable pub ensure_rules :
      Text → Text → List (List Text) → W → W × List Text × Option RuleError
  unfolding ensure_nat_rule
  ensure_rules tool label [] w = (w, [], none)
  ensure_rules tool label (rule ∷ rules) w =
      let (after, done) = ensure_nat_rule tool rule w in
      let (last, written, failure) = ensure_rules tool label rules after in
      elim done [
        | err stopped ↦ (after, [], some stopped)
        | ok true ↦ (last, (label ++ join rule (txt " ")) ∷ written, failure)
        | ok false ↦ (last, written, failure)
      ]

  -- A row of deletes, with their failures.
  unfoldable pub delete_veth_rules : List (List Text) → W → W × List RuleError
  unfolding delete_veth_rule
  delete_veth_rules [] w = (w, [])
  delete_veth_rules (command ∷ commands) w =
      let (after, failure) = delete_veth_rule command w in
      let rest = delete_veth_rules commands after in
      (rest.0, elim failure [ none ↦ rest.1 | some e ↦ e ∷ rest.1 ])

  module _ (env : Blocks) (sha256 : Text → List ℕ) where
    -- `EnsureForwardPath`
    unfoldable pub ensure_nat_path : Text → Text → ℕ → W → W × List Text × Option RuleError
    unfolding ensure_rules nat_rules
    ensure_nat_path subnet ns index w = elim (veth_ips env subnet index) [
      | err failure ↦ (w, [], some (bad_veth failure))
      | ok ips ↦ ensure_rules (txt "iptables") (txt "nat ") (nat_rules ips index) w
    ]

    -- `teardownVethRules`
    unfoldable pub teardown_veth_rules : Text → Text → W → W × List RuleError
    unfolding veth_teardown_rules veth_teardown_rules_ipv6 delete_veth_rules
    teardown_veth_rules subnet ns w = elim (veth_teardown_rules env sha256 subnet ns) [
      | err failure ↦ (w, bad_veth failure ∷ [])
      | ok rules ↦
          delete_veth_rules
            (with_tool (txt "iptables") rules
              ++ with_tool (txt "ip6tables") (veth_teardown_rules_ipv6 env sha256 ns))
            w
    ]

    -- `TeardownVeth`, with its failures together.
    unfoldable pub teardown_veth : Text → Text → W → W × List RuleError
    unfolding teardown_veth_rules
    teardown_veth subnet ns w =
        let command = txt "ip" ∷ txt "link" ∷ txt "del" ∷ (veth_names sha256 ns).0 ∷ [] in
        let (between, failures) = teardown_veth_rules subnet ns w in
        let (after, answer) = run command between in
        (
          after,
          if is_some answer.failed
              then failures ++ command_failed command answer ∷ []
              else failures,
        )

-- The functions of path/filepath that the plan uses.
pub record FilePaths : Type 0 where
  pub join_path : List Text → Text
  pub dir : Text → Text
  pub clean : Text → Text

pub record RemovalPlan : Type 0 where
  pub namespace : Text
  pub host_veth : Text
  pub state_dir : Text
  pub rule_count : ℕ
  pub commands : List Text

pub data PlanError : Type 0 where
  refused_id : Text → PlanError
  bad_rules : VethError → PlanError

module _ (paths : FilePaths) where
  -- `SafeStateDir`; none stands for false.
  unfoldable pub safe_state_dir : Text → Text → Option Text
  safe_state_dir base id =
      let dir = paths.join_path (base ∷ id ∷ []) in
      if not (is_valid_id id)
      then none
      else if not (paths.dir dir == paths.clean base)
      then none
      else some dir

  -- The commands of the plan from the rules of the two families.
  unfoldable pub plan_commands :
      List (List Text) → List (List Text) → Text → Text → Text → List Text
  plan_commands rules rules6 host_veth ns state_dir =
      map (λ rule. txt "iptables " ++ join rule (txt " ")) rules
      ++ (map (λ rule. txt "ip6tables " ++ join rule (txt " ")) rules6
          ++ (txt "ip link del " ++ host_veth)
            ∷ (txt "ip netns del " ++ ns)
            ∷ (txt "rm -f " ++ paths.join_path (txt "/etc/netns" ∷ ns ∷ txt "resolv.conf" ∷ []))
            ∷ (txt "rm -rf " ++ state_dir)
            ∷ [])

  module _ (env : Blocks) (sha256 : Text → List ℕ) where
    -- `PlanRemoval`
    unfoldable pub plan_removal : Text → Text → Text → Result PlanError RemovalPlan
    unfolding safe_state_dir plan_commands
    plan_removal id subnet state_base =
        let ns = namespace_name id in
        let host_veth = (veth_names sha256 ns).0 in
        let rules6 = veth_teardown_rules_ipv6 env sha256 ns in
        elim (safe_state_dir state_base id) [
          | none ↦ err (refused_id id)
          | some state_dir ↦ elim (veth_teardown_rules env sha256 subnet ns) [
            | err failure ↦ err (bad_rules failure)
            | ok rules ↦ ok (record {
              namespace = ns;
              host_veth = host_veth;
              state_dir = state_dir;
              rule_count = length rules + length rules6;
              commands = plan_commands rules rules6 host_veth ns state_dir;
            })
          ]
        ]
