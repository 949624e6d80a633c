-- ===== src/Namespaces/Reap.antt =====
-- internal/namespaces/ns.go: the rules that outlive a namespace or a version, the removal of them,
-- and the published rules of a namespace.
use hydrascale.Common.{
  ℕ, suc, Bool, true, false, not, ◌&&◌, ◌||◌, Option, none, some, Answer, List, [], ◌∷◌, ◌++◌, Text,
  txt, itoa, text_eq, ◌==◌, leb, eqb, mem, length, all, any, is_some, is_digit, if◌then◌else◌,
  Result, ok, err, fields, trim_space, split_on, drop, has_prefix,
}
use hydrascale.Access.Ports.{PublishedPort}
use hydrascale.Namespaces.Rules.{RuleError, command_failed, delete_veth_rule, nat}
use hydrascale.Namespaces.Ipv6.{parse_link_names}

abbrev is_hex : ℕ → Bool
is_hex c = is_digit c || leb 97 c && leb c 102

-- `hostVethPattern`
unfoldable pub is_host_veth : Text → Bool
is_host_veth device =
    has_prefix device (txt "vh") && eqb (length device) 14 && all is_hex (drop 2 device)

-- `namesAMissingDevice`
unfoldable pub names_a_missing_device : List Text → List Text → Bool
unfolding is_host_veth
names_a_missing_device (flag ∷ device ∷ more) live =
    let later = names_a_missing_device (device ∷ more) live in
    (flag == txt "-i" || flag == txt "-o") && is_host_veth device && not (mem device live) || later
names_a_missing_device _ live = false

-- The comparison of a rule with a form, word by word.
unfoldable pub same_words : List Text → List Text → Bool
same_words [] [] = true
same_words [] (b ∷ bs) = false
same_words (a ∷ more) [] = false
same_words (a ∷ more) (b ∷ bs) = let rest = same_words more bs in a == b && rest

-- `legacyRuleForms`: the flag of each form and the words after the device.
abbrev pub legacy_rule_forms : List (Text × List Text)
legacy_rule_forms =
    (txt "-i", txt "-j" ∷ txt "ACCEPT" ∷ [])
    ∷ (
      txt "-o",
      txt "-m"
          ∷ txt "state"
          ∷ txt "--state"
          ∷ txt "RELATED,ESTABLISHED"
          ∷ txt "-j"
          ∷ txt "ACCEPT"
          ∷ [],
    )
    ∷ []

-- `isLegacyForwardRule`
unfoldable pub is_legacy_forward_rule : List Text → Bool
unfolding is_host_veth same_words
is_legacy_forward_rule (flag ∷ device ∷ rule) =
    any (λ form. flag == form.0 && is_host_veth device && same_words rule form.1) legacy_rule_forms
is_legacy_forward_rule _ = false

-- `hasPair`
unfoldable pub has_pair : List Text → Text → Text → Bool
has_pair (field ∷ next ∷ more) flag value =
    let later = has_pair (next ∷ more) flag value in field == flag && next == value || later
has_pair _ flag value = false

-- `publishedRule`
unfoldable pub published_rule : PublishedPort → Text → List Text
published_rule p host =
    let port = itoa p.number in
    txt "PREROUTING"
    ∷ txt "-i"
    ∷ txt "tailscale0"
    ∷ txt "-p"
    ∷ p.protocol
    ∷ txt "-m"
    ∷ p.protocol
    ∷ txt "--dport"
    ∷ port
    ∷ txt "-j"
    ∷ txt "DNAT"
    ∷ txt "--to-destination"
    ∷ (host ++ txt ":" ++ port)
    ∷ []

-- `nsNatArgs`
unfoldable pub ns_nat_args : Text → Text → Text → List Text → List Text
ns_nat_args ns command operation rule = txt "netns" ∷ txt "exec" ∷ ns ∷ command ∷ nat operation rule

-- The arguments of a FORWARD rule in a listing, from the third word on.
unfoldable pub forward_rule : List Text → Option (List Text)
forward_rule (operation ∷ chain ∷ word ∷ more) =
    if operation == txt "-A" && chain == txt "FORWARD" then some (word ∷ more) else none
forward_rule _ = none

-- The published rule of a line of a listing, from the chain name on.
unfoldable pub published_rule_in : List Text → Option (List Text)
unfolding has_pair
published_rule_in (operation ∷ chain ∷ more) =
    if operation == txt "-A"
      && chain == txt "PREROUTING"
      && has_pair (operation ∷ chain ∷ more) (txt "-i") (txt "tailscale0")
      && has_pair (operation ∷ chain ∷ more) (txt "-j") (txt "DNAT")
    then some (chain ∷ more)
    else none
published_rule_in _ = none

unfoldable pub published_in : List Text → List (List Text)
unfolding published_rule_in
published_in [] = []
published_in (line ∷ lines) =
    let rest = published_in lines in
    elim (published_rule_in (fields line)) [ none ↦ rest | some rule ↦ rule ∷ rest ]

module _ {W : Type 0} (run : List Text → W → W × Answer) where
  -- The loop of the two removals: the number of rules that went, and the failures.
  unfoldable pub remove_rules : (List Text → Bool) → List Text → W → W × ℕ × List RuleError
  unfolding forward_rule delete_veth_rule
  remove_rules stale [] w = (w, 0, [])
  remove_rules stale (line ∷ lines) w =
      let skipped = remove_rules stale lines w in
      elim (forward_rule (fields line)) [
        | none ↦ skipped
        | some rule ↦
            let (after, failure) =
              delete_veth_rule run (txt "iptables" ∷ txt "-D" ∷ txt "FORWARD" ∷ rule) w in
            let (last, removed, failures) = remove_rules stale lines after in
            if not (stale rule) then skipped else elim failure [
              | none ↦ (last, suc removed, failures)
              | some e ↦ (last, removed, e ∷ failures)
            ]
      ]

  abbrev list_links : List Text
  list_links = txt "ip" ∷ txt "-o" ∷ txt "link" ∷ txt "show" ∷ []

  abbrev list_forward : List Text
  list_forward = txt "iptables" ∷ txt "-S" ∷ txt "FORWARD" ∷ []

  -- `liveDevices`
  unfoldable pub live_devices : W → W × Result RuleError (List Text)
  unfolding parse_link_names
  live_devices w =
      let (after, answer) = run list_links w in
      (
        after,
        if is_some answer.failed
            then err (command_failed list_links answer)
            else ok (parse_link_names answer.output),
      )

  -- A listing of FORWARD and the removal of the rules that a test names.
  unfoldable pub remove_listed : (List Text → Bool) → W → W × ℕ × List RuleError
  unfolding remove_rules
  remove_listed stale w =
      let (listed, answer) = run list_forward w in
      let done = remove_rules stale (split_on 10 answer.output) listed in
      if is_some answer.failed then (listed, 0, command_failed list_forward answer ∷ []) else done

  -- `ReapStaleRules`
  unfoldable pub reap_forward_rules : W → W × ℕ × List RuleError
  unfolding live_devices remove_listed names_a_missing_device
  reap_forward_rules w =
      let (listed, live) = live_devices w in
      elim live [
        | err failure ↦ (listed, 0, failure ∷ [])
        | ok devices ↦
            remove_listed (λ rule. names_a_missing_device (txt "-A" ∷ txt "FORWARD" ∷ rule) devices)
              listed
      ]

  -- `RemoveLegacyForwardRules`
  unfoldable pub remove_old_form_rules : W → W × ℕ × List RuleError
  unfolding remove_listed is_legacy_forward_rule
  remove_old_form_rules = remove_listed is_legacy_forward_rule

  -- `NamespaceForwarding`
  unfoldable pub namespace_forwarding : Text → W → W × Result RuleError Text
  namespace_forwarding ns w =
      let command =
        txt "ip"
        ∷ txt "netns"
        ∷ txt "exec"
        ∷ ns
        ∷ txt "sysctl"
        ∷ txt "-n"
        ∷ txt "net.ipv4.ip_forward"
        ∷ [] in
      let (after, answer) = run command w in
      (
        after,
        if is_some answer.failed
            then err (command_failed command answer)
            else ok (trim_space answer.output),
      )

  -- `publishedRules`
  unfoldable pub published_rules : Text → Text → W → W × Result RuleError (List (List Text))
  unfolding published_in ns_nat_args
  published_rules ns command w =
      let args = txt "ip" ∷ ns_nat_args ns command (txt "-S") (txt "PREROUTING" ∷ []) in
      let (after, answer) = run args w in
      (
        after,
        if is_some answer.failed
            then err (command_failed args answer)
            else ok (published_in (split_on 10 answer.output)),
      )
