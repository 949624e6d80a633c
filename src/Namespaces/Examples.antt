-- ===== src/Namespaces/Examples.antt =====
-- The theorems on internal/namespaces at a concrete block.
use hydrascale.Common.{drop}
use hydrascale.Common.{has_prefix}
use hydrascale.Common.{Option, Bool, none, ◌++◌, trim_suffix}
use hydrascale.Common.{before_mark}
use hydrascale.Common.{fields}
use hydrascale.Common.{split_on}
use hydrascale.Namespaces.{namespace_name}
use hydrascale.Namespaces.Rules.{veth_teardown_rules}
use hydrascale.Common.{◌==◌, if◌then◌else◌, cut_last, mem, inl, same_text, same_text}
use hydrascale.Config.{is_valid_id}
use hydrascale.Common.{contains}
use hydrascale.Namespaces.{hex_digit}
use hydrascale.Common.{
  false, none, Answer, List, [], ◌∷◌, map, join, take, length, ◌+◌, Result, err, ℕ, ◌≤◌, ◌≡◌, ◌≢◌,
  refl, sym, ap, ◌∙◌, true, some, Text, txt, text_eq, itoa, value, value-itoa, ok, arith,
}
use hydrascale.Namespaces.{veth_index, listen_port, Blocks, VethIps, veth_ips}
use hydrascale.Namespaces.Rules.{
  FilePaths, RemovalPlan, PlanError, plan_removal, teardown_veth, rule_absent, ensure_nat_rule,
  masquerade, veth_ipv6,
}
use hydrascale.Namespaces.Rules.Planned.{plan_removal-teardown_veth, run_all}
use hydrascale.Namespaces.Ipv6.{
  enable_force_forwarding, disable_force_forwarding, parse_route_devices, parse_link_names,
}
use hydrascale.Namespaces.Ipv6.Undone.{
  Sysctl, IsSwitch, force_key, bit, disable_force_forwarding-enable_force_forwarding,
}
use hydrascale.Namespaces.Reap.{names_a_missing_device, is_legacy_forward_rule, published_rules}
use hydrascale.Namespaces.Disjoint.{veth_index-listen_port, veth_ips_disjoint}

veth_index-listen_port_example :
    (1 ≤ veth_index (λ ns. ns) (txt "ns-work"))
    × (veth_index (λ ns. ns) (txt "ns-work") ≤ 254)
    × (41642 ≤ listen_port (veth_index (λ ns. ns) (txt "ns-work")))
    × (listen_port (veth_index (λ ns. ns) (txt "ns-work")) ≤ 41895)
veth_index-listen_port_example = veth_index-listen_port (λ ns. ns) (txt "ns-work")

-- 10.200.0.0/16, with an address printed as one number.
abbrev env : Blocks
env = record { base_of = λ s. some 180879360; holds = λ s ip. true; ip_string = itoa }

itoa_injective : (a b : ℕ) → itoa a ≡ itoa b → a ≡ b
itoa_injective a b e = sym (value-itoa a) ∙ ap (λ (s : Text). value s 0) e ∙ value-itoa b

veth_ips_disjoint_example :
    (p : VethIps) × (q : VethIps) × (veth_ips env (txt "10.200.0.0/16") 1 ≡ ok p)
    × (veth_ips env (txt "10.200.0.0/16") 2 ≡ ok q)
    × (p.host_gateway ≢ q.host_gateway)
    × (p.host_gateway ≢ q.ns_gateway)
    × (p.ns_gateway ≢ q.ns_gateway)
veth_ips_disjoint_example =
    veth_ips_disjoint env (txt "10.200.0.0/16") 180879360 1 2 refl (omega arith)
      (λ ip low high. refl) (λ a b small large e. itoa_injective a b e) (omega arith) (omega arith)
      (omega arith) (omega arith) (λ e. omega (arith, e))

-- A host that keeps the commands it ran, the last one first, and answers nothing.
abbrev record_command : List Text → List (List Text) → List (List Text) × Answer
record_command command w = (command ∷ w, record { output = []; failed = none })

abbrev paths : FilePaths
paths = record { join_path = λ ts. join ts (txt "/"); dir = λ s. txt "/var"; clean = λ s. s }

abbrev planned : Result PlanError RemovalPlan
planned = plan_removal paths env (λ s. s) (txt "a") (txt "10.200.0.0/16") (txt "/var")

plan_of : Result PlanError RemovalPlan → RemovalPlan
plan_of (ok plan) = plan
plan_of (err failure) = record {
  namespace = [];
  host_veth = [];
  state_dir = [];
  rule_count = 0;
  commands = [];
}

rules_tests :
    ((veth_ipv6 254).prefix ≡ txt "fd5c:9a3e:7b10:fe::/64")
    × (rule_absent (txt "iptables: Bad rule (does a matching rule exist in that chain?).") ≡ true)
    × ((ensure_nat_rule record_command (txt "iptables") (masquerade (txt "a")) []).1 ≡ ok false)
unfolding veth_ipv6 hex_digit rule_absent contains ensure_nat_rule
rules_tests = (refl, refl, refl)

plan_removal-teardown_veth_example :
    (commands : List (List Text)) × (length commands ≡ (plan_of planned).rule_count + 1)
    × (take (length commands) (plan_of planned).commands
        ≡ map (λ command. join command (txt " ")) commands)
    × ((teardown_veth record_command env (λ s. s) (txt "10.200.0.0/16") (txt "ns-a") []).0
        ≡ run_all record_command commands [])
unfolding plan_removal is_valid_id same_text veth_teardown_rules veth_ips plan_of namespace_name
plan_removal-teardown_veth_example =
    plan_removal-teardown_veth record_command env (λ s. s) paths (txt "a") (txt "10.200.0.0/16")
      (txt "/var") (plan_of planned) [] refl

-- A host of keys and values, with `sysctl` alone.
abbrev Keys : Type 0
Keys = Text → Text

abbrev set_key : Option (Text × Text) → Keys → Keys
set_key none w = w
set_key (some (key, v)) w = λ other. if key == other then v else w other

run_sysctl : List Text → Keys → Keys × Answer
run_sysctl (tool ∷ flag ∷ key ∷ []) w =
    if flag == txt "-n"
    then (w, record { output = w key ++ 10 ∷ []; failed = none })
    else (set_key (cut_last 61 key) w, record { output = []; failed = none })
run_sysctl _ w = (w, record { output = []; failed = none })

cut_last-bit :
    (key : Text) (on : Bool) → cut_last 61 (key ++ txt "=" ++ bit on) ≡ some (key, bit on)
unfolding cut_last
cut_last-bit [] true = refl
cut_last-bit [] false = refl
cut_last-bit (c ∷ key) on = rw (cut_last-bit key on) refl

small_sysctl : Sysctl Keys run_sysctl
unfolding run_sysctl same_text
small_sysctl = record {
  value = λ key w. w key;
  reads = λ key w. refl;
  writes = λ key on w. refl;
  value_written = λ key on other w. rw (cut_last-bit key on) refl;
}

two_upstreams : List Text
two_upstreams = txt "eth0" ∷ txt "eth0.2" ∷ []

all_off : Keys
all_off = λ key. txt "0"

ipv6_tests :
    (parse_route_devices (txt "default dev eth0\n nexthop dev eth1 dev eth0")
      ≡ txt "eth0" ∷ txt "eth1" ∷ [])
    × (parse_link_names (txt "1: lo: <UP>\n7: vh1@if6: <UP>") ≡ txt "lo" ∷ txt "vh1" ∷ [])
unfolding parse_route_devices split_on fields same_text parse_link_names before_mark trim_suffix
ipv6_tests = (refl, refl)

disable_force_forwarding-enable_force_forwarding_example :
    ((enable_force_forwarding run_sysctl two_upstreams all_off).2 ≡ none)
    × ((key : Text)
        → mem key (map force_key two_upstreams) ≡ true
        → small_sysctl.value key (enable_force_forwarding run_sysctl two_upstreams all_off).0
          ≡ txt "1")
    × ((key : Text)
        → small_sysctl.value key
            (disable_force_forwarding run_sysctl
              (enable_force_forwarding run_sysctl two_upstreams all_off).1
              (enable_force_forwarding run_sysctl two_upstreams all_off).0).0
          ≡ small_sysctl.value key all_off)
unfolding IsSwitch small_sysctl all_off
disable_force_forwarding-enable_force_forwarding_example =
    disable_force_forwarding-enable_force_forwarding run_sysctl small_sysctl two_upstreams all_off
      (λ key m. inl refl)

reap_tests :
    (names_a_missing_device (txt "-A" ∷ txt "FORWARD" ∷ txt "-i" ∷ txt "vh0123456789ab" ∷ []) []
      ≡ true)
    × (is_legacy_forward_rule (txt "-i" ∷ txt "vh0123456789ab" ∷ txt "-j" ∷ txt "ACCEPT" ∷ [])
        ≡ true)
    × (is_legacy_forward_rule (txt "-i" ∷ txt "vh0123456789ab" ∷ txt "-j" ∷ txt "DROP" ∷ [])
        ≡ false)
    × ((published_rules record_command (txt "ns-a") (txt "iptables") []).1 ≡ ok [])
unfolding names_a_missing_device same_text has_prefix drop is_legacy_forward_rule published_rules
    split_on fields
reap_tests = (refl, refl, refl, refl)
