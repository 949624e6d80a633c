-- ===== src/Namespaces/Rules/Planned.antt =====
-- internal/namespaces/removal.go: the console states the commands that a removal runs.
use hydrascale.Common.{
  ℕ, ◌+◌, Answer, List, [], ◌∷◌, ◌++◌, map, Text, txt, join, take, length, ◌≡◌, refl, sym, ap, ◌∙◌,
  ok, Result-cases, Option-cases, arith, inl, inr, length-append,
}
use hydrascale.Namespaces.{namespace_name, veth_names, veth_ips, veth_index, Blocks}
use hydrascale.Namespaces.Rules.{
  FilePaths, RemovalPlan, plan_removal, plan_commands, safe_state_dir, veth_teardown_rules,
  veth_teardown_rules_ipv6, nat_rules_ipv6, teardown_veth, teardown_veth_rules, delete_veth_rules,
  delete_veth_rule, with_tool, veth_deletes,
}

length-with_tool :
    (tool : Text) (rules : List (List Text)) → length (with_tool tool rules) ≡ length rules
length-with_tool tool [] = refl
length-with_tool tool (rule ∷ rules) = omega (arith, length-with_tool tool rules)

module _ {W : Type 0} (run : List Text → W → W × Answer) where
  -- The host after a row of commands.
  unfoldable pub run_all : List (List Text) → W → W
  run_all [] w = w
  run_all (command ∷ commands) w = run_all commands (run command w).0

  run_all-append :
      (xs ys : List (List Text)) (w : W) → run_all (xs ++ ys) w ≡ run_all ys (run_all xs w)
  unfolding run_all
  run_all-append [] ys w = refl
  run_all-append (x ∷ xs) ys w = run_all-append xs ys (run x w).0

  delete_veth_rules-run_all :
      (commands : List (List Text)) (w : W)
      → (delete_veth_rules run commands w).0 ≡ run_all commands w
  unfolding run_all delete_veth_rules delete_veth_rule
  delete_veth_rules-run_all [] w = refl
  delete_veth_rules-run_all (command ∷ commands) w =
      delete_veth_rules-run_all commands (run command w).0

  module _ (env : Blocks) (sha256 : Text → List ℕ) where
    -- The commands of a teardown from the rules of the two families.
    abbrev teardown_commands : List (List Text) → Text → List (List Text)
    teardown_commands rules ns =
        with_tool (txt "iptables") rules
        ++ with_tool (txt "ip6tables") (veth_teardown_rules_ipv6 env sha256 ns)
        ++ (txt "ip" ∷ txt "link" ∷ txt "del" ∷ (veth_names sha256 ns).0 ∷ []) ∷ []

    abbrev rule_commands : List (List Text) → Text → List (List Text)
    rule_commands rules ns =
        with_tool (txt "iptables") rules
        ++ with_tool (txt "ip6tables") (veth_teardown_rules_ipv6 env sha256 ns)

    length-teardown_commands :
        (rules : List (List Text)) (ns : Text)
        → length (teardown_commands rules ns)
          ≡ length rules + length (veth_teardown_rules_ipv6 env sha256 ns) + 1
    length-teardown_commands rules ns = omega (
      arith,
      length-append (rule_commands rules ns)
          ((txt "ip" ∷ txt "link" ∷ txt "del" ∷ (veth_names sha256 ns).0 ∷ []) ∷ []),
      length-append (with_tool (txt "iptables") rules)
          (with_tool (txt "ip6tables") (veth_teardown_rules_ipv6 env sha256 ns)),
      length-with_tool (txt "iptables") rules,
      length-with_tool (txt "ip6tables") (veth_teardown_rules_ipv6 env sha256 ns),
    )

    teardown_veth_rules-run_all :
        (subnet ns : Text) (rules : List (List Text)) (w : W)
        → veth_teardown_rules env sha256 subnet ns ≡ ok rules
        → (teardown_veth_rules run env sha256 subnet ns w).0 ≡ run_all (rule_commands rules ns) w
    unfolding teardown_veth_rules
    teardown_veth_rules-run_all subnet ns rules w h =
        rw (h, teardown_veth_rules) (delete_veth_rules-run_all (rule_commands rules ns) w)

    teardown_veth-run_all :
        (subnet ns : Text) (rules : List (List Text)) (w : W)
        → veth_teardown_rules env sha256 subnet ns ≡ ok rules
        → (teardown_veth run env sha256 subnet ns w).0 ≡ run_all (teardown_commands rules ns) w
    unfolding teardown_veth run_all
    teardown_veth-run_all subnet ns rules w h =
        ap
          (λ (v : W). (run (txt "ip" ∷ txt "link" ∷ txt "del" ∷ (veth_names sha256 ns).0 ∷ []) v).0)
          (teardown_veth_rules-run_all subnet ns rules w h)
        ∙ sym (run_all-append (rule_commands rules ns) _ w)

    plan_commands-teardown_commands :
        (paths : FilePaths) (subnet ns state_dir : Text) (rules : List (List Text))
        → veth_teardown_rules env sha256 subnet ns ≡ ok rules
        → take (length (teardown_commands rules ns)) (
            plan_commands paths rules
              (veth_teardown_rules_ipv6 env sha256 ns)
              (veth_names sha256 ns).0
              ns
              state_dir)
          ≡ map (λ command. join command (txt " ")) (teardown_commands rules ns)
    unfolding plan_commands join take veth_teardown_rules veth_teardown_rules_ipv6 nat_rules_ipv6
    plan_commands-teardown_commands paths subnet ns state_dir rules h =
        elim (Result-cases (veth_ips env subnet (veth_index sha256 ns))) [
          | inr (failure, bad) ↦ absurd (ground (arith, h, bad))
          | inl (ips, good) ↦
              let e : rules ≡ veth_deletes (veth_names sha256 ns).0 ips (veth_index sha256 ns) =
                ground (arith, h, good) in
              rw e refl
        ]

    -- The console states what a removal runs: the first commands of the plan, one for each rule
    -- and one for the device, are those that TeardownVeth runs on the host, in order and whether
    -- they fail or not.
    pub plan_removal-teardown_veth :
        (paths : FilePaths) (id subnet state_base : Text) (plan : RemovalPlan) (w : W)
        → plan_removal paths env sha256 id subnet state_base ≡ ok plan
        → (commands : List (List Text)) × (length commands ≡ plan.rule_count + 1)
          × (take (length commands) plan.commands
              ≡ map (λ command. join command (txt " ")) commands)
          × ((teardown_veth run env sha256 subnet (namespace_name id) w).0 ≡ run_all commands w)
    unfolding plan_removal
    plan_removal-teardown_veth paths id subnet state_base plan w h =
        elim (Option-cases (safe_state_dir paths state_base id)) [
          | inl unsafe ↦ absurd (ground (arith, h, unsafe))
          | inr (state_dir, safe) ↦
              elim (Result-cases (veth_teardown_rules env sha256 subnet (namespace_name id))) [
                | inr (failure, bad) ↦ absurd (ground (arith, h, safe, bad))
                | inl (rules, good) ↦
                    let ns = namespace_name id in
                    let rules6 = veth_teardown_rules_ipv6 env sha256 ns in
                    let made : RemovalPlan = record {
                      namespace = ns;
                      host_veth = (veth_names sha256 ns).0;
                      state_dir = state_dir;
                      rule_count = length rules + length rules6;
                      commands =
                          plan_commands paths rules rules6 (veth_names sha256 ns).0 ns state_dir;
                    } in
                    let e : made ≡ plan = ground (arith, h, safe, good) in
                    (
                      teardown_commands rules ns,
                      rw (← e) (length-teardown_commands rules ns),
                      rw (← e)
                          (plan_commands-teardown_commands paths subnet ns state_dir rules good),
                      teardown_veth-run_all subnet ns rules w good,
                    )
              ]
        ]
