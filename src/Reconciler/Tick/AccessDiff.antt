-- ===== src/Reconciler/Tick/AccessDiff.antt =====
-- internal/reconciler/reconciler.go: AccessDiff, which compares the chains of the host with the file.
use hydrascale.Common.{
  Option, none, some, List, [], ◌++◌, map, Text, txt, text_eq, ◌==◌, if◌then◌else◌, Result, ok, err,
}
use hydrascale.Access.Writer.{Host}
use hydrascale.Access.Writer.Commands.{check_rules}
use hydrascale.Reconciler.{State}
use hydrascale.Reconciler.Execute.{join_lines}
use hydrascale.Reconciler.Env.{Env}
use hydrascale.Reconciler.Tick.Rules.{AccessInput, compile_access}
use hydrascale.Reconciler.Tick.Ipv6.{Ipv6Plan, plan_ipv6}

-- The differences, with the host after the commands that read it.
abbrev Differences : Type 0 → Type 0
Differences W = W × Result Text (List Text)

with_ipv6 : List Text → Result (List Text) (List Text) → Result Text (List Text)
with_ipv6 diffs (err es) = err (join_lines es)
with_ipv6 diffs (ok diffs6) = ok (diffs ++ map (λ d. txt "IPv6: " ++ d) diffs6)

module _ {W : Type 0} (env : Env W) where
  -- Check of the IPv6 chains; a plan with a mode has a writer.
  check_ipv6 : Option (Host W) → Ipv6Plan → List Text → W → Differences W
  unfolding with_ipv6
  check_ipv6 none plan diffs w = (w, ok diffs)
  check_ipv6 (some writer) plan diffs w =
      let (next, answer) = check_rules writer (txt "ip6tables") plan.compiled w in
      if plan.mode == [] then (w, ok diffs) else (next, with_ipv6 diffs answer)

  check_both : AccessInput → State → W → Result (List Text) (List Text) → Differences W
  unfolding check_ipv6
  check_both input s w (err es) = (w, err (join_lines es))
  check_both input s w (ok diffs) = elim (plan_ipv6 env input w s) [
    | err e ↦ (w, err e)
    | ok plan ↦ check_ipv6 env.writer6 plan diffs w
  ]

  check_input : Host W → State → W → Result Text AccessInput → Differences W
  unfolding check_both
  check_input writer s w (err e) = (w, err e)
  check_input writer s w (ok input) =
      let (next, answer) = check_rules writer (txt "iptables") input.compiled w in
      check_both input s next answer

  compare_chains : Host W → W → State → State × Differences W
  unfolding check_input
  compare_chains writer w s =
      let (noted, input) = compile_access env w s in (noted, (check_input writer noted w input))

  -- `AccessDiff`; the state changes by the events of compileAccess.
  unfoldable pub access_diff : W → State → State × Differences W
  unfolding compare_chains
  access_diff w s = elim env.writer [
    | none ↦ (s, (w, ok []))
    | some writer ↦ compare_chains writer w s
  ]
