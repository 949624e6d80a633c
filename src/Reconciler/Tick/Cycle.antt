-- ===== src/Reconciler/Tick/Cycle.antt =====
-- internal/reconciler/reconciler.go and access.go: Reconcile, Loop and ApplyAccess.
pub mod Steady
pub mod Failed
use hydrascale.Common.{
  ℕ, zero, suc, Bool, true, false, Option, none, some, List, [], ◌∷◌, ◌++◌, Text, txt, text_eq, Map,
  keys, Result, ok, err, itoa, length,
}
use hydrascale.Config.{Tailnet, Config}
use hydrascale.Reconciler.{State, emit}
use hydrascale.Reconciler.Plan.{Action, TailnetState, Tick, diff}
use hydrascale.Reconciler.Execute.{Outcome}
use hydrascale.Reconciler.Apply.{apply}
use hydrascale.Reconciler.Protection.{check_dns_protection}
use hydrascale.Reconciler.Env.{Env, desired_state, actual_state}
use hydrascale.Reconciler.Tick.Watch.{check_host_file, probe_reachability}
use hydrascale.Reconciler.Tick.Paths.{
  ensure_forward_path, check_namespace_forwarding, reap_stale_rules,
}
use hydrascale.Reconciler.Tick.Rules.{AccessInput, apply_access}
use hydrascale.Reconciler.Tick.Ipv6.{ipv6_on, apply_ipv6}

module _ {W : Type 0} (env : Env W) where
  -- What Diff reads of a host beside the states.
  abbrev pub tick_of : W → Tick
  tick_of w = record {
    get_name = env.managers.get_name;
    getenv = env.getenv;
    loaded = elim (env.managers.load_config w) [ err e ↦ none | ok cfg ↦ some cfg ];
  }

  -- The steps before Diff, which write the chains and the paths.
  unfoldable pub prepare : Map Text Tailnet → Map Text TailnetState → W → State → W × State
  prepare desired actual w s =
      let (w1, s1) = probe_reachability env desired actual w s in
      let (w2, s2, compiled) = apply_access env w1 s1 in
      let (w3, s3) = ensure_forward_path env desired actual w2 s2 in
      elim compiled [ none ↦ (w3, s3) | some input ↦ apply_ipv6 env input desired actual w3 s3 ]

  -- Apply, for a plan that is not empty.
  run_plan : List Action → W → State → W × State
  run_plan [] w s = (w, s)
  run_plan (a ∷ actions) w s =
      let message = itoa (length (a ∷ actions)) ++ txt " actions" in
      apply env.managers (ipv6_on s) (a ∷ actions) w (emit (txt "reconcile_apply") [] message s)

  note_complete : List Action → State → State
  note_complete [] s = emit (txt "reconcile_complete") [] (txt "no changes needed") s
  note_complete (a ∷ actions) s =
      let message = txt "applied " ++ itoa (length (a ∷ actions)) ++ txt " actions" in
      emit (txt "reconcile_complete") [] message s

  -- Diff and the steps after it.
  unfoldable pub converge : Map Text Tailnet → Map Text TailnetState → W → State → W × State
  unfolding run_plan note_complete
  converge desired actual w s =
      let (planned, actions) = diff (tick_of w) desired actual s in
      let (next, applied) = run_plan actions w planned in
      let protected =
        check_dns_protection (λ id. env.unprotected_dns id next) (keys desired) applied in
      let checked = check_namespace_forwarding env (keys desired) next protected in
      (next, note_complete actions checked)

  run_states :
      Result Text (Map Text Tailnet) → Result Text (Map Text TailnetState) → W → State → Outcome W
  unfolding prepare converge
  run_states (err e) actual w s = (w, s, some e)
  run_states (ok desired) (err e) w s = (w, s, some e)
  run_states (ok desired) (ok actual) w s =
      let (w1, s1) = prepare desired actual w s in
      let (w2, s2) = converge desired actual w1 s1 in (w2, s2, none)

  -- The state when the tick reads the desired and the actual state.
  abbrev pub started : W → State → State
  started w s = check_host_file env w (emit (txt "reconcile_start") [] [] s)

  -- `Reconcile`
  unfoldable pub reconcile : W → State → Outcome W
  unfolding run_states
  reconcile w s = elim (env.lock_failed w) [
    | some e ↦ (w, s, some (txt "failed to acquire lock: " ++ e))
    | none ↦ run_states (desired_state env w) (actual_state env w) w (started w s)
  ]

  -- The ticks of the ticker; an error of a tick is logged.
  unfoldable pub repeat_tick : ℕ → W → State → W × State
  repeat_tick zero w s = (w, s)
  repeat_tick (suc n) w s = let (next, noted, failed) = reconcile w s in repeat_tick n next noted

  -- `Loop`, which ends after n ticks of the ticker.
  unfoldable pub loop : ℕ → W → State → W × State
  loop n w s =
      let (w1, s1) = reap_stale_rules env w s in
      let (w2, s2) = repeat_tick (suc n) w1 s1 in
      (w2, emit (txt "loop_stopped") [] (txt "context cancelled") s2)

  -- `ApplyAccess`
  unfoldable pub apply_access_rules : ℕ → W → State → Outcome W
  apply_access_rules count w s =
      let (next, noted, failed) = reconcile w s in
      elim failed [
        | some e ↦ (next, noted, some e)
        | none ↦ (next, emit (txt "access.applied") [] (itoa count ++ txt " rules") noted, none)
      ]
