-- ===== src/Reconciler/Tick/Cycle/Steady.antt =====
-- A tick is steady, and so is the loop.
use hydrascale.Common.{
  ℕ, zero, suc, ◌≡◌, List, [], ◌∷◌, ◌++◌, Text, txt, text_eq, Map, keys, Result, ok, err, itoa,
  length, Option-cases, inl, inr,
}
use hydrascale.Config.{Tailnet}
use hydrascale.Reconciler.{State, emit}
use hydrascale.Reconciler.Plan.{Action, TailnetState, diff}
use hydrascale.Reconciler.Plan.Steady.{diff-Steady}
use hydrascale.Reconciler.Apply.Steady.{apply-Steady}
use hydrascale.Reconciler.Execute.Bounded.{IsBounded}
use hydrascale.Reconciler.Protection.{check_dns_protection}
use hydrascale.Reconciler.Env.{Env, desired_state, actual_state}
use hydrascale.Reconciler.Steady.{Steady, Steady-refl, Steady-trans, emit-Steady, emit-after}
use hydrascale.Reconciler.Steady.Reports.{check_dns_protection-Steady}
use hydrascale.Reconciler.Tick.Watch.Steady.{check_host_file-Steady, probe_reachability-Steady}
use hydrascale.Reconciler.Tick.Watch.{probe_reachability}
use hydrascale.Reconciler.Tick.Paths.{ensure_forward_path, reap_stale_rules}
use hydrascale.Reconciler.Tick.Paths.Steady.{
  ensure_forward_path-Steady, check_namespace_forwarding-Steady, reap_stale_rules-Steady,
}
use hydrascale.Reconciler.Tick.Rules.{apply_access}
use hydrascale.Reconciler.Tick.Rules.Steady.{apply_access-Steady}
use hydrascale.Reconciler.Tick.Ipv6.{ipv6_on}
use hydrascale.Reconciler.Tick.Ipv6.Steady.{apply_ipv6-Steady}
use hydrascale.Reconciler.Tick.Cycle.{
  tick_of, prepare, run_plan, note_complete, converge, run_states, started, reconcile, repeat_tick,
  loop,
}

module _ {W : Type 0} (env : Env W) where
  prepare-Steady :
      (desired : Map Text Tailnet) (actual : Map Text TailnetState) (w : W) (s : State)
      → Steady s (prepare env desired actual w s).1
  unfolding prepare
  prepare-Steady desired actual w s =
      let (w1, s1) = probe_reachability env desired actual w s in
      let (w2, s2, compiled) = apply_access env w1 s1 in
      let (w3, s3) = ensure_forward_path env desired actual w2 s2 in
      let before = Steady-trans (probe_reachability-Steady env desired actual w s) (
        Steady-trans (apply_access-Steady env w1 s1)
          (ensure_forward_path-Steady env desired actual w2 s2)) in
      elim (Option-cases (apply_access env w1 s1).2) [
        | inl failed ↦ rw (failed, prepare) before
        | inr (input, done) ↦
            rw (done, prepare)
              (Steady-trans before (apply_ipv6-Steady env input desired actual w3 s3))
      ]

  run_plan-Steady :
      (actions : List Action) (w : W) (s : State) → Steady s (run_plan env actions w s).1
  unfolding run_plan
  run_plan-Steady [] w s = Steady-refl s
  run_plan-Steady (a ∷ actions) w s =
      let message = itoa (length (a ∷ actions)) ++ txt " actions" in
      Steady-trans (emit-Steady (txt "reconcile_apply") [] message s) (
        apply-Steady env.managers (ipv6_on s) (a ∷ actions) w
          (emit (txt "reconcile_apply") [] message s))

  note_complete-Steady :
      (actions : List Action) (s : State) → Steady s (note_complete env actions s)
  unfolding note_complete
  note_complete-Steady [] s = emit-Steady (txt "reconcile_complete") [] (txt "no changes needed") s
  note_complete-Steady (a ∷ actions) s =
      emit-Steady (txt "reconcile_complete") []
        (txt "applied " ++ itoa (length (a ∷ actions)) ++ txt " actions") s

  converge-Steady :
      (desired : Map Text Tailnet) (actual : Map Text TailnetState) (w : W) (s : State)
      → Steady s (converge env desired actual w s).1
  unfolding converge
  converge-Steady desired actual w s =
      let (planned, actions) = diff (tick_of env w) desired actual s in
      let (next, applied) = run_plan env actions w planned in
      let dns = check_dns_protection-Steady (λ id. env.unprotected_dns id next) (keys desired) in
      let protected =
        check_dns_protection (λ id. env.unprotected_dns id next) (keys desired) applied in
      Steady-trans (diff-Steady (tick_of env w) desired actual s) (
        Steady-trans (run_plan-Steady actions w planned) (
          Steady-trans (dns applied) (
            Steady-trans (check_namespace_forwarding-Steady env (keys desired) next protected)
              (note_complete-Steady actions _))))

  run_states-Steady :
      (desired : Result Text (Map Text Tailnet)) (actual : Result Text (Map Text TailnetState))
      (w : W) (s : State)
      → Steady s (run_states env desired actual w s).1
  unfolding run_states
  run_states-Steady (err e) actual w s = Steady-refl s
  run_states-Steady (ok desired) (err e) w s = Steady-refl s
  run_states-Steady (ok desired) (ok actual) w s =
      let (w1, s1) = prepare env desired actual w s in
      Steady-trans (prepare-Steady desired actual w s) (converge-Steady desired actual w1 s1)

  pub started-Steady : (w : W) (s : State) → Steady s (started env w s)
  started-Steady w s =
      Steady-trans (emit-Steady (txt "reconcile_start") [] [] s)
        (check_host_file-Steady env w (emit (txt "reconcile_start") [] [] s))

  pub reconcile-Steady : (w : W) (s : State) → Steady s (reconcile env w s).1
  unfolding reconcile
  reconcile-Steady w s = elim (Option-cases (env.lock_failed w)) [
    | inr (e, failed) ↦ rw (failed, reconcile) (Steady-refl s)
    | inl held ↦
        let desired = desired_state env w in
        let actual = actual_state env w in
        rw (held, reconcile)
          (Steady-trans (started-Steady w s) (run_states-Steady desired actual w (started env w s)))
  ]

  repeat_tick-Steady : (n : ℕ) (w : W) (s : State) → Steady s (repeat_tick env n w s).1
  unfolding repeat_tick
  repeat_tick-Steady zero w s = Steady-refl s
  repeat_tick-Steady (suc n) w s =
      let (next, noted, failed) = reconcile env w s in
      Steady-trans (reconcile-Steady w s) (repeat_tick-Steady n next noted)

  -- However many ticks the loop runs, and whatever fails in them, the event list holds at most a
  -- thousand events where it did before, and exactly the tailnets that the operator paused stay paused.
  pub loop-IsBounded :
      (n : ℕ) (w : W) (s : State)
      → IsBounded s
      → IsBounded (loop env n w s).1 × ((loop env n w s).1.paused_states ≡ s.paused_states)
  unfolding loop
  loop-IsBounded n w s h =
      let (w1, s1) = reap_stale_rules env w s in
      let steady =
        emit-after (txt "loop_stopped") [] (txt "context cancelled")
          (Steady-trans (reap_stale_rules-Steady env w s) (repeat_tick-Steady (suc n) w1 s1)) in
      (steady.bounded h, steady.paused)
