-- ===== src/Reconciler/Tick/Cycle/Failed.antt =====
-- A tick that fails.
use hydrascale.Common.{
  ◌≡◌, refl, some, [], Text, txt, text_eq, Map, Result, ok, err, Option-cases, inl, inr, arith,
}
use hydrascale.Config.{Tailnet}
use hydrascale.Reconciler.{State, emit}
use hydrascale.Reconciler.Plan.{TailnetState}
use hydrascale.Reconciler.Execute.Kept.{Kept, Kept-refl}
use hydrascale.Reconciler.Env.{Env, desired_state, actual_state}
use hydrascale.Reconciler.Tick.Watch.Kept.{check_host_file-Kept}
use hydrascale.Reconciler.Tick.Cycle.{run_states, started, reconcile}

module _ {W : Type 0} (env : Env W) where
  started-Kept : (w : W) (s : State) → Kept s (started env w s)
  unfolding emit
  started-Kept w s =
      let k = check_host_file-Kept env w (emit (txt "reconcile_start") [] [] s) in
      record {
        failure_counts = k.failure_counts;
        error_states = k.error_states;
        paused_states = k.paused_states;
        last_errors = k.last_errors;
      }

  run_states_failed :
      (desired : Result Text (Map Text Tailnet)) (actual : Result Text (Map Text TailnetState))
      (w : W) (s : State) (e : Text)
      → (run_states env desired actual w s).2 ≡ some e
      → ((run_states env desired actual w s).0 ≡ w) × ((run_states env desired actual w s).1 ≡ s)
  unfolding run_states
  run_states_failed (err e) actual w s f h = (refl, refl)
  run_states_failed (ok desired) (err e) w s f h = (refl, refl)
  run_states_failed (ok desired) (ok actual) w s f h = ground (arith, h)

  -- A tick that answers an error ran no command on the host, and it changed no failure count, no error
  -- state, no pause and no last error: the next tick starts where this one did.
  pub reconcile_failed :
      (w : W) (s : State) (e : Text)
      → (reconcile env w s).2 ≡ some e
      → ((reconcile env w s).0 ≡ w) × Kept s (reconcile env w s).1
  unfolding reconcile
  reconcile_failed w s e h = elim (Option-cases (env.lock_failed w)) [
    | inr (f, failed) ↦ rw (failed, reconcile) (refl, Kept-refl s)
    | inl held ↦
        let desired = desired_state env w in
        let actual = actual_state env w in
        let known : (run_states env desired actual w (started env w s)).2 ≡ some e =
          ground (arith, h, held) in
        let (host, state) = run_states_failed desired actual w (started env w s) e known in
        rw (held, reconcile) (host, rw state (started-Kept w s))
  ]
