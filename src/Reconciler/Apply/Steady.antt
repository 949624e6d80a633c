-- ===== src/Reconciler/Apply/Steady.antt =====
-- Apply keeps the bound of the event list, and the pauses.
use hydrascale.Common.{
  Bool, Option, none, some, List, [], ◌∷◌, ◌++◌, Text, txt, text_eq, if◌then◌else◌, Map, keys,
  lookup, or_default, arith,
}
use hydrascale.Reconciler.{State, flag, record_failure, clear_failure}
use hydrascale.Reconciler.Plan.{Action}
use hydrascale.Reconciler.Execute.{Managers, execute_action}
use hydrascale.Reconciler.Execute.Kept.{execute_action-Kept}
use hydrascale.Reconciler.Execute.Bounded.{execute_action-IsBounded}
use hydrascale.Reconciler.Apply.{
  Cycle, kind_text, note_outcome, run_actions, tailnets_seen, settle, apply,
}
use hydrascale.Reconciler.Steady.{Steady, Steady-refl, Steady-trans, Steady-same, emit-Steady}

settle-Steady :
    (failures : Map Text Bool) (errors : Map Text Text) (ids : List Text) (s : State)
    → Steady s (settle failures errors ids s)
unfolding settle record_failure clear_failure
settle-Steady failures errors [] s = Steady-refl s
settle-Steady failures errors (id ∷ ids) s =
    let next =
      if flag id failures
      then record_failure id (or_default (lookup id errors) []) s
      else clear_failure id s in
    Steady-trans (Steady-same s next (ground arith) (ground arith))
      (settle-Steady failures errors ids next)

module _ {W : Type 0} (m : Managers W) (on : Bool) where
  pub execute_action-Steady :
      (a : Action) (w : W) (s : State) → Steady s (execute_action m on a w s).1
  execute_action-Steady a w s = record {
    bounded = execute_action-IsBounded m on a w s;
    paused = (execute_action-Kept m on a w s).paused_states;
  }

  note_outcome-Steady :
      (a : Action) (w : W) (s : State) (failed : Option Text) (c : Cycle W)
      → Steady s (note_outcome a w s failed c).state
  unfolding note_outcome
  note_outcome-Steady a w s none c = emit-Steady (txt "action_ok") a.tailnet (kind_text a.kind) s
  note_outcome-Steady a w s (some e) c =
      emit-Steady (txt "action_failed") a.tailnet (kind_text a.kind ++ txt ": " ++ e) s

  run_actions-Steady :
      (actions : List Action) (c : Cycle W) → Steady c.state (run_actions m on actions c).state
  unfolding run_actions
  run_actions-Steady [] c = Steady-refl c.state
  run_actions-Steady (a ∷ actions) c =
      let (w, s, failed) = execute_action m on a c.host c.state in
      Steady-trans (execute_action-Steady a c.host c.state) (
        Steady-trans (note_outcome-Steady a w s failed c)
          (run_actions-Steady actions (note_outcome a w s failed c)))

  pub apply-Steady :
      (actions : List Action) (w : W) (s : State) → Steady s (apply m on actions w s).1
  unfolding apply
  apply-Steady actions w s =
      let start : Cycle W = record { host = w; state = s; failures = []; errors = [] } in
      let c = run_actions m on actions start in
      Steady-trans (run_actions-Steady actions start)
        (settle-Steady c.failures c.errors (keys (tailnets_seen actions [])) c.state)
