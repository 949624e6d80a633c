-- ===== src/Reconciler/Apply/Alive/Unwatched.antt =====
-- Apply with the noted managers beside Apply with the managers as they are.
use hydrascale.Common.{
  Bool, Option, none, some, List, [], ◌∷◌, Text, text_eq, ◌≡◌, refl, ap, ◌∙◌, keys,
}
use hydrascale.Reconciler.{State}
use hydrascale.Reconciler.Plan.{Action}
use hydrascale.Reconciler.Execute.{Managers, execute_action}
use hydrascale.Reconciler.Execute.Alive.Watched.{watched}
use hydrascale.Reconciler.Execute.Alive.Unwatched.{execute_action-unwatched}
use hydrascale.Reconciler.Apply.{Cycle, note_outcome, run_actions, settle, tailnets_seen, apply}

module _ {W : Type 0} (m : Managers W) (on : Bool) (id : Text) where
  -- A cycle without the note.
  abbrev unnoted : Cycle (W × Bool) → Cycle W
  unnoted c = record { host = c.host.0; state = c.state; failures = c.failures; errors = c.errors }

  note_outcome-unnoted :
      (a : Action) (w : W × Bool) (s : State) (failed : Option Text) (c : Cycle (W × Bool))
      → unnoted (note_outcome a w s failed c) ≡ note_outcome a w.0 s failed (unnoted c)
  unfolding note_outcome
  note_outcome-unnoted a w s none c = refl
  note_outcome-unnoted a w s (some e) c = refl

  run_actions-unnoted :
      (actions : List Action) (c : Cycle (W × Bool))
      → unnoted (run_actions (watched m id) on actions c) ≡ run_actions m on actions (unnoted c)
  unfolding run_actions
  run_actions-unnoted [] c = refl
  run_actions-unnoted (a ∷ actions) c =
      let (w, s, failed) = execute_action (watched m id) on a c.host c.state in
      let rest : Cycle W → Cycle W = run_actions m on actions in
      run_actions-unnoted actions (note_outcome a w s failed c)
      ∙ ap rest (note_outcome-unnoted a w s failed c)
      ∙ ap (λ o. rest (note_outcome a o.0 o.1 o.2 (unnoted c)))
          (execute_action-unwatched m on id a c.host c.state)

  pub apply-unwatched :
      (actions : List Action) (w : W × Bool) (s : State)
      → ((apply (watched m id) on actions w s).0.0, (apply (watched m id) on actions w s).1)
        ≡ apply m on actions w.0 s
  unfolding apply
  apply-unwatched actions w s =
      ap (λ c. (c.host, settle c.failures c.errors (keys (tailnets_seen actions [])) c.state))
        (run_actions-unnoted actions (record { host = w; state = s; failures = []; errors = [] }))
