-- ===== src/Reconciler/Apply/Alive.antt =====
-- What the plan of a tick asks the managers for a declared tailnet.
pub mod Unwatched
pub mod Started
use hydrascale.Common.{
  Bool, true, false, ◌≡◌, refl, sym, Option, none, some, List, [], ◌∷◌, Text, text_eq, ◌==◌, ==_iff,
  All, any, all, nodup, Map, keys, lookup, Bool-cases, inl, inr, arith,
}
use hydrascale.Config.{Tailnet}
use hydrascale.Reconciler.{State, flag}
use hydrascale.Reconciler.Plan.{ActionType, Action, start_daemon, TailnetState, Tick, diff}
use hydrascale.Reconciler.Plan.Independent.{of}
use hydrascale.Reconciler.Plan.Cases.{diff_declared}
use hydrascale.Reconciler.Plan.Named.{
  is_start, starts, removes, stays, runs, IsNamed, IsNamedState, diff-IsNamed, diff_tailnet-stays,
  diff_tailnet-starts,
}
use hydrascale.Reconciler.Execute.{Managers, execute_action}
use hydrascale.Reconciler.Execute.Alive.{Upkeep, execute_action-up, execute_start_own}
use hydrascale.Reconciler.Apply.{Cycle, note_outcome, run_actions, apply}

module _ {W : Type 0} (m : Managers W) (on : Bool) (id : Text) (up : Upkeep m id) where
  open up use {is_up}

  note_outcome-host :
      (a : Action) (w : W) (s : State) (failed : Option Text) (c : Cycle W)
      → (note_outcome a w s failed c).host ≡ w
  unfolding note_outcome
  note_outcome-host a w s none c = refl
  note_outcome-host a w s (some e) c = refl

  run_actions-up :
      (actions : List Action) (c : Cycle W)
      → All (IsNamed m.get_name) actions
      → all stays (of id actions) ≡ true
      → is_up c.host ≡ true
      → is_up (run_actions m on actions c).host ≡ true
  unfolding run_actions
  run_actions-up [] c named kept h = h
  run_actions-up (a ∷ actions) c (named, rest) kept h =
      let (w, s, failed) = execute_action m on a c.host c.state in
      let next = note_outcome a w s failed c in
      let apart : removes a.kind ≡ true
          → ((a.tailnet == id) ≡ false) × ((a.namespace == m.get_name id) ≡ false) =
        λ gone.
          let other : (a.tailnet == id) ≡ false = ground (arith, kept, gone) in
          (other, rw named (up.names_apart a.tailnet other)) in
      let after : is_up w ≡ true =
        execute_action-up m on id up a.kind a.tailnet a.namespace a.auth_key a.control_url c.host
          c.state apart h in
      run_actions-up actions next rest (ground (arith, kept))
        (rw (note_outcome-host a w s failed c) after)

  is_start-eq : (kind : ActionType) → is_start kind ≡ true → kind ≡ start_daemon
  is_start-eq kind h = ground (arith, h)

  own_start :
      (kind : ActionType) (j ns key url : Text) (w : W) (s : State)
      → kind ≡ start_daemon
      → j ≡ id
      → is_up
          (execute_action m on
            (record { kind = kind; tailnet = j; namespace = ns; auth_key = key; control_url = url })
            w
            s).0
        ≡ true
  own_start kind j ns key url w s k e = rw (k, e) (execute_start_own m on id up ns key url w s)

  run_actions-starts :
      (actions : List Action) (c : Cycle W)
      → All (IsNamed m.get_name) actions
      → all stays (of id actions) ≡ true
      → any starts (of id actions) ≡ true
      → is_up (run_actions m on actions c).host ≡ true
  unfolding run_actions
  run_actions-starts [] c named kept started = absurd (ground (arith, started))
  run_actions-starts (a ∷ actions) c (named, rest) kept started =
      let (w, s, failed) = execute_action m on a c.host c.state in
      let next = note_outcome a w s failed c in
      let later : all stays (of id actions) ≡ true = ground (arith, kept) in
      elim (Bool-cases (a.tailnet == id)) [
        | inr other ↦ run_actions-starts actions next rest later (ground (arith, started, other))
        | inl own ↦ elim (Bool-cases (starts a)) [
          | inr waits ↦
              run_actions-starts actions next rest later (ground (arith, started, own, waits))
          | inl first ↦
              let after : is_up w ≡ true =
                own_start a.kind a.tailnet a.namespace a.auth_key a.control_url c.host c.state
                  (is_start-eq a.kind first) ((==_iff a.tailnet id).0 own) in
              run_actions-up actions next rest later (rw (note_outcome-host a w s failed c) after)
        ]
      ]

  -- Apply of the plan of a tick leaves the fact that a start establishes, for a declared tailnet that
  -- is neither in the error state nor paused, where the fact holds of a tailnet that runs.
  pub apply-up :
      (tick : Tick) (desired : Map Text Tailnet) (actual : Map Text TailnetState) (w : W)
      (s t : State) (tn : Tailnet)
      → nodup (keys desired) ≡ true
      → nodup (keys actual) ≡ true
      → All (IsNamedState tick.get_name) actual
      → tick.get_name ≡ m.get_name
      → lookup id desired ≡ some tn
      → flag id s.error_states ≡ false
      → flag id s.paused_states ≡ false
      → (runs tick (lookup id actual) ≡ true → is_up w ≡ true)
      → is_up (apply m on (diff tick desired actual s).1 w t).0 ≡ true
  unfolding apply
  apply-up tick desired actual w s t tn wanted held named names found working running truth =
      let actions = (diff tick desired actual s).1 in
      let start : Cycle W = record { host = w; state = t; failures = []; errors = [] } in
      let own = diff_declared tick desired actual s id wanted held tn found in
      let all_named : All (IsNamed m.get_name) actions =
        rw (sym names) (diff-IsNamed tick desired actual s named) in
      let kept : all stays (of id actions) ≡ true =
        rw own (diff_tailnet-stays tick actual id tn s) in
      elim (Bool-cases (runs tick (lookup id actual))) [
        | inl already ↦ run_actions-up actions start all_named kept (truth already)
        | inr down ↦
            run_actions-starts actions start all_named kept
              (rw own (diff_tailnet-starts tick actual id tn s working running down))
      ]
