-- ===== src/Reconciler/Plan/Named.antt =====
-- The namespaces of a plan, and the starts and the removals of one tailnet in it.
use hydrascale.Common.{
  Bool, true, false, not, ◌&&◌, ◌≡◌, Option, none, some, [], ◌∷◌, Text, text_eq, All, All-append,
  any, all, Map, lookup, is_some, Bool-cases, Option-cases, inl, inr, arith,
}
use hydrascale.Config.{Tailnet}
use hydrascale.Reconciler.{State, flag}
use hydrascale.Reconciler.Plan.{
  ActionType, Action, TailnetState, Tick, start_daemon, stop_daemon, delete_namespace,
  create_actions, healthy_actions, branch, diff_tailnet, diff_desired, diff_actual, diff,
}

-- Whether an action starts its tailnet, and whether it takes its tailnet away.
abbrev pub is_start : ActionType → Bool
is_start start_daemon = true
is_start _ = false

abbrev pub starts : Action → Bool
starts a = is_start a.kind

abbrev pub removes : ActionType → Bool
removes stop_daemon = true
removes delete_namespace = true
removes _ = false

abbrev pub stays : Action → Bool
stays a = not (removes a.kind)

abbrev pub IsNamed : (Text → Text) → Action → Type 0
IsNamed get_name a = a.namespace ≡ get_name a.tailnet

-- Each namespace of the host has the name of its tailnet.
abbrev pub IsNamedState : (Text → Text) → Text × TailnetState → Type 0
IsNamedState get_name (id, state) = state.namespace ≡ get_name id

module _ (tick : Tick) where
  branch-IsNamed :
      (id : Text) (tn : Tailnet) (found : Option TailnetState) (s : State)
      → All (IsNamed tick.get_name) (branch tick id tn found s).1
  unfolding branch create_actions healthy_actions
  branch-IsNamed id tn none s = ground arith
  branch-IsNamed id tn (some state) s = elim (Option-cases tick.loaded) [
    | inl unread ↦ rw unread (ground arith)
    | inr (cfg, loaded) ↦ rw loaded (ground arith)
  ]

  diff_tailnet-IsNamed :
      (actual : Map Text TailnetState) (id : Text) (tn : Tailnet) (s : State)
      → All (IsNamed tick.get_name) (diff_tailnet tick actual id tn s).1
  unfolding diff_tailnet
  diff_tailnet-IsNamed actual id tn s = elim (Bool-cases (flag id s.error_states)) [
    | inl broken ↦ rw broken tt
    | inr working ↦ elim (Bool-cases (flag id s.paused_states)) [
      | inl paused ↦ rw (working, paused) tt
      | inr running ↦ rw (working, running) (branch-IsNamed id tn (lookup id actual) s)
    ]
  ]

  diff_desired-IsNamed :
      (actual : Map Text TailnetState) (desired : Map Text Tailnet) (s : State)
      → All (IsNamed tick.get_name) (diff_desired tick actual desired s).1
  unfolding diff_desired
  diff_desired-IsNamed actual [] s = tt
  diff_desired-IsNamed actual ((id, tn) ∷ desired) s =
      let (planned, actions) = diff_tailnet tick actual id tn s in
      All-append (IsNamed tick.get_name) actions (diff_desired tick actual desired planned).1
        (diff_tailnet-IsNamed actual id tn s) (diff_desired-IsNamed actual desired planned)

  diff_actual-IsNamed :
      (desired : Map Text Tailnet) (actual : Map Text TailnetState)
      → All (IsNamedState tick.get_name) actual
      → All (IsNamed tick.get_name) (diff_actual desired actual)
  unfolding diff_actual
  diff_actual-IsNamed desired [] h = tt
  diff_actual-IsNamed desired ((id, state) ∷ actual) (named, h) =
      let rest = diff_actual-IsNamed desired actual h in
      elim (Bool-cases (is_some (lookup id desired))) [
        | inl wanted ↦ rw wanted rest
        | inr gone ↦ rw gone (named, (named, rest))
      ]

  -- Every action of a plan names the namespace of its tailnet.
  pub diff-IsNamed :
      (desired : Map Text Tailnet) (actual : Map Text TailnetState) (s : State)
      → All (IsNamedState tick.get_name) actual
      → All (IsNamed tick.get_name) (diff tick desired actual s).1
  unfolding diff
  diff-IsNamed desired actual s h =
      All-append (IsNamed tick.get_name) (diff_desired tick actual desired s).1
        (diff_actual desired actual) (diff_desired-IsNamed actual desired s)
        (diff_actual-IsNamed desired actual h)

  branch-stays :
      (id : Text) (tn : Tailnet) (found : Option TailnetState) (s : State)
      → all stays (branch tick id tn found s).1 ≡ true
  unfolding branch create_actions healthy_actions
  branch-stays id tn none s = ground arith
  branch-stays id tn (some state) s = elim (Option-cases tick.loaded) [
    | inl unread ↦ rw unread (ground arith)
    | inr (cfg, loaded) ↦ rw loaded (ground arith)
  ]

  pub diff_tailnet-stays :
      (actual : Map Text TailnetState) (id : Text) (tn : Tailnet) (s : State)
      → all stays (diff_tailnet tick actual id tn s).1 ≡ true
  unfolding diff_tailnet
  diff_tailnet-stays actual id tn s = ground (arith, branch-stays id tn (lookup id actual) s)

  -- Whether the host holds the tailnet with a healthy daemon.
  abbrev pub runs : Option TailnetState → Bool
  runs none = false
  runs (some state) = state.exists && state.healthy

  branch-starts :
      (id : Text) (tn : Tailnet) (found : Option TailnetState) (s : State)
      → runs found ≡ false
      → any starts (branch tick id tn found s).1 ≡ true
  unfolding branch create_actions
  branch-starts id tn none s down = ground arith
  branch-starts id tn (some state) s down = ground (arith, down)

  pub diff_tailnet-starts :
      (actual : Map Text TailnetState) (id : Text) (tn : Tailnet) (s : State)
      → flag id s.error_states ≡ false
      → flag id s.paused_states ≡ false
      → runs (lookup id actual) ≡ false
      → any starts (diff_tailnet tick actual id tn s).1 ≡ true
  unfolding diff_tailnet
  diff_tailnet-starts actual id tn s working running down =
      rw (working, running) (branch-starts id tn (lookup id actual) s down)
