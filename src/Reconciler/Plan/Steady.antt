-- ===== src/Reconciler/Plan/Steady.antt =====
-- Diff keeps the events and the pauses.
use hydrascale.Common.{
  Option, none, some, [], ◌∷◌, Text, text_eq, Map, lookup, Bool-cases, inl, inr, arith,
}
use hydrascale.Config.{Tailnet}
use hydrascale.Reconciler.{State, flag, set_dns_refresh_pending}
use hydrascale.Reconciler.Plan.{TailnetState, Tick, branch, diff_tailnet, diff_desired, diff}
use hydrascale.Reconciler.Steady.{Steady, Steady-refl, Steady-trans, Steady-same}

branch-Steady :
    (tick : Tick) (id : Text) (tn : Tailnet) (found : Option TailnetState) (s : State)
    → Steady s (branch tick id tn found s).0
unfolding branch set_dns_refresh_pending
branch-Steady tick id tn none s = Steady-refl s
branch-Steady tick id tn (some state) s =
    Steady-same s (branch tick id tn (some state) s).0 (ground arith) (ground arith)

diff_tailnet-Steady :
    (tick : Tick) (actual : Map Text TailnetState) (id : Text) (tn : Tailnet) (s : State)
    → Steady s (diff_tailnet tick actual id tn s).0
unfolding diff_tailnet
diff_tailnet-Steady tick actual id tn s =
    let b = branch-Steady tick id tn (lookup id actual) s in
    elim (Bool-cases (flag id s.error_states)) [
      | inl broken ↦ rw broken (Steady-refl s)
      | inr working ↦ elim (Bool-cases (flag id s.paused_states)) [
        | inl paused ↦ rw (working, paused) (Steady-refl s)
        | inr running ↦ rw (working, running) b
      ]
    ]

diff_desired-Steady :
    (tick : Tick) (actual : Map Text TailnetState) (desired : Map Text Tailnet) (s : State)
    → Steady s (diff_desired tick actual desired s).0
unfolding diff_desired
diff_desired-Steady tick actual [] s = Steady-refl s
diff_desired-Steady tick actual ((id, tn) ∷ desired) s =
    Steady-trans (diff_tailnet-Steady tick actual id tn s)
      (diff_desired-Steady tick actual desired (diff_tailnet tick actual id tn s).0)

pub diff-Steady :
    (tick : Tick) (desired : Map Text Tailnet) (actual : Map Text TailnetState) (s : State)
    → Steady s (diff tick desired actual s).0
unfolding diff
diff-Steady tick desired actual s = diff_desired-Steady tick actual desired s
