-- ===== src/Reconciler/Apply/Alive/Started.antt =====
-- The starts of daemons that Apply asks for with the plan of a tick.
use hydrascale.Common.{Bool, true, false, ◌≡◌, some, Text, text_eq, All, nodup, Map, keys, lookup}
use hydrascale.Config.{Tailnet}
use hydrascale.Namespaces.{namespace_name}
use hydrascale.Reconciler.{State, flag}
use hydrascale.Reconciler.Plan.{TailnetState, Tick, diff}
use hydrascale.Reconciler.Plan.Named.{runs, IsNamedState}
use hydrascale.Reconciler.Execute.{Managers}
use hydrascale.Reconciler.Execute.Alive.Watched.{watched, watched-Upkeep}
use hydrascale.Reconciler.Apply.{apply}
use hydrascale.Reconciler.Apply.Alive.{apply-up}
use hydrascale.Reconciler.Apply.Alive.Unwatched.{apply-unwatched}

-- When Apply runs the plan of a tick, the last call that starts, stops or deletes a declared
-- tailnet is a start, or there is none and the tick found the tailnet running, where the tailnet is
-- neither in the error state nor paused. The note that records this changes nothing: without it
-- Apply leaves the same host and the same state. The managers may do and fail as they like; the
-- namespaces are named by GetNamespaceName, and the maps hold no key twice.
pub apply_starts :
    {W : Type 0} (m : Managers W) (on : Bool) (id : Text) (tick : Tick) (desired : Map Text Tailnet)
    (actual : Map Text TailnetState) (w : W) (s t : State) (tn : Tailnet)
    → ((j : Text) → m.get_name j ≡ namespace_name j)
    → tick.get_name ≡ m.get_name
    → nodup (keys desired) ≡ true
    → nodup (keys actual) ≡ true
    → All (IsNamedState tick.get_name) actual
    → lookup id desired ≡ some tn
    → flag id s.error_states ≡ false
    → flag id s.paused_states ≡ false
    → let plan = (diff tick desired actual s).1 in
      let noted = apply (watched m id) on plan (w, runs tick (lookup id actual)) t in
      (noted.0.1 ≡ true) × ((noted.0.0, noted.1) ≡ apply m on plan w t)
unfolding watched watched-Upkeep
apply_starts m on id tick desired actual w s t tn named names wanted held states found working
      running =
    (
      apply-up (watched m id) on id (watched-Upkeep m id named) tick desired actual
          (w, runs tick (lookup id actual)) s t tn wanted held states names found working running
          (λ h. h),
      apply-unwatched m on id (diff tick desired actual s).1 (w, runs tick (lookup id actual)) t,
    )
