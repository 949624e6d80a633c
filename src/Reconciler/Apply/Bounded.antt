-- ===== src/Reconciler/Apply/Bounded.antt =====
-- Apply keeps the event list bounded.
use hydrascale.Common.{Bool, List}
use hydrascale.Reconciler.{State}
use hydrascale.Reconciler.Plan.{Action}
use hydrascale.Reconciler.Execute.{Managers}
use hydrascale.Reconciler.Execute.Bounded.{IsBounded}
use hydrascale.Reconciler.Apply.{apply}
use hydrascale.Reconciler.Apply.Steady.{apply-Steady}

-- The event list holds at most a thousand events after Apply where it did before.
pub apply-IsBounded :
    {W : Type 0} (m : Managers W) (on : Bool) (actions : List Action) (w : W) (s : State)
    → IsBounded s
    → IsBounded (apply m on actions w s).1
apply-IsBounded m on actions w s = (apply-Steady m on actions w s).bounded
