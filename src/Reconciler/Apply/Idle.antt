-- ===== src/Reconciler/Apply/Idle.antt =====
-- A tailnet that failed three cycles in a row is left alone.
use hydrascale.Common.{
  Bool, true, ◌≡◌, some, List, [], Text, text_eq, nodup, Map, keys, lookup, arith,
}
use hydrascale.Config.{Tailnet}
use hydrascale.Reconciler.{State}
use hydrascale.Reconciler.Plan.{Action, TailnetState, Tick, diff}
use hydrascale.Reconciler.Plan.Independent.{of}
use hydrascale.Reconciler.Plan.Cases.{diff_idle}
use hydrascale.Reconciler.Execute.{Managers}
use hydrascale.Reconciler.Apply.Counting.{fails}
use hydrascale.Reconciler.Apply.Quarantine.{start_cycle, next_cycle, apply_three}

module _ {W : Type 0} (m : Managers W) (on : Bool) where
  abbrev pub after_three : List Action → List Action → List Action → W → State → State
  after_three one two three w s =
      (next_cycle m on three
        (next_cycle m on two (next_cycle m on one (start_cycle m on w s)))).state

  -- Three cycles in a row in which an action of a declared tailnet fails: Diff then plans nothing for
  -- the tailnet, whatever the host looks like. The keys of a map are distinct.
  pub three_failures_idle :
      (tick : Tick) (desired : Map Text Tailnet) (actual : Map Text TailnetState) (id : Text)
      (tn : Tailnet) (one two three : List Action) (w : W) (s : State)
      → nodup (keys desired) ≡ true
      → nodup (keys actual) ≡ true
      → lookup id desired ≡ some tn
      → fails m on id one (start_cycle m on w s) ≡ true
      → fails m on id two (next_cycle m on one (start_cycle m on w s)) ≡ true
      → fails m on id three (next_cycle m on two (next_cycle m on one (start_cycle m on w s)))
        ≡ true
      → of id (diff tick desired actual (after_three one two three w s)).1 ≡ []
  three_failures_idle tick desired actual id tn one two three w s wanted held found f g h =
      diff_idle tick desired actual (after_three one two three w s) id wanted held tn found
        (ground (arith, apply_three m on id one two three w s f g h))
