-- ===== src/Reconciler/Plan/PerTailnet.antt =====
-- What Diff plans for one tailnet.
use hydrascale.Common.{
  true, false, ◌≡◌, refl, sym, ◌∙◌, Option, none, some, List, [], ◌∷◌, append-nil, Text, text_eq,
  ◌==◌, ==_iff, ==_refl, if◌then◌else◌, mem, nodup, Map, keys, lookup, is_some, Bool-cases,
  Option-cases, inl, inr, arith,
}
use hydrascale.Config.{Tailnet}
use hydrascale.Reconciler.{State}
use hydrascale.Reconciler.Plan.{
  Action, TailnetState, Tick, plain, stop_daemon, delete_namespace, diff_tailnet, diff_desired,
  diff_actual, diff,
}
use hydrascale.Reconciler.Plan.Independent.{
  of, of-append, planned, diff_desired-planned, Agree-refl,
}

-- The removal of a tailnet of the host.
abbrev pub removed : Text → Option TailnetState → List Action
removed id none = []
removed id (some state) =
    plain stop_daemon id state.namespace ∷ plain delete_namespace id state.namespace ∷ []

diff_actual-absent :
    (id : Text) (desired : Map Text Tailnet) (actual : Map Text TailnetState)
    → mem id (keys actual) ≡ false
    → of id (diff_actual desired actual) ≡ []
unfolding diff_actual
diff_actual-absent id desired [] absent = refl
diff_actual-absent id desired ((j, state) ∷ actual) absent =
    ground (arith, absent, diff_actual-absent id desired actual)

diff_actual-removed :
    (id : Text) (desired : Map Text Tailnet) (actual : Map Text TailnetState)
    → nodup (keys actual) ≡ true
    → of id (diff_actual desired actual)
      ≡ (if is_some (lookup id desired) then [] else removed id (lookup id actual))
unfolding diff_actual lookup
diff_actual-removed id desired [] distinct = ground arith
diff_actual-removed id desired ((j, state) ∷ actual) distinct = elim (Bool-cases (j == id)) [
  | inr other ↦
      let rest = diff_actual-removed id desired actual (ground (arith, distinct)) in
      ground (arith, rest, other)
  | inl here ↦
      let e : j ≡ id = (==_iff j id).0 here in
      let fresh : mem id (keys actual) ≡ false = rw (sym e) (ground (arith, distinct)) in
      let rest = diff_actual-absent id desired actual fresh in
      rw (sym e) (rw e (ground (arith, rest, ==_refl id)))
]

-- What Diff plans for a tailnet: what the loop over the declared tailnets plans from the state at the
-- start of the tick, where the tailnet is declared, and its removal otherwise. The keys of a map are
-- distinct.
pub diff-planned :
    (tick : Tick) (desired : Map Text Tailnet) (actual : Map Text TailnetState) (s : State)
    (id : Text)
    → nodup (keys desired) ≡ true
    → nodup (keys actual) ≡ true
    → of id (diff tick desired actual s).1 ≡ (
        if is_some (lookup id desired)
        then planned tick actual s id (lookup id desired)
        else removed id (lookup id actual))
unfolding diff
diff-planned tick desired actual s id wanted held =
    let first = (diff_desired tick actual desired s).1 in
    let split = of-append id first (diff_actual desired actual) in
    let one = diff_desired-planned tick actual id desired s s wanted (Agree-refl id s) in
    let two = diff_actual-removed id desired actual held in
    elim (Option-cases (lookup id desired)) [
      | inl gone ↦ split ∙ rw (one, two) (rw gone refl)
      | inr (tn, found) ↦
          split ∙ rw (one, two) (rw found (append-nil ((diff_tailnet tick actual id tn s).1)))
    ]
