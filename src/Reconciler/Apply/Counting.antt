-- ===== src/Reconciler/Apply/Counting.antt =====
-- The failure counts and the error states after Apply.
use hydrascale.Common.{
  ℕ, ◌+◌, Bool, true, false, ◌&&◌, ◌||◌, ◌≡◌, refl, ◌∙◌, Option, none, some, List, [], ◌∷◌, any,
  nodup, Text, text_eq, ◌==◌, ==_refl, if◌then◌else◌, leb, Map, keys, lookup, put, nodup-keys-put,
  lookup-put, or_default, is_some, arith,
}
use hydrascale.Reconciler.{State, flag, max_failures, emit, record_failure, clear_failure}
use hydrascale.Reconciler.Plan.{Action}
use hydrascale.Reconciler.Plan.Independent.{is_of}
use hydrascale.Reconciler.Execute.{Managers, execute_action}
use hydrascale.Reconciler.Execute.Kept.{Kept, Kept-refl, execute_action-Kept}
use hydrascale.Reconciler.Apply.{Cycle, note_outcome, run_actions, tailnets_seen}

Kept-trans : (s t u : State) → Kept s t → Kept t u → Kept s u
Kept-trans s t u f g = record {
  failure_counts = g.failure_counts ∙ f.failure_counts;
  error_states = g.error_states ∙ f.error_states;
  paused_states = g.paused_states ∙ f.paused_states;
  last_errors = g.last_errors ∙ f.last_errors;
}

module _ {W : Type 0} (m : Managers W) (on : Bool) where
  -- Some action of the tailnet answers an error in this run.
  unfoldable pub fails : Text → List Action → Cycle W → Bool
  fails id [] c = false
  fails id (a ∷ actions) c =
      let (w, s, failed) = execute_action m on a c.host c.state in
      let rest = fails id actions (note_outcome a w s failed c) in
      (a.tailnet == id && is_some failed) || rest

  note_outcome-Kept :
      (a : Action) (w : W) (s : State) (failed : Option Text) (c : Cycle W)
      → Kept s (note_outcome a w s failed c).state
  unfolding note_outcome emit
  note_outcome-Kept a w s none c = record {
    failure_counts = refl;
    error_states = refl;
    paused_states = refl;
    last_errors = refl;
  }
  note_outcome-Kept a w s (some e) c = record {
    failure_counts = refl;
    error_states = refl;
    paused_states = refl;
    last_errors = refl;
  }

  note_outcome-flag :
      (id : Text) (a : Action) (w : W) (s : State) (failed : Option Text) (c : Cycle W)
      → flag id (note_outcome a w s failed c).failures
        ≡ ((a.tailnet == id && is_some failed) || flag id c.failures)
  unfolding note_outcome
  note_outcome-flag id a w s none c = ground arith
  note_outcome-flag id a w s (some e) c =
      rw (lookup-put a.tailnet id true c.failures) (ground arith)

  pub run_actions-Kept :
      (actions : List Action) (c : Cycle W) → Kept c.state (run_actions m on actions c).state
  unfolding run_actions
  run_actions-Kept [] c = Kept-refl c.state
  run_actions-Kept (a ∷ actions) c =
      let (w, s, failed) = execute_action m on a c.host c.state in
      let next = note_outcome a w s failed c in
      Kept-trans c.state s (run_actions m on actions next).state
        (execute_action-Kept m on a c.host c.state)
        (Kept-trans s next.state (run_actions m on actions next).state
          (note_outcome-Kept a w s failed c) (run_actions-Kept actions next))

  pub run_actions-flag :
      (id : Text) (actions : List Action) (c : Cycle W)
      → flag id (run_actions m on actions c).failures ≡ (fails id actions c || flag id c.failures)
  unfolding run_actions fails
  run_actions-flag id [] c = refl
  run_actions-flag id (a ∷ actions) c =
      let (w, s, failed) = execute_action m on a c.host c.state in
      let next = note_outcome a w s failed c in
      ground (arith, run_actions-flag id actions next, note_outcome-flag id a w s failed c)

pub lookup-tailnets_seen :
    (id : Text) (actions : List Action) (seen : Map Text Bool)
    → is_some (lookup id (tailnets_seen actions seen))
      ≡ (any (is_of id) actions || is_some (lookup id seen))
unfolding tailnets_seen
lookup-tailnets_seen id [] seen = refl
lookup-tailnets_seen id (a ∷ actions) seen = ground (
  arith,
  lookup-tailnets_seen id actions (put a.tailnet true seen),
  lookup-put a.tailnet id true seen,
)

pub tailnets_seen-nodup :
    (actions : List Action) (seen : Map Text Bool)
    → nodup (keys seen) ≡ true
    → nodup (keys (tailnets_seen actions seen)) ≡ true
unfolding tailnets_seen
tailnets_seen-nodup [] seen h = h
tailnets_seen-nodup (a ∷ actions) seen h =
    tailnets_seen-nodup actions (put a.tailnet true seen) (nodup-keys-put a.tailnet true seen h)

-- The failure count that a tailnet had.
abbrev pub count : Text → State → ℕ
count id s = or_default (lookup id s.failure_counts) 0

pub record_failure_other :
    (id j message : Text) (s : State)
    → (j == id) ≡ false
    → (count id (record_failure j message s) ≡ count id s)
      × (flag id (record_failure j message s).error_states ≡ flag id s.error_states)
unfolding record_failure
record_failure_other id j message s other = (
  rw (lookup-put j id (count j s + 1) s.failure_counts) (rw other refl),
  ground (arith, other, lookup-put j id true s.error_states),
)

pub record_failure_own :
    (id message : Text) (s : State)
    → (count id (record_failure id message s) ≡ count id s + 1)
      × (flag id (record_failure id message s).error_states
          ≡ (leb max_failures (count id s + 1) || flag id s.error_states))
unfolding record_failure
record_failure_own id message s = (
  rw (lookup-put id id (count id s + 1) s.failure_counts, ==_refl id) refl,
  ground (arith, ==_refl id, lookup-put id id true s.error_states),
)

pub clear_failure-count :
    (id j : Text) (s : State) → count id (clear_failure j s) ≡ (if j == id then 0 else count id s)
unfolding clear_failure
clear_failure-count id j s = ground (arith, lookup-put j id 0 s.failure_counts)
