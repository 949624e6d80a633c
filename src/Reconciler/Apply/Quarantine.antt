-- ===== src/Reconciler/Apply/Quarantine.antt =====
-- Three failing cycles in a row put a tailnet into the error state.
use hydrascale.Common.{
  ◌+◌, ◌≤◌, Bool, true, false, ◌&&◌, ◌||◌, ◌≡◌, refl, sym, ◌∙◌, List, [], ◌∷◌, any, mem, nodup,
  Text, text_eq, ◌==◌, ==_iff, ==_refl, if◌then◌else◌, leb, le→leb, Map, keys, mem-keys, lookup,
  or_default, Bool-cases, inl, inr, arith,
}
use hydrascale.Reconciler.{State, flag, max_failures, record_failure, clear_failure}
use hydrascale.Reconciler.Plan.{Action}
use hydrascale.Reconciler.Plan.Independent.{is_of}
use hydrascale.Reconciler.Execute.{Managers, execute_action}
use hydrascale.Reconciler.Execute.Kept.{Kept}
use hydrascale.Reconciler.Apply.{Cycle, note_outcome, run_actions, tailnets_seen, settle, apply}
use hydrascale.Reconciler.Apply.Counting.{
  fails, count, run_actions-Kept, run_actions-flag, lookup-tailnets_seen, tailnets_seen-nodup,
  record_failure_own, record_failure_other, clear_failure-count,
}

or_false : (b : Bool) → (b || false) ≡ b
or_false b = ground arith

module _ (failures : Map Text Bool) (errors : Map Text Text) where
  settle_one : Text → State → State
  settle_one id s =
      if flag id failures
      then record_failure id (or_default (lookup id errors) []) s
      else clear_failure id s

  settle_one_other :
      (id j : Text) (s : State)
      → (j == id) ≡ false
      → (count id (settle_one j s) ≡ count id s)
        × (flag id (settle_one j s).error_states ≡ flag id s.error_states)
  unfolding settle_one clear_failure
  settle_one_other id j s other = elim (Bool-cases (flag j failures)) [
    | inl failed ↦ rw failed (record_failure_other id j (or_default (lookup j errors) []) s other)
    | inr passed ↦ rw passed (clear_failure-count id j s ∙ rw other refl, refl)
  ]

  settle_one_own :
      (id : Text) (s : State)
      → (count id (settle_one id s) ≡ (if flag id failures then count id s + 1 else 0))
        × (flag id (settle_one id s).error_states
            ≡ ((flag id failures && leb max_failures (count id s + 1)) || flag id s.error_states))
  unfolding settle_one clear_failure
  settle_one_own id s = elim (Bool-cases (flag id failures)) [
    | inl failed ↦ rw failed (record_failure_own id (or_default (lookup id errors) []) s)
    | inr passed ↦ rw passed (clear_failure-count id id s ∙ rw (==_refl id) refl, refl)
  ]

  settle_absent :
      (id : Text) (ids : List Text) (s : State)
      → mem id ids ≡ false
      → (count id (settle failures errors ids s) ≡ count id s)
        × (flag id (settle failures errors ids s).error_states ≡ flag id s.error_states)
  unfolding settle settle_one
  settle_absent id [] s h = (refl, refl)
  settle_absent id (j ∷ ids) s h =
      let (c, e) = settle_one_other id j s (ground (arith, h)) in
      let (cs, es) = settle_absent id ids (settle_one j s) (ground (arith, h)) in (cs ∙ c, es ∙ e)

  settle_present :
      (id : Text) (ids : List Text) (s : State)
      → nodup ids ≡ true
      → mem id ids ≡ true
      → (count id (settle failures errors ids s) ≡ (if flag id failures then count id s + 1 else 0))
        × (flag id (settle failures errors ids s).error_states
            ≡ ((flag id failures && leb max_failures (count id s + 1)) || flag id s.error_states))
  unfolding settle settle_one
  settle_present id [] s d h = absurd (ground (arith, h))
  settle_present id (j ∷ ids) s d h = elim (Bool-cases (j == id)) [
    | inl here ↦
        let e : j ≡ id = (==_iff j id).0 here in
        let fresh : mem id ids ≡ false = rw (sym e) (ground (arith, d)) in
        let (c, f) = settle_one_own id s in
        let (cs, fs) = settle_absent id ids (settle_one id s) fresh in rw e (cs ∙ c, fs ∙ f)
    | inr other ↦
        let (c, f) = settle_one_other id j s other in
        let (cs, fs) =
          settle_present id ids (settle_one j s) (ground (arith, d)) (ground (arith, h, other)) in
        (cs ∙ rw c refl, fs ∙ rw (c, f) refl)
  ]

module _ {W : Type 0} (m : Managers W) (on : Bool) where
  -- The variables of Apply before its first action.
  abbrev pub start_cycle : W → State → Cycle W
  start_cycle w s = record { host = w; state = s; failures = []; errors = [] }

  -- After Apply, the failure count of a tailnet that had an action is one more where one of its
  -- actions failed and zero otherwise, and the tailnet is in the error state where it was there
  -- before or the failing cycle brought its count to three.
  pub apply_counts :
      (id : Text) (actions : List Action) (w : W) (s : State)
      → any (is_of id) actions ≡ true
      → (count id (apply m on actions w s).1
          ≡ (if fails m on id actions (start_cycle w s) then count id s + 1 else 0))
        × (flag id (apply m on actions w s).1.error_states ≡ (
            (fails m on id actions (start_cycle w s) && leb max_failures (count id s + 1))
            || flag id s.error_states))
  unfolding apply lookup
  apply_counts id actions w s had =
      let c = run_actions m on actions (start_cycle w s) in
      let kept : Kept s c.state = run_actions-Kept m on actions (start_cycle w s) in
      let ids = keys (tailnets_seen actions []) in
      let here : mem id ids ≡ true =
        mem-keys id (tailnets_seen actions []) ∙ lookup-tailnets_seen id actions [] ∙ rw had refl in
      let (cs, es) =
        settle_present c.failures c.errors id ids c.state (tailnets_seen-nodup actions [] refl)
          here in
      let marked : flag id c.failures ≡ fails m on id actions (start_cycle w s) =
        run_actions-flag m on id actions (start_cycle w s)
        ∙ or_false (fails m on id actions (start_cycle w s)) in
      (
        cs ∙ rw (marked, kept.failure_counts) refl,
        es ∙ rw (marked, kept.failure_counts, kept.error_states) refl,
      )

  fails-any :
      (id : Text) (actions : List Action) (c : Cycle W)
      → fails m on id actions c ≡ true
      → any (is_of id) actions ≡ true
  unfolding fails
  fails-any id [] c h = h
  fails-any id (a ∷ actions) c h =
      let (w, s, failed) = execute_action m on a c.host c.state in
      ground (arith, h, fails-any id actions (note_outcome a w s failed c))

  apply_failed :
      (id : Text) (actions : List Action) (w : W) (s : State)
      → fails m on id actions (start_cycle w s) ≡ true
      → (count id (apply m on actions w s).1 ≡ count id s + 1)
        × (flag id (apply m on actions w s).1.error_states
            ≡ (leb max_failures (count id s + 1) || flag id s.error_states))
  apply_failed id actions w s h =
      let (c, e) = apply_counts id actions w s (fails-any id actions (start_cycle w s) h) in
      (c ∙ rw h refl, e ∙ rw h refl)

  -- What the next Apply starts from.
  abbrev pub next_cycle : List Action → Cycle W → Cycle W
  next_cycle actions c = let (w, s) = apply m on actions c.host c.state in start_cycle w s

  -- Three cycles in a row in which an action of a tailnet fails put the tailnet into the error state.
  pub apply_three :
      (id : Text) (one two three : List Action) (w : W) (s : State)
      → fails m on id one (start_cycle w s) ≡ true
      → fails m on id two (next_cycle one (start_cycle w s)) ≡ true
      → fails m on id three (next_cycle two (next_cycle one (start_cycle w s))) ≡ true
      → flag id
          (next_cycle three (next_cycle two (next_cycle one (start_cycle w s)))).state.error_states
        ≡ true
  apply_three id one two three w s f g h =
      let (w1, s1) = apply m on one w s in
      let (w2, s2) = apply m on two w1 s1 in
      let (c1, e1) = apply_failed id one w s f in
      let (c2, e2) = apply_failed id two w1 s1 g in
      let (c3, e3) = apply_failed id three w2 s2 h in
      let three_up : max_failures ≤ count id s2 + 1 = omega (arith, c1, c2) in
      e3 ∙ rw (le→leb max_failures (count id s2 + 1) three_up) refl
