-- ===== src/Reconciler/Plan/Independent.antt =====
-- The plan of one tailnet does not depend on the others.
use hydrascale.Common.{
  Bool, true, false, ◌≡◌, refl, sym, ◌∙◌, Option, none, some, List, [], ◌∷◌, ◌++◌, append-nil, Text,
  text_eq, ◌==◌, ==_iff, ==_refl, if◌then◌else◌, keep, all, mem, nodup, Map, keys, lookup,
  lookup-put, Bool-cases, Option-cases, inl, inr, arith,
}
use hydrascale.Config.{Tailnet}
use hydrascale.Reconciler.{
  State, flag, host_access_rules_present, dns_refresh_waits, set_dns_refresh_pending,
}
use hydrascale.Reconciler.Plan.{
  Action, TailnetState, Tick, branch, create_actions, healthy_actions, diff_tailnet, diff_desired,
}

abbrev pub is_of : Text → Action → Bool
is_of id a = a.tailnet == id

-- The actions of one tailnet in a plan.
abbrev pub of : Text → List Action → List Action
of id actions = keep (is_of id) actions

pub of-append : (id : Text) (xs ys : List Action) → of id (xs ++ ys) ≡ of id xs ++ of id ys
of-append id [] ys = refl
of-append id (x ∷ xs) ys = ground (arith, of-append id xs ys)

-- A list of actions of one tailnet, read for a tailnet.
of_own :
    (id j : Text) (actions : List Action)
    → all (is_of id) actions ≡ true
    → of j actions ≡ (if id == j then actions else [])
of_own id j [] h = ground arith
of_own id j (a ∷ actions) h =
    ground (arith, h, of_own id j actions, ==_iff a.tailnet id, ==_iff a.tailnet j, ==_iff id j)

branch_own :
    (tick : Tick) (id : Text) (tn : Tailnet) (state : Option TailnetState) (s : State)
    → all (is_of id) (branch tick id tn state s).1 ≡ true
unfolding branch create_actions healthy_actions
branch_own tick id tn none s = ground (arith, ==_refl id)
branch_own tick id tn (some state) s = elim (Option-cases tick.loaded) [
  | inl unread ↦ rw unread (ground (arith, ==_refl id))
  | inr (cfg, loaded) ↦ rw loaded (ground (arith, ==_refl id))
]

diff_tailnet_own :
    (tick : Tick) (actual : Map Text TailnetState) (id : Text) (tn : Tailnet) (s : State)
    → all (is_of id) (diff_tailnet tick actual id tn s).1 ≡ true
unfolding diff_tailnet
diff_tailnet_own tick actual id tn s = ground (arith, branch_own tick id tn (lookup id actual) s)

-- Two states that agree on what Diff reads for a tailnet.
pub record Agree (id : Text) (s t : State) : Type 0 where
  error_states : flag id t.error_states ≡ flag id s.error_states
  paused_states : flag id t.paused_states ≡ flag id s.paused_states
  pending : dns_refresh_waits id t ≡ dns_refresh_waits id s
  rules : host_access_rules_present id t ≡ host_access_rules_present id s

pub Agree-refl : (id : Text) (s : State) → Agree id s s
Agree-refl id s = record { error_states = refl; paused_states = refl; pending = refl; rules = refl }

set_dns_refresh_pending-Agree :
    (id j : Text) (s : State) → (id == j) ≡ false → Agree j s (set_dns_refresh_pending id true s)
unfolding set_dns_refresh_pending dns_refresh_waits host_access_rules_present
set_dns_refresh_pending-Agree id j s other = record {
  error_states = refl;
  paused_states = refl;
  pending = rw (lookup-put id j true s.dns_refresh_pending) (rw other refl);
  rules = refl;
}

branch-Agree :
    (tick : Tick) (id j : Text) (tn : Tailnet) (state : Option TailnetState) (s : State)
    → (id == j) ≡ false
    → Agree j s (branch tick id tn state s).0
unfolding branch
branch-Agree tick id j tn none s other = Agree-refl j s
branch-Agree tick id j tn (some state) s other = elim (Bool-cases state.exists) [
  | inr absent ↦ rw absent (Agree-refl j s)
  | inl there ↦ elim (Bool-cases state.healthy) [
    | inl up ↦ rw (there, up) (Agree-refl j s)
    | inr down ↦ rw (there, down) (set_dns_refresh_pending-Agree id j s other)
  ]
]

diff_tailnet-Agree :
    (tick : Tick) (actual : Map Text TailnetState) (id j : Text) (tn : Tailnet) (s : State)
    → (id == j) ≡ false
    → Agree j s (diff_tailnet tick actual id tn s).0
unfolding diff_tailnet
diff_tailnet-Agree tick actual id j tn s other = elim (Bool-cases (flag id s.error_states)) [
  | inl broken ↦ rw broken (Agree-refl j s)
  | inr working ↦ elim (Bool-cases (flag id s.paused_states)) [
    | inl paused ↦ rw (working, paused) (Agree-refl j s)
    | inr running ↦ rw (working, running) (branch-Agree tick id j tn (lookup id actual) s other)
  ]
]

healthy_actions_ext :
    (tick : Tick) (id : Text) (s t : State)
    → Agree id s t
    → healthy_actions tick id t ≡ healthy_actions tick id s
unfolding healthy_actions
healthy_actions_ext tick id s t same = elim (Option-cases tick.loaded) [
  | inl unread ↦ rw (unread, same.pending) refl
  | inr (cfg, loaded) ↦ rw (loaded, same.pending, same.rules) refl
]

branch_ext :
    (tick : Tick) (id : Text) (tn : Tailnet) (state : Option TailnetState) (s t : State)
    → Agree id s t
    → (branch tick id tn state t).1 ≡ (branch tick id tn state s).1
unfolding branch
branch_ext tick id tn none s t same = refl
branch_ext tick id tn (some state) s t same = elim (Bool-cases state.exists) [
  | inr absent ↦ rw absent refl
  | inl there ↦ elim (Bool-cases state.healthy) [
    | inl up ↦ rw (there, up) (healthy_actions_ext tick id s t same)
    | inr down ↦ rw (there, down) refl
  ]
]

-- Diff plans the same actions for a tailnet in two states that agree on it.
diff_tailnet_ext :
    (tick : Tick) (actual : Map Text TailnetState) (id : Text) (tn : Tailnet) (s t : State)
    → Agree id s t
    → (diff_tailnet tick actual id tn t).1 ≡ (diff_tailnet tick actual id tn s).1
unfolding diff_tailnet
diff_tailnet_ext tick actual id tn s t same = elim (Bool-cases (flag id s.error_states)) [
  | inl broken ↦ rw (same.error_states, broken) refl
  | inr working ↦ elim (Bool-cases (flag id s.paused_states)) [
    | inl paused ↦ rw (same.error_states, working, same.paused_states, paused) refl
    | inr running ↦
        rw (same.error_states, working, same.paused_states, running)
          (branch_ext tick id tn (lookup id actual) s t same)
  ]
]

Agree-trans : (id : Text) (s t u : State) → Agree id s t → Agree id t u → Agree id s u
Agree-trans id s t u f g = record {
  error_states = g.error_states ∙ f.error_states;
  paused_states = g.paused_states ∙ f.paused_states;
  pending = g.pending ∙ f.pending;
  rules = g.rules ∙ f.rules;
}

diff_desired-absent :
    (tick : Tick) (actual : Map Text TailnetState) (id : Text) (desired : Map Text Tailnet)
    (t : State)
    → mem id (keys desired) ≡ false
    → of id (diff_desired tick actual desired t).1 ≡ []
unfolding diff_desired
diff_desired-absent tick actual id [] t absent = refl
diff_desired-absent tick actual id ((j, tn) ∷ desired) t absent =
    let (next, actions) = diff_tailnet tick actual j tn t in
    let rest = diff_desired-absent tick actual id desired next (ground (arith, absent)) in
    let own = of_own j id actions (diff_tailnet_own tick actual j tn t) in
    let split = of-append id actions (diff_desired tick actual desired next).1 in
    let other : (j == id) ≡ false = ground (arith, absent) in split ∙ rw (own, rest, other) refl

-- The actions that a desired tailnet gets, whatever the others are.
abbrev pub planned : Tick → Map Text TailnetState → State → Text → Option Tailnet → List Action
planned tick actual s id none = []
planned tick actual s id (some tn) = (diff_tailnet tick actual id tn s).1

pub diff_desired-planned :
    (tick : Tick) (actual : Map Text TailnetState) (id : Text) (desired : Map Text Tailnet)
    (s t : State)
    → nodup (keys desired) ≡ true
    → Agree id s t
    → of id (diff_desired tick actual desired t).1 ≡ planned tick actual s id (lookup id desired)
unfolding diff_desired lookup
diff_desired-planned tick actual id [] s t distinct same = refl
diff_desired-planned tick actual id ((j, tn) ∷ desired) s t distinct same =
    let (next, actions) = diff_tailnet tick actual j tn t in
    let later = (diff_desired tick actual desired next).1 in
    let own = of_own j id actions (diff_tailnet_own tick actual j tn t) in
    let split = of-append id actions later in
    elim (Bool-cases (j == id)) [
      | inl here ↦
          let e : j ≡ id = (==_iff j id).0 here in
          let fresh : mem id (keys desired) ≡ false = rw (sym e) (ground (arith, distinct)) in
          let rest = diff_desired-absent tick actual id desired next fresh in
          let ext = diff_tailnet_ext tick actual id tn s t same in
          split ∙ rw (own, rest, here, append-nil actions) (rw e ext)
      | inr other ↦
          let kept =
            Agree-trans id s t next same (diff_tailnet-Agree tick actual j id tn t other) in
          let rest =
            diff_desired-planned tick actual id desired s next (ground (arith, distinct)) kept in
          split ∙ rw (own, other) rest
    ]
