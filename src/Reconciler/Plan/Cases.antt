-- ===== src/Reconciler/Plan/Cases.antt =====
-- The plans that the operator relies on: a held tailnet, a settled one, a restarted one.
use hydrascale.Common.{
  true, false, ◌||◌, ◌≡◌, refl, ◌∙◌, some, [], ◌∷◌, Text, text_eq, nodup, Map, keys, lookup,
  Bool-cases, inl, inr, arith,
}
use hydrascale.Config.{Tailnet, Config, tailnet_host_access}
use hydrascale.Reconciler.{State, flag, dns_refresh_waits}
use hydrascale.Reconciler.Plan.{
  TailnetState, Tick, plain, sync_routes, sync_host_access, branch, healthy_actions, diff_tailnet,
  diff,
}
use hydrascale.Reconciler.Plan.Independent.{of}
use hydrascale.Reconciler.Plan.PerTailnet.{diff-planned}

module _ (tick : Tick) (desired : Map Text Tailnet) (actual : Map Text TailnetState) (s : State)
    (id : Text) (wanted : nodup (keys desired) ≡ true) (held : nodup (keys actual) ≡ true) where
  pub diff_declared :
      (tn : Tailnet)
      → lookup id desired ≡ some tn
      → of id (diff tick desired actual s).1 ≡ (diff_tailnet tick actual id tn s).1
  diff_declared tn found = diff-planned tick desired actual s id wanted held ∙ rw found refl

  -- A declared tailnet in the error state, or one that the operator paused, gets no action.
  pub diff_idle :
      (tn : Tailnet)
      → lookup id desired ≡ some tn
      → (flag id s.error_states || flag id s.paused_states) ≡ true
      → of id (diff tick desired actual s).1 ≡ []
  unfolding diff_tailnet
  diff_idle tn found idle = diff_declared tn found ∙ elim (Bool-cases (flag id s.error_states)) [
    | inl broken ↦ rw broken refl
    | inr working ↦
        let paused : flag id s.paused_states ≡ true = ground (arith, working, idle) in
        rw (working, paused) refl
  ]

  module _ (tn : Tailnet) (found : lookup id desired ≡ some tn)
      (working : flag id s.error_states ≡ false) (running : flag id s.paused_states ≡ false)
      (state : TailnetState) (there : lookup id actual ≡ some state)
      (exists : state.exists ≡ true) where
    -- A healthy tailnet with host access that waits for no DNS refresh gets the two periodic syncs.
    pub diff_settled :
        (cfg : Config)
        → tick.loaded ≡ some cfg
        → tailnet_host_access cfg id ≡ true
        → state.healthy ≡ true
        → dns_refresh_waits id s ≡ false
        → of id (diff tick desired actual s).1
          ≡ plain sync_routes id (tick.get_name id)
            ∷ plain sync_host_access id (tick.get_name id)
            ∷ []
    unfolding diff_tailnet branch healthy_actions
    diff_settled cfg loaded on healthy waits =
        diff_declared tn found
        ∙ rw (working, running) (rw there (rw (exists, healthy) (rw (waits, loaded) (rw on refl))))
