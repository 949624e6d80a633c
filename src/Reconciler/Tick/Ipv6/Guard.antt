-- ===== src/Reconciler/Tick/Ipv6/Guard.antt =====
-- The guard of the IPv6 chains, and the order of their write and the forwarding.
use hydrascale.Common.{
  true, false, ◌≡◌, refl, sym, ap, ◌∙◌, Option, none, some, List, [], ◌∷◌, map, Text, txt, text_eq,
  ◌==◌, ==_iff, ==_refl, Map, ok, Bool-cases, Result-cases, inl, inr, arith,
}
use hydrascale.Access.Compile.{TopologyIpv6, Tail, guard_rule, tail_for_mode, compile_ipv6}
use hydrascale.Access.Compile.Guard.{compile_ipv6-guard}
use hydrascale.Access.Rules.{effective_mode}
use hydrascale.Access.Writer.{Host}
use hydrascale.Access.Writer.Commands.{apply_rules}
use hydrascale.Config.{Tailnet}
use hydrascale.Reconciler.{State, emit}
use hydrascale.Reconciler.Plan.{TailnetState}
use hydrascale.Reconciler.Env.{Env, Ipv6Host, Ipv6Keys}
use hydrascale.Reconciler.Tick.Rules.{AccessInput}
use hydrascale.Reconciler.Tick.Ipv6.{
  Ipv6Plan, force_mode, all_mode, union, is_nil, guarded, closed_plan, compile_plan, open_plan,
  decide, plan_for, plan_ipv6, enable_force, enable_ipv6_forwarding, after_chains, write_ipv6,
  note_ipv6_state, follow_plan, drive_ipv6, apply_ipv6, empty_plan,
}

-- What a plan that forces the forwarding on a host that did not forward guards.
abbrev IsGuarded : State → Ipv6Plan → Type 0
IsGuarded s plan =
    plan.mode ≡ force_mode
    → plan.host.forwarding ≡ false
    → plan.compiled.guard ≡ map guard_rule (union s.forced_upstreams plan.host.upstreams)

module _ {W : Type 0} (env : Env W) (input : AccessInput) (s : State) (plan : Ipv6Plan) where
  compile_plan-IsGuarded :
      (mode : Text) (h : Ipv6Host) (tail : Tail)
      → compile_plan env mode input h tail s ≡ ok plan
      → IsGuarded s plan
  unfolding compile_plan guarded
  compile_plan-IsGuarded mode h tail e forced quiet =
      elim (Result-cases (
        compile_ipv6 env.net input.set
          (record {
            devices = input.devices;
            ports = input.ports;
            host_prefixes = h.prefixes;
            guarded_upstreams = guarded mode h s;
          })
          tail)) [
            | inr (f, failed) ↦ absurd (ground (arith, e, failed))
            | inl (c, done) ↦
                let topo : TopologyIpv6 = record {
                  devices = input.devices;
                  ports = input.ports;
                  host_prefixes = h.prefixes;
                  guarded_upstreams = guarded mode h s;
                } in
                let made : Ipv6Plan = record { mode = mode; reason = []; host = h; compiled = c } in
                let same : made ≡ plan = ground (arith, e, done) in
                let mine : mode ≡ force_mode = ap (λ (p : Ipv6Plan). p.mode) same ∙ forced in
                let still : h.forwarding ≡ false =
                  ap (λ (p : Ipv6Plan). p.host.forwarding) same ∙ quiet in
                let all : guarded mode h s ≡ union s.forced_upstreams h.upstreams =
                  rw (mine, still, guarded, ==_refl force_mode) refl in
                rw (← same) (compile_ipv6-guard env.net input.set topo tail c done ∙ rw all refl)
          ]

  open_plan-IsGuarded :
      (mode : Text) (h : Ipv6Host) → open_plan env mode input h s ≡ ok plan → IsGuarded s plan
  unfolding open_plan
  open_plan-IsGuarded mode h e = elim (Result-cases (tail_for_mode (effective_mode input.set))) [
    | inr (f, failed) ↦ absurd (ground (arith, e, failed))
    | inl (tail, found) ↦ compile_plan-IsGuarded mode h tail (ground (arith, e, found))
  ]

  closed-IsGuarded : (made : Ipv6Plan) → made.mode ≡ [] → made ≡ plan → IsGuarded s plan
  closed-IsGuarded made off same forced quiet =
      absurd (ground (arith, sym off ∙ (ap (λ (p : Ipv6Plan). p.mode) same ∙ forced)))

  decide-IsGuarded : (h : Ipv6Host) → decide env input h s ≡ ok plan → IsGuarded s plan
  unfolding decide closed_plan
  decide-IsGuarded h e = elim (Bool-cases (is_nil h.upstreams)) [
    | inl bare ↦
        let made = closed_plan h (txt "the host holds no IPv6 default route") in
        closed-IsGuarded made refl (ground (arith, e, bare))
    | inr some_held ↦ elim (Bool-cases h.force_forwarding) [
      | inl can ↦ open_plan-IsGuarded force_mode h (ground (arith, e, some_held, can))
      | inr cannot ↦ elim (Bool-cases input.ipv6) [
        | inl wanted ↦ open_plan-IsGuarded all_mode h (ground (arith, e, some_held, cannot, wanted))
        | inr unwanted ↦
            let made = closed_plan h (
              txt
                "the kernel holds no force_forwarding, and the configuration file does not set ipv6: true") in
            closed-IsGuarded made refl (ground (arith, e, some_held, cannot, unwanted))
      ]
    ]
  ]

  plan_for-IsGuarded :
      (keys : Option (Ipv6Keys W)) (writer : Option (Host W)) (w : W)
      → plan_for env keys writer input w s ≡ ok plan
      → IsGuarded s plan
  unfolding plan_for
  plan_for-IsGuarded none writer w e = closed-IsGuarded empty_plan refl (ground (arith, e))
  plan_for-IsGuarded (some keys) none w e = closed-IsGuarded empty_plan refl (ground (arith, e))
  plan_for-IsGuarded (some keys) (some writer) w e = elim (Result-cases (keys.read_ipv6_host w)) [
    | inr (f, failed) ↦ absurd (ground (arith, e, failed))
    | inl (h, read) ↦ decide-IsGuarded h (ground (arith, e, read))
  ]

module _ {W : Type 0} (env : Env W) (keys : Ipv6Keys W) where
  enable_force-forced :
      (plan : Ipv6Plan) (w : W) (s : State)
      → (enable_force env keys plan w s).2 ≡ true
      → (enable_force env keys plan w s).1.forced_upstreams
        ≡ union s.forced_upstreams plan.host.upstreams
  unfolding enable_force emit
  enable_force-forced plan w s done = ground (arith, done)

  -- Where the plan of a tick forces the forwarding of the upstream devices on a host that did not
  -- forward before, and the forwarding was turned on, the chains of the plan hold one guard rule for
  -- each upstream device that the daemon has forced by then, in the same order, and no other.
  pub guard_covers_forced :
      (input : AccessInput) (plan : Ipv6Plan) (w v : W) (s t : State)
      → plan_ipv6 env input w s ≡ ok plan
      → plan.mode ≡ force_mode
      → plan.host.forwarding ≡ false
      → t.forced_upstreams ≡ s.forced_upstreams
      → (enable_ipv6_forwarding env keys plan v t).2 ≡ true
      → plan.compiled.guard
        ≡ map guard_rule (enable_ipv6_forwarding env keys plan v t).1.forced_upstreams
  unfolding plan_ipv6 enable_ipv6_forwarding
  guard_covers_forced input plan w v s t planned forced quiet same on =
      let mode : (plan.mode == force_mode) ≡ true = (==_iff plan.mode force_mode).1 forced in
      let guard = plan_for-IsGuarded env input s plan env.ipv6 env.writer6 w planned forced quiet in
      let on_force : (enable_force env keys plan v t).2 ≡ true = rw mode at on in
      let held = enable_force-forced plan v t on_force in rw mode (guard ∙ rw (held, same) refl)

module _ {W : Type 0} (env : Env W) (keys : Ipv6Keys W) (writer : Host W)
    (held : env.ipv6 ≡ some keys) (writes : env.writer6 ≡ some writer) where
  -- Where the write of the IPv6 chains fails, the IPv6 step ends with that write: it sets no forwarding
  -- key and no path, and it records no upstream device as forced.
  pub apply_ipv6_unwritten :
      (input : AccessInput) (desired : Map Text Tailnet) (actual : Map Text TailnetState) (w : W)
      (s : State) (plan : Ipv6Plan) (e : Text) (es : List Text)
      → plan_ipv6 env input w s ≡ ok plan
      → (plan.mode == []) ≡ false
      → (apply_rules writer (txt "ip6tables") plan.compiled w).2 ≡ e ∷ es
      → ((apply_ipv6 env input desired actual w s).0
          ≡ (apply_rules writer (txt "ip6tables") plan.compiled w).0)
        × ((apply_ipv6 env input desired actual w s).1.forced_upstreams ≡ s.forced_upstreams)
  unfolding apply_ipv6 drive_ipv6 follow_plan write_ipv6 after_chains note_ipv6_state emit
  apply_ipv6_unwritten input desired actual w s plan e es planned on failed =
      rw (held, writes, drive_ipv6)
        (rw (planned, follow_plan) (rw on (rw (failed, after_chains) (refl, ground arith))))
