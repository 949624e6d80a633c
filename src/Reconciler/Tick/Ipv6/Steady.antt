-- ===== src/Reconciler/Tick/Ipv6/Steady.antt =====
-- The IPv6 step of a tick is steady.
use hydrascale.Common.{
  ℕ, refl, Option, none, some, List, [], ◌∷◌, ◌++◌, Text, txt, text_eq, ◌==◌, if◌then◌else◌, Map,
  Result, ok, err, itoa, length, join, Bool-cases, Result-cases, inl, inr,
}
use hydrascale.Access.Rules.{effective_mode}
use hydrascale.Access.Writer.{Host}
use hydrascale.Access.Writer.Commands.{Applied, apply_rules}
use hydrascale.Config.{Tailnet}
use hydrascale.Reconciler.{State}
use hydrascale.Reconciler.Plan.{TailnetState}
use hydrascale.Reconciler.Execute.{join_lines}
use hydrascale.Reconciler.Env.{Env, Ipv6Keys}
use hydrascale.Reconciler.Steady.{
  Steady, Steady-refl, Steady-trans, Steady-same, emit-Steady, emit-after, if-Steady, step-Steady,
}
use hydrascale.Reconciler.Tick.Paths.Steady.{ensure_paths-Steady}
use hydrascale.Reconciler.Tick.Rules.{AccessInput}
use hydrascale.Reconciler.Tick.Ipv6.{
  Ipv6Plan, force_mode, all_mode, union, is_nil, plan_ipv6, enable_force, enable_all,
  enable_ipv6_forwarding, forward_ipv6, note_ipv6_applied, after_chains, write_ipv6, state_text,
  note_ipv6_state, follow_plan, drive_ipv6, apply_ipv6,
}

module _ {W : Type 0} (env : Env W) (keys : Ipv6Keys W) where
  enable_force-Steady :
      (plan : Ipv6Plan) (w : W) (s : State) → Steady s (enable_force env keys plan w s).1
  unfolding enable_force
  enable_force-Steady plan w s =
      elim (Result-cases (keys.enable_force_forwarding plan.host.upstreams w).1) [
        | inr (e, failed) ↦
            rw (failed, enable_force)
              (emit-Steady (txt "access.write_failed") [] (txt "IPv6: " ++ e) s)
        | inl (changed, done) ↦
            let known = record s {
              forced_upstreams = union s.forced_upstreams plan.host.upstreams;
            } in
            let message = txt "set force_forwarding on " ++ join changed (txt ", ") in
            let same = Steady-same s known refl refl in
            rw (done, enable_force)
              (if-Steady (is_nil changed) same (emit-after (txt "ipv6.forwarding") [] message same))
      ]

  enable_all-Steady :
      (plan : Ipv6Plan) (w : W) (s : State) → Steady s (enable_all env keys plan w s).1
  unfolding enable_all
  enable_all-Steady plan w s = elim (Bool-cases plan.host.forwarding) [
    | inl on ↦ rw on (Steady-refl s)
    | inr off ↦ elim (Result-cases (keys.enable_all_forwarding w).1) [
      | inr (e, failed) ↦
          rw (off, failed, enable_all)
            (emit-Steady (txt "access.write_failed") [] (txt "IPv6: " ++ e) s)
      | inl (changed, done) ↦
          let message =
            txt "set net.ipv6.conf.all.forwarding to 1"
            ++ (if is_nil changed
                then []
                else txt ", and accept_ra from 1 to 2 on " ++ join changed (txt ", ")) in
          rw (off, done, enable_all) (emit-Steady (txt "ipv6.forwarding") [] message s)
    ]
  ]

  enable_ipv6_forwarding-Steady :
      (plan : Ipv6Plan) (w : W) (s : State) → Steady s (enable_ipv6_forwarding env keys plan w s).1
  unfolding enable_ipv6_forwarding
  enable_ipv6_forwarding-Steady plan w s = elim (Bool-cases (plan.mode == force_mode)) [
    | inl forced ↦ rw forced (enable_force-Steady plan w s)
    | inr other ↦ elim (Bool-cases (plan.mode == all_mode)) [
      | inl all ↦ rw (other, all) (enable_all-Steady plan w s)
      | inr closed ↦ rw (other, closed) (Steady-refl s)
    ]
  ]

  module _ (desired : Map Text Tailnet) (actual : Map Text TailnetState) where
    forward_ipv6-Steady :
        (plan : Ipv6Plan) (w : W) (s : State)
        → Steady s (forward_ipv6 env keys plan desired actual w s).1
    unfolding forward_ipv6
    forward_ipv6-Steady plan w s =
        let (next, noted, enabled) = enable_ipv6_forwarding env keys plan w s in
        let ensure : Text → ℕ → W → W × Result Text (List Text) =
          λ ns index. keys.ensure_ipv6_path ns index (plan.mode == force_mode) in
        let first = enable_ipv6_forwarding-Steady plan w s in
        elim (Bool-cases (enable_ipv6_forwarding env keys plan w s).2) [
          | inl on ↦
              rw on (
                Steady-trans first
                  (ensure_paths-Steady env.sha256 ensure desired actual next noted))
          | inr failed ↦ rw failed first
        ]

    note_ipv6_applied-Steady :
        (input : AccessInput) (plan : Ipv6Plan) (applied : Applied) (s : State)
        → Steady s (note_ipv6_applied env input plan applied s)
    unfolding note_ipv6_applied
    note_ipv6_applied-Steady input plan applied s =
        let message =
          txt "IPv6: mode "
          ++ effective_mode input.set
          ++ txt ", "
          ++ itoa (length plan.compiled.guard)
          ++ txt " guard rules, "
          ++ itoa (length plan.compiled.forward)
          ++ txt " forward rules, "
          ++ itoa (length plan.compiled.out)
          ++ txt " out rules" in
        if-Steady applied.wrote (emit-Steady (txt "access.written") [] message s) (Steady-refl s)

    after_chains-Steady :
        (input : AccessInput) (plan : Ipv6Plan) (applied : Applied) (errors : List Text) (w : W)
        (s : State)
        → Steady s (after_chains env keys input plan desired actual applied errors w s).1
    unfolding after_chains
    after_chains-Steady input plan applied (e ∷ es) w s =
        emit-Steady (txt "access.write_failed") [] (txt "IPv6: " ++ join_lines (e ∷ es)) s
    after_chains-Steady input plan applied [] w s =
        Steady-trans (note_ipv6_applied-Steady input plan applied s)
          (forward_ipv6-Steady plan w (note_ipv6_applied env input plan applied s))

    write_ipv6-Steady :
        (writer : Host W) (input : AccessInput) (plan : Ipv6Plan) (w : W) (s : State)
        → Steady s (write_ipv6 env keys writer input plan desired actual w s).1
    unfolding write_ipv6
    write_ipv6-Steady writer input plan w s =
        let (next, applied, errors) = apply_rules writer (txt "ip6tables") plan.compiled w in
        after_chains-Steady input plan applied errors next s

    note_ipv6_state-Steady : (plan : Ipv6Plan) (s : State) → Steady s (note_ipv6_state env plan s)
    unfolding note_ipv6_state
    note_ipv6_state-Steady plan s =
        let same = Steady-same s (record s { ipv6_state = state_text env plan }) refl refl in
        if-Steady (s.ipv6_state == state_text env plan) same
          (emit-after (txt "ipv6.state") [] (state_text env plan) same)

    follow_plan-Steady :
        (writer : Host W) (input : AccessInput) (w : W) (s : State) (answer : Result Text Ipv6Plan)
        → Steady s (follow_plan env keys writer input desired actual w s answer).1
    unfolding follow_plan
    follow_plan-Steady writer input w s (err e) =
        emit-Steady (txt "access.write_failed") [] (txt "IPv6: " ++ e) s
    follow_plan-Steady writer input w s (ok plan) =
        let noted = note_ipv6_state env plan s in
        let first = note_ipv6_state-Steady plan s in
        let written = write_ipv6 env keys writer input plan desired actual w noted in
        step-Steady (plan.mode == []) s (w, noted) written first
          (Steady-trans first (write_ipv6-Steady writer input plan w noted))

module _ {W : Type 0} (env : Env W) (input : AccessInput) (desired : Map Text Tailnet)
    (actual : Map Text TailnetState) where
  drive_ipv6-Steady :
      (keys : Option (Ipv6Keys W)) (writer : Option (Host W)) (w : W) (s : State)
      → Steady s (drive_ipv6 env keys writer input desired actual w s).1
  unfolding drive_ipv6
  drive_ipv6-Steady none writer w s = Steady-refl s
  drive_ipv6-Steady (some keys) none w s = Steady-refl s
  drive_ipv6-Steady (some keys) (some writer) w s =
      follow_plan-Steady env keys desired actual writer input w s (plan_ipv6 env input w s)

  pub apply_ipv6-Steady : (w : W) (s : State) → Steady s (apply_ipv6 env input desired actual w s).1
  unfolding apply_ipv6
  apply_ipv6-Steady w s = drive_ipv6-Steady env.ipv6 env.writer6 w s
