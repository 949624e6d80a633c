-- ===== src/Reconciler/Tick/Paths.antt =====
-- internal/reconciler/reconciler.go: the repair of the forward path, the removal of stale and of old
-- rules, and the check of the forwarding inside a namespace.
pub mod Steady
use hydrascale.Common.{
  ℕ, Bool, true, false, not, Option, none, some, List, [], ◌∷◌, ◌++◌, Text, txt, text_eq, ◌==◌,
  if◌then◌else◌, Map, lookup, Result, ok, err, itoa, eqb, length, join,
}
use hydrascale.Config.{Tailnet, Config, tailnet_host_access}
use hydrascale.Namespaces.{veth_index}
use hydrascale.Reconciler.{State, emit}
use hydrascale.Reconciler.Plan.{TailnetState}
use hydrascale.Reconciler.Env.{Env, Reaper}

-- The event of a write on the path of one namespace.
unfoldable pub report_written : Text → Result Text (List Text) → State → State
report_written id (err e) s = emit (txt "access.write_failed") id e s
report_written id (ok []) s = s
report_written id (ok (r ∷ rs)) s =
    let written = r ∷ rs in
    let message =
      txt "wrote " ++ itoa (length written) ++ txt " rules: " ++ join written (txt ", ") in
    emit (txt "access.path_repaired") id message s

module _ {W : Type 0} (sha256 : Text → List ℕ)
    (ensure : Text → ℕ → W → W × Result Text (List Text)) where
  -- The loop over the declared tailnets whose namespace exists, with the writer of one path.
  unfoldable pub ensure_paths : Map Text Tailnet → Map Text TailnetState → W → State → W × State
  unfolding report_written
  ensure_paths [] actual w s = (w, s)
  ensure_paths ((id, tn) ∷ desired) actual w s = elim (lookup id actual) [
    | none ↦ ensure_paths desired actual w s
    | some state ↦
        let (next, answer) = ensure state.namespace (veth_index sha256 state.namespace) w in
        let repaired = ensure_paths desired actual next (report_written id answer s) in
        let skipped = ensure_paths desired actual w s in if state.exists then repaired else skipped
  ]

module _ {W : Type 0} (env : Env W) where
  -- `ensureForwardPath`
  unfoldable pub ensure_forward_path :
      Map Text Tailnet → Map Text TailnetState → W → State → W × State
  unfolding ensure_paths
  ensure_forward_path desired actual w s = elim env.ensure_forward_path [
    | none ↦ (w, s)
    | some ensure ↦
        ensure_paths env.sha256 (λ ns index. ensure ns index env.infra_subnet) desired actual w s
  ]

  abbrev failure_event : Text → Option Text → State → State
  failure_event label none s = s
  failure_event label (some e) s = emit (txt "teardown.failed") [] (label ++ txt ": " ++ e) s

  -- `reapStaleRules`
  unfoldable pub reap_stale_rules : W → State → W × State
  reap_stale_rules w s = elim env.reaper [
    | none ↦ (w, s)
    | some reaper ↦
        let (next, count, failed) = reaper.reap_stale_rules w in
        (
          next,
          emit (txt "rules.reaped") [] (itoa count ++ txt " rules")
              (failure_event (txt "reap the stale rules") failed s),
        )
  ]

  -- `removeLegacyRules`
  unfoldable pub remove_legacy_rules : W → State → W × State
  remove_legacy_rules w s = elim env.reaper [
    | none ↦ (w, s)
    | some reaper ↦
        let (next, count, failed) = reaper.remove_legacy_forward_rules w in
        let noted = failure_event (txt "remove the version 0.9 forward rules") failed s in
        (
          next,
          if eqb count 0
              then noted
              else emit (txt "rules.reaped") [] (itoa count ++ txt " version 0.9 forward rules")
                  noted,
        )
  ]

  -- The value that the configuration requires of a namespace.
  abbrev wanted_forwarding : Config → Text → Text
  wanted_forwarding cfg id = if tailnet_host_access cfg id then txt "1" else txt "0"

  -- The loop over the declared tailnets.
  unfoldable pub check_forwarding : Reaper W → Config → List Text → W → State → State
  check_forwarding reaper cfg [] w s = s
  check_forwarding reaper cfg (id ∷ ids) w s =
      let ns = env.managers.get_name id in
      let want = wanted_forwarding cfg id in
      let noted : State = elim (reaper.namespace_forwarding ns w) [
        | err e ↦ s
        | ok value ↦
            if value == want
            then s
            else emit (txt "access.namespace_forwarding") id
                (txt "net.ipv4.ip_forward is "
                  ++ value
                  ++ txt " in "
                  ++ ns
                  ++ txt ", and the configuration requires "
                  ++ want)
                s
      ] in
      check_forwarding reaper cfg ids w noted

  check_forwarding_in : Reaper W → List Text → W → State → State
  unfolding check_forwarding
  check_forwarding_in reaper ids w s = elim (env.managers.load_config w) [
    | err e ↦ s
    | ok cfg ↦ check_forwarding reaper cfg ids w s
  ]

  -- `checkNamespaceForwarding`, over the declared tailnets.
  unfoldable pub check_namespace_forwarding : List Text → W → State → State
  unfolding check_forwarding_in
  check_namespace_forwarding ids w s = elim env.reaper [
    | none ↦ s
    | some reaper ↦ check_forwarding_in reaper ids w s
  ]
