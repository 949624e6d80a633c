-- ===== src/Reconciler/Tick/Paths/Steady.antt =====
-- The steps of a tick on the paths of the namespaces are steady.
use hydrascale.Common.{
  ℕ, Option, none, some, List, [], ◌∷◌, ◌++◌, Text, txt, text_eq, ◌==◌, if◌then◌else◌, Map, lookup,
  Result, ok, err, itoa, eqb, length, join, Bool-cases, Option-cases, Result-cases, inl, inr,
}
use hydrascale.Config.{Tailnet, Config}
use hydrascale.Namespaces.{veth_index}
use hydrascale.Reconciler.{State, emit}
use hydrascale.Reconciler.Plan.{TailnetState}
use hydrascale.Reconciler.Env.{Env, Reaper}
use hydrascale.Reconciler.Steady.{
  Steady, Steady-refl, Steady-trans, emit-Steady, emit-after, if-Steady,
}
use hydrascale.Reconciler.Tick.Paths.{
  report_written, ensure_paths, ensure_forward_path, failure_event, reap_stale_rules,
  remove_legacy_rules, wanted_forwarding, check_forwarding, check_forwarding_in,
  check_namespace_forwarding,
}

report_written-Steady :
    (id : Text) (answer : Result Text (List Text)) (s : State)
    → Steady s (report_written id answer s)
unfolding report_written
report_written-Steady id (err e) s = emit-Steady (txt "access.write_failed") id e s
report_written-Steady id (ok []) s = Steady-refl s
report_written-Steady id (ok (r ∷ rs)) s =
    let written = r ∷ rs in
    let message =
      txt "wrote " ++ itoa (length written) ++ txt " rules: " ++ join written (txt ", ") in
    emit-Steady (txt "access.path_repaired") id message s

pub ensure_paths-Steady :
    {W : Type 0} (sha256 : Text → List ℕ) (ensure : Text → ℕ → W → W × Result Text (List Text))
    (desired : Map Text Tailnet) (actual : Map Text TailnetState) (w : W) (s : State)
    → Steady s (ensure_paths sha256 ensure desired actual w s).1
unfolding ensure_paths
ensure_paths-Steady sha256 ensure [] actual w s = Steady-refl s
ensure_paths-Steady sha256 ensure ((id, tn) ∷ desired) actual w s =
    elim (Option-cases (lookup id actual)) [
      | inl gone ↦ rw (gone, ensure_paths) (ensure_paths-Steady sha256 ensure desired actual w s)
      | inr (state, held) ↦
          let (next, answer) = ensure state.namespace (veth_index sha256 state.namespace) w in
          let noted = report_written id answer s in
          elim (Bool-cases state.exists) [
            | inl there ↦
                rw (held, there, ensure_paths)
                  (Steady-trans (report_written-Steady id answer s)
                    (ensure_paths-Steady sha256 ensure desired actual next noted))
            | inr lost ↦
                rw (held, lost, ensure_paths) (ensure_paths-Steady sha256 ensure desired actual w s)
          ]
    ]

module _ {W : Type 0} (env : Env W) where
  pub ensure_forward_path-Steady :
      (desired : Map Text Tailnet) (actual : Map Text TailnetState) (w : W) (s : State)
      → Steady s (ensure_forward_path env desired actual w s).1
  unfolding ensure_forward_path
  ensure_forward_path-Steady desired actual w s = elim (Option-cases env.ensure_forward_path) [
    | inl gone ↦ rw (gone, ensure_forward_path) (Steady-refl s)
    | inr (ensure, held) ↦
        rw (held, ensure_forward_path)
          (ensure_paths-Steady env.sha256 (λ ns index. ensure ns index env.infra_subnet) desired
            actual w s)
  ]

  failure_event-Steady :
      (label : Text) (failed : Option Text) (s : State)
      → Steady s (failure_event env label failed s)
  failure_event-Steady label none s = Steady-refl s
  failure_event-Steady label (some e) s =
      emit-Steady (txt "teardown.failed") [] (label ++ txt ": " ++ e) s

  pub reap_stale_rules-Steady : (w : W) (s : State) → Steady s (reap_stale_rules env w s).1
  unfolding reap_stale_rules
  reap_stale_rules-Steady w s = elim (Option-cases env.reaper) [
    | inl gone ↦ rw (gone, reap_stale_rules) (Steady-refl s)
    | inr (reaper, held) ↦
        let (next, count, failed) = reaper.reap_stale_rules w in
        rw (held, reap_stale_rules)
          (emit-after (txt "rules.reaped") [] (itoa count ++ txt " rules")
            (failure_event-Steady (txt "reap the stale rules") failed s))
  ]

  pub remove_legacy_rules-Steady : (w : W) (s : State) → Steady s (remove_legacy_rules env w s).1
  unfolding remove_legacy_rules
  remove_legacy_rules-Steady w s = elim (Option-cases env.reaper) [
    | inl gone ↦ rw (gone, remove_legacy_rules) (Steady-refl s)
    | inr (reaper, held) ↦
        let (next, count, failed) = reaper.remove_legacy_forward_rules w in
        let noted = failure_event-Steady (txt "remove the version 0.9 forward rules") failed s in
        rw (held, remove_legacy_rules)
          (if-Steady (eqb count 0) noted (
            emit-after (txt "rules.reaped") [] (itoa count ++ txt " version 0.9 forward rules")
              noted))
  ]

  check_forwarding-Steady :
      (reaper : Reaper W) (cfg : Config) (ids : List Text) (w : W) (s : State)
      → Steady s (check_forwarding env reaper cfg ids w s)
  unfolding check_forwarding
  check_forwarding-Steady reaper cfg [] w s = Steady-refl s
  check_forwarding-Steady reaper cfg (id ∷ ids) w s =
      let ns = env.managers.get_name id in
      let want = wanted_forwarding env cfg id in
      elim (Result-cases (reaper.namespace_forwarding ns w)) [
        | inr (e, unread) ↦
            rw (unread, check_forwarding) (check_forwarding-Steady reaper cfg ids w s)
        | inl (value, read) ↦
            let message =
              txt "net.ipv4.ip_forward is "
              ++ value
              ++ txt " in "
              ++ ns
              ++ txt ", and the configuration requires "
              ++ want in
            let noted =
              if value == want then s else emit (txt "access.namespace_forwarding") id message s in
            rw (read, check_forwarding)
              (Steady-trans
                (if-Steady (value == want) (Steady-refl s)
                  (emit-Steady (txt "access.namespace_forwarding") id message s))
                (check_forwarding-Steady reaper cfg ids w noted))
      ]

  check_forwarding_in-Steady :
      (reaper : Reaper W) (ids : List Text) (w : W) (s : State)
      → Steady s (check_forwarding_in env reaper ids w s)
  unfolding check_forwarding_in
  check_forwarding_in-Steady reaper ids w s = elim (Result-cases (env.managers.load_config w)) [
    | inr (e, unread) ↦ rw (unread, check_forwarding_in) (Steady-refl s)
    | inl (cfg, loaded) ↦
        rw (loaded, check_forwarding_in) (check_forwarding-Steady reaper cfg ids w s)
  ]

  pub check_namespace_forwarding-Steady :
      (ids : List Text) (w : W) (s : State) → Steady s (check_namespace_forwarding env ids w s)
  unfolding check_namespace_forwarding
  check_namespace_forwarding-Steady ids w s = elim (Option-cases env.reaper) [
    | inl gone ↦ rw (gone, check_namespace_forwarding) (Steady-refl s)
    | inr (reaper, held) ↦
        rw (held, check_namespace_forwarding) (check_forwarding_in-Steady reaper ids w s)
  ]
