-- ===== src/Reconciler/Tick/Watch/Steady.antt =====
-- The observing steps of a tick are steady.
use hydrascale.Common.{
  not, refl, Option, none, some, [], ◌∷◌, ◌++◌, Text, txt, text_eq, Map, lookup, put, Option-cases,
  inl, inr,
}
use hydrascale.Config.{Tailnet}
use hydrascale.Dns.HostFile.{HostFileMonitor, Checked, check_monitor}
use hydrascale.Reach.{Pinger}
use hydrascale.Reconciler.{State, flag}
use hydrascale.Reconciler.Plan.{TailnetState}
use hydrascale.Reconciler.Env.{Env}
use hydrascale.Reconciler.Steady.{
  Steady, Steady-refl, Steady-trans, Steady-same, emit-Steady, if-Steady,
}
use hydrascale.Reconciler.Tick.Watch.{
  describe_host_file, report_check, check_with, check_host_file, measure, measure_all, target_in,
  probe_reachability,
}

module _ {W : Type 0} (env : Env W) where
  report_check-Steady : (c : Checked) (s : State) → Steady s (report_check env c s)
  unfolding report_check
  report_check-Steady c s = elim (Option-cases c.failed) [
    | inr (e, failed) ↦ rw (failed, report_check) (emit-Steady (txt "dns.host_file_error") [] e s)
    | inl read ↦
        let message =
          c.current.path
          ++ txt ": previous first line "
          ++ env.quote (describe_host_file c.previous)
          ++ txt ", current first line "
          ++ env.quote (describe_host_file c.current) in
        rw (read, report_check)
          (if-Steady (not c.changed) (Steady-refl s)
            (emit-Steady (txt "dns.host_file_changed") [] message s))
  ]

  check_with-Steady :
      (m : Option HostFileMonitor) (w : W) (s : State) → Steady s (check_with env m w s)
  unfolding check_with
  check_with-Steady none w s = Steady-refl s
  check_with-Steady (some m) w s =
      let (next, checked) = check_monitor (env.files w) (env.now w) m in
      let known = record s { host_file = some next } in
      Steady-trans (Steady-same s known refl refl) (report_check-Steady checked known)

  pub check_host_file-Steady : (w : W) (s : State) → Steady s (check_host_file env w s)
  unfolding check_host_file
  check_host_file-Steady w s = check_with-Steady s.host_file w s

  measure_all-Steady :
      (p : Pinger W) (target : Text) (desired : Map Text Tailnet) (actual : Map Text TailnetState)
      (w : W) (s : State)
      → Steady s (measure_all env p target desired actual w s).1
  unfolding measure_all
  measure_all-Steady p target [] actual w s = Steady-refl s
  measure_all-Steady p target ((id, tn) ∷ desired) actual w s =
      let (next, found) = measure env p target (flag id s.paused_states) (lookup id actual) w in
      let known = record s { reachability = put id found s.reachability } in
      Steady-trans (Steady-same s known refl refl)
        (measure_all-Steady p target desired actual next known)

  pub probe_reachability-Steady :
      (desired : Map Text Tailnet) (actual : Map Text TailnetState) (w : W) (s : State)
      → Steady s (probe_reachability env desired actual w s).1
  unfolding probe_reachability
  probe_reachability-Steady desired actual w s = elim (Option-cases env.prober) [
    | inl gone ↦ rw (gone, probe_reachability) (Steady-refl s)
    | inr (p, held) ↦
        rw (held, probe_reachability) (measure_all-Steady p (target_in env w) desired actual w s)
  ]
