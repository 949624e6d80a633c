-- ===== src/Reconciler/Tick/Watch.antt =====
-- internal/reconciler/reconciler.go: the steps of a tick that observe: checkHostFile and
-- probeReachability.
pub mod Steady
pub mod Kept
use hydrascale.Common.{
  ℕ, Bool, true, false, not, ◌||◌, Option, none, some, List, [], ◌∷◌, ◌++◌, Text, txt, text_eq,
  if◌then◌else◌, Map, lookup, put, Result, ok, err,
}
use hydrascale.Config.{Tailnet}
use hydrascale.Dns.HostFile.{HostFileState, HostFileMonitor, Checked, check_monitor}
use hydrascale.Reach.{Measurement, Pinger, probe, state_not_probed}
use hydrascale.Reconciler.{State, emit, flag}
use hydrascale.Reconciler.Plan.{TailnetState}
use hydrascale.Reconciler.Env.{Env}

-- `describeHostFile`
unfoldable pub describe_host_file : HostFileState → Text
describe_host_file state = if state.missing then txt "(missing)" else state.first_line

unmeasured : Text → Measurement
unmeasured detail = record { state = state_not_probed; target = []; detail = detail }

module _ {W : Type 0} (env : Env W) where
  -- The event of one check.
  report_check : Checked → State → State
  unfolding describe_host_file
  report_check c s = elim c.failed [
    | some e ↦ emit (txt "dns.host_file_error") [] e s
    | none ↦
        if not c.changed
        then s
        else emit (txt "dns.host_file_changed") []
            (c.current.path
              ++ txt ": previous first line "
              ++ env.quote (describe_host_file c.previous)
              ++ txt ", current first line "
              ++ env.quote (describe_host_file c.current))
            s
  ]

  check_with : Option HostFileMonitor → W → State → State
  unfolding report_check
  check_with none w s = s
  check_with (some m) w s =
      let (next, checked) = check_monitor (env.files w) (env.now w) m in
      report_check checked (record s { host_file = some next })

  -- `checkHostFile`
  unfoldable pub check_host_file : W → State → State
  unfolding check_with
  check_host_file w s = check_with s.host_file w s

  -- The measurement of one tailnet.
  measure : Pinger W → Text → Bool → Option TailnetState → W → W × Measurement
  unfolding unmeasured
  measure p target true state w = (w, unmeasured (txt "the operator stopped this tailnet"))
  measure p target false none w = (w, unmeasured (txt "the namespace does not exist"))
  measure p target false (some state) w =
      if not state.exists
      then (w, unmeasured (txt "the namespace does not exist"))
      else probe p state.namespace target w

  -- The loop over the declared tailnets; the probes of the goroutines run in its order.
  unfoldable pub measure_all :
      Pinger W → Text → Map Text Tailnet → Map Text TailnetState → W → State → W × State
  unfolding measure
  measure_all p target [] actual w s = (w, s)
  measure_all p target ((id, tn) ∷ desired) actual w s =
      let (next, found) = measure p target (flag id s.paused_states) (lookup id actual) w in
      measure_all p target desired actual next
        (record s { reachability = put id found s.reachability })

  abbrev target_in : W → Text
  target_in w = elim (env.managers.load_config w) [ err e ↦ [] | ok cfg ↦ cfg.probe_target ]

  -- `probeReachability`
  unfoldable pub probe_reachability :
      Map Text Tailnet → Map Text TailnetState → W → State → W × State
  unfolding measure_all
  probe_reachability desired actual w s = elim env.prober [
    | none ↦ (w, s)
    | some p ↦ measure_all p (target_in w) desired actual w s
  ]

  -- `lastReachability`
  unfoldable pub last_reachability : Text → State → Measurement
  unfolding unmeasured
  last_reachability id s = elim (lookup id s.reachability) [
    | none ↦ unmeasured (txt "the daemon made no measurement since it started")
    | some found ↦ found
  ]
