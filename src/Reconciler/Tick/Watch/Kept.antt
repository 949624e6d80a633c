-- ===== src/Reconciler/Tick/Watch/Kept.antt =====
-- What the check of the host file does not change.
use hydrascale.Common.{Option, none, some, text_eq, arith}
use hydrascale.Dns.HostFile.{HostFileMonitor, Checked, check_monitor}
use hydrascale.Reconciler.{State, emit}
use hydrascale.Reconciler.Execute.Kept.{Kept, Kept-refl}
use hydrascale.Reconciler.Env.{Env}
use hydrascale.Reconciler.Tick.Watch.{report_check, check_with, check_host_file}

module _ {W : Type 0} (env : Env W) where
  report_check-Kept : (c : Checked) (s : State) → Kept s (report_check env c s)
  unfolding report_check emit
  report_check-Kept c s = record {
    failure_counts = ground arith;
    error_states = ground arith;
    paused_states = ground arith;
    last_errors = ground arith;
  }

  check_with-Kept : (m : Option HostFileMonitor) (w : W) (s : State) → Kept s (check_with env m w s)
  unfolding check_with
  check_with-Kept none w s = Kept-refl s
  check_with-Kept (some m) w s =
      let (next, checked) = check_monitor (env.files w) (env.now w) m in
      let k = report_check-Kept checked (record s { host_file = some next }) in
      record {
        failure_counts = k.failure_counts;
        error_states = k.error_states;
        paused_states = k.paused_states;
        last_errors = k.last_errors;
      }

  pub check_host_file-Kept : (w : W) (s : State) → Kept s (check_host_file env w s)
  unfolding check_host_file
  check_host_file-Kept w s = check_with-Kept s.host_file w s
