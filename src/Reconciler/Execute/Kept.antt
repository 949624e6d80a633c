-- ===== src/Reconciler/Execute/Kept.antt =====
-- What no action of the reconciler changes: the failures, the error states and the pauses.
use hydrascale.Common.{Bool, ◌≡◌, refl, List, Text, text_eq, arith}
use hydrascale.Reconciler.{
  State, emit, set_host_access_rules, set_dns_refresh_pending, report_dns_refresh_wait,
}
use hydrascale.Reconciler.Plan.{
  Action, create_namespace, delete_namespace, start_daemon, stop_daemon, sync_routes,
  sync_host_access, teardown_host_access, auth_daemon, refresh_dns,
}
use hydrascale.Reconciler.Execute.{
  Managers, report_teardown, write_host_access, setup_created, execute_create, execute_delete,
  execute_teardown, execute_start, execute_refresh, sync_declared, execute_sync_host,
  execute_action,
}

pub record Kept (s t : State) : Type 0 where
  pub failure_counts : t.failure_counts ≡ s.failure_counts
  pub error_states : t.error_states ≡ s.error_states
  pub paused_states : t.paused_states ≡ s.paused_states
  pub last_errors : t.last_errors ≡ s.last_errors

pub Kept-refl : (s : State) → Kept s s
Kept-refl s = record {
  failure_counts = refl;
  error_states = refl;
  paused_states = refl;
  last_errors = refl;
}

module _ {W : Type 0} (m : Managers W) (on : Bool) where
  write_host_access-Kept :
      (id ns : Text) (publish : List Text) (w : W) (s : State)
      → Kept s (write_host_access m on id ns publish w s).1
  unfolding write_host_access emit
  write_host_access-Kept id ns publish w s = record {
    failure_counts = ground arith;
    error_states = ground arith;
    paused_states = ground arith;
    last_errors = ground arith;
  }

  execute_create-Kept : (id : Text) (w : W) (s : State) → Kept s (execute_create m on id w s).1
  unfolding execute_create setup_created write_host_access emit set_host_access_rules
  execute_create-Kept id w s = record {
    failure_counts = ground arith;
    error_states = ground arith;
    paused_states = ground arith;
    last_errors = ground arith;
  }

  execute_delete-Kept :
      (id ns : Text) (w : W) (s : State) → Kept s (execute_delete m on id ns w s).1
  unfolding execute_delete emit set_host_access_rules set_dns_refresh_pending
      report_dns_refresh_wait report_teardown write_host_access
  execute_delete-Kept id ns w s = record {
    failure_counts = ground arith;
    error_states = ground arith;
    paused_states = ground arith;
    last_errors = ground arith;
  }

  execute_teardown-Kept : (id : Text) (w : W) (s : State) → Kept s (execute_teardown m on id w s).1
  unfolding execute_teardown emit set_host_access_rules set_dns_refresh_pending
      report_dns_refresh_wait report_teardown write_host_access
  execute_teardown-Kept id w s = record {
    failure_counts = ground arith;
    error_states = ground arith;
    paused_states = ground arith;
    last_errors = ground arith;
  }

  execute_refresh-Kept :
      (id ns : Text) (w : W) (s : State) → Kept s (execute_refresh m on id ns w s).1
  unfolding execute_refresh emit set_host_access_rules set_dns_refresh_pending
      report_dns_refresh_wait report_teardown write_host_access
  execute_refresh-Kept id ns w s = record {
    failure_counts = ground arith;
    error_states = ground arith;
    paused_states = ground arith;
    last_errors = ground arith;
  }

  execute_sync_host-Kept :
      (id : Text) (w : W) (s : State) → Kept s (execute_sync_host m on id w s).1
  unfolding execute_sync_host sync_declared emit set_host_access_rules set_dns_refresh_pending
      report_dns_refresh_wait report_teardown write_host_access
  execute_sync_host-Kept id w s = record {
    failure_counts = ground arith;
    error_states = ground arith;
    paused_states = ground arith;
    last_errors = ground arith;
  }

  -- No action changes the failure counts, the error states, the pauses or the last errors.
  pub execute_action-Kept : (a : Action) (w : W) (s : State) → Kept s (execute_action m on a w s).1
  unfolding execute_action execute_start
  execute_action-Kept a w s =
      elim a.kind as (λ k. Kept s (execute_action m on (record a { kind = k }) w s).1) [
        | create_namespace ↦ execute_create-Kept a.tailnet w s
        | delete_namespace ↦ execute_delete-Kept a.tailnet a.namespace w s
        | teardown_host_access ↦ execute_teardown-Kept a.tailnet w s
        | start_daemon ↦ Kept-refl s
        | stop_daemon ↦ Kept-refl s
        | auth_daemon ↦ Kept-refl s
        | refresh_dns ↦ execute_refresh-Kept a.tailnet a.namespace w s
        | sync_routes ↦ Kept-refl s
        | sync_host_access ↦ execute_sync_host-Kept a.tailnet w s
      ]
