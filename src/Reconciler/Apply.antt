-- ===== src/Reconciler/Apply.antt =====
-- internal/reconciler/reconciler.go: Apply, which runs the plan of a tick and counts the failures.
pub mod Counting
pub mod Quarantine
pub mod Idle
pub mod Bounded
pub mod Alive
pub mod Steady
use hydrascale.Common.{
  ℕ, Bool, true, false, Option, none, some, List, [], ◌∷◌, ◌++◌, Text, txt, text_eq, if◌then◌else◌,
  Map, keys, lookup, put, or_default,
}
use hydrascale.Reconciler.{State, flag, emit, record_failure, clear_failure}
use hydrascale.Reconciler.Plan.{
  ActionType, Action, create_namespace, delete_namespace, start_daemon, stop_daemon, sync_routes,
  sync_host_access, teardown_host_access, auth_daemon, refresh_dns,
}
use hydrascale.Reconciler.Execute.{Managers, execute_action}

abbrev pub kind_text : ActionType → Text
kind_text create_namespace = txt "create_namespace"
kind_text delete_namespace = txt "delete_namespace"
kind_text start_daemon = txt "start_daemon"
kind_text stop_daemon = txt "stop_daemon"
kind_text sync_routes = txt "sync_routes"
kind_text sync_host_access = txt "sync_host_access"
kind_text teardown_host_access = txt "teardown_host_access"
kind_text auth_daemon = txt "auth_daemon"
kind_text refresh_dns = txt "refresh_dns"

-- The variables of Apply: the host, the state, `cycleFailures` and `cycleErrors`.
pub record Cycle (W : Type 0) : Type 0 where
  pub host : W
  pub state : State
  pub failures : Map Text Bool
  pub errors : Map Text Text

-- The event and the marks of one outcome.
pub note_outcome : {W : Type 0} → Action → W → State → Option Text → Cycle W → Cycle W
unfolding emit
note_outcome a w s none c = record {
  host = w;
  state = emit (txt "action_ok") a.tailnet (kind_text a.kind) s;
  failures = c.failures;
  errors = c.errors;
}
note_outcome a w s (some e) c =
    let message = kind_text a.kind ++ txt ": " ++ e in
    record {
      host = w;
      state = emit (txt "action_failed") a.tailnet message s;
      failures = put a.tailnet true c.failures;
      errors = put a.tailnet message c.errors;
    }

-- The loop over the actions.
unfoldable pub run_actions : {W : Type 0} → Managers W → Bool → List Action → Cycle W → Cycle W
unfolding note_outcome
run_actions m on [] c = c
run_actions m on (a ∷ actions) c =
    let (w, s, failed) = execute_action m on a c.host c.state in
    run_actions m on actions (note_outcome a w s failed c)

-- `tailnetsSeen`
unfoldable pub tailnets_seen : List Action → Map Text Bool → Map Text Bool
tailnets_seen [] seen = seen
tailnets_seen (a ∷ actions) seen = tailnets_seen actions (put a.tailnet true seen)

-- The loop over the tailnets that had an action.
unfoldable pub settle : Map Text Bool → Map Text Text → List Text → State → State
unfolding record_failure clear_failure
settle failures errors [] s = s
settle failures errors (id ∷ ids) s = settle failures errors ids (
    if flag id failures
    then record_failure id (or_default (lookup id errors) []) s
    else clear_failure id s)

unfoldable pub apply : {W : Type 0} → Managers W → Bool → List Action → W → State → W × State
unfolding run_actions tailnets_seen settle
apply m on actions w s =
    let c = run_actions m on actions (record { host = w; state = s; failures = []; errors = [] }) in
    (c.host, settle c.failures c.errors (keys (tailnets_seen actions [])) c.state)
