-- ===== src/Reconciler.antt =====
-- internal/reconciler/reconciler.go: the state of the reconciler, its events, and the bookkeeping
-- of failures, pauses and DNS refreshes.
pub mod Plan
pub mod Execute
pub mod Apply
pub mod Endpoints
pub mod Protection
pub mod Jumps
pub mod Env
pub mod Steady
pub mod Tick
mod Examples
use hydrascale.Common.{
  ℕ, ◌+◌, Bool, true, false, not, ◌&&◌, ◌||◌, Option, none, some, List, [], ◌∷◌, ◌++◌, Text, txt,
  text_eq, ◌==◌, eqb, leb, if◌then◌else◌, length, Map, lookup, put, delete, or_default, is_some,
}
use hydrascale.Dns.HostFile.{HostFileMonitor}
use hydrascale.Reach.{Measurement}

pub record Event : Type 0 where
  pub kind : Text
  pub tailnet : Text
  pub message : Text

-- The fields of `Reconciler` that a tick changes; the managers of the host are the environment of a tick.
pub record State : Type 0 where
  pub failure_counts : Map Text ℕ
  pub error_states : Map Text Bool
  pub paused_states : Map Text Bool
  pub last_errors : Map Text Text
  pub unprotected : Map Text Text
  pub events : List Event
  pub jump_positions : Map Text ℕ
  pub dns_refresh_pending : Map Text Bool
  pub dns_refresh_reported : Map Text Bool
  pub host_access_rules : Map Text Bool
  pub reachability : Map Text Measurement
  pub host_file : Option HostFileMonitor
  pub ipv6_state : Text
  pub forced_upstreams : List Text

-- A Go map of bool answers false for a key that it does not hold.
abbrev pub flag : Text → Map Text Bool → Bool
flag id m = or_default (lookup id m) false

abbrev pub max_failures : ℕ
max_failures = 3

abbrev pub max_events : ℕ
max_events = 1000

-- `events[1:]`
abbrev drop_oldest : List Event → List Event
drop_oldest [] = []
drop_oldest (e ∷ es) = es

unfoldable pub emit : Text → Text → Text → State → State
emit kind tailnet message s =
    let kept = if leb max_events (length s.events) then drop_oldest s.events else s.events in
    record s { events = kept ++ record { kind = kind; tailnet = tailnet; message = message } ∷ [] }

unfoldable pub record_failure : Text → Text → State → State
record_failure id message s =
    let count = or_default (lookup id s.failure_counts) 0 + 1 in
    record s {
      failure_counts = put id count s.failure_counts;
      last_errors = put id message s.last_errors;
      error_states = if leb max_failures count then put id true s.error_states else s.error_states;
    }

unfoldable pub clear_failure : Text → State → State
clear_failure id s = record s {
  failure_counts = put id 0 s.failure_counts;
  last_errors = delete id s.last_errors;
}

unfoldable pub reset_error : Text → State → State
reset_error id s = record s {
  error_states = delete id s.error_states;
  failure_counts = delete id s.failure_counts;
  paused_states = delete id s.paused_states;
  unprotected = delete id s.unprotected;
}

unfoldable pub reset_all_errors : State → State
reset_all_errors s = record s { error_states = []; failure_counts = []; unprotected = [] }

unfoldable pub host_access_rules_present : Text → State → Bool
host_access_rules_present id s = or_default (lookup id s.host_access_rules) true

unfoldable pub set_host_access_rules : Text → Bool → State → State
set_host_access_rules id present s = record s {
  host_access_rules = put id present s.host_access_rules;
}

unfoldable pub dns_refresh_waits : Text → State → Bool
dns_refresh_waits id s = flag id s.dns_refresh_pending

abbrev same_bool : Bool → Bool → Bool
same_bool true b = b
same_bool false b = not b

unfoldable pub set_dns_refresh_pending : Text → Bool → State → State
set_dns_refresh_pending id pending s = record s {
  dns_refresh_reported =
      if same_bool (flag id s.dns_refresh_pending) pending
      then s.dns_refresh_reported
      else delete id s.dns_refresh_reported;
  dns_refresh_pending =
      if pending then put id true s.dns_refresh_pending else delete id s.dns_refresh_pending;
}

unfoldable pub report_dns_refresh_wait : Text → State → State
unfolding emit
report_dns_refresh_wait id s =
    let marked = record s { dns_refresh_reported = put id true s.dns_refresh_reported } in
    let message =
      txt "tailscaled is not in the Running state, therefore the refresh runs on a later tick" in
    if flag id s.dns_refresh_reported
    then marked
    else emit (txt "dns.refresh_waits") id message marked
