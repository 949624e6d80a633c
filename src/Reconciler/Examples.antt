-- ===== src/Reconciler/Examples.antt =====
-- The theorems on internal/reconciler at a concrete state.
use hydrascale.Common.{
  ◌≡◌, refl, true, false, none, some, Option, List, ◌++◌, ◌==◌, [], ◌∷◌, Text, txt, text_eq,
  same_text, lookup, Map, ok, if◌then◌else◌,
}
use hydrascale.Access.Writer.{Placement}
use hydrascale.Access.Ports.{parse_port}
use hydrascale.Access.Rules.{RuleSet, host, validate}
use hydrascale.Config.{pos, Tailnet, Config}
use hydrascale.Reconciler.{State, flag}
use hydrascale.Reconciler.Plan.{
  Action, TailnetState, Tick, plain, start_daemon, stop_daemon, delete_namespace, diff,
}
use hydrascale.Reconciler.Plan.Independent.{of}
use hydrascale.Reconciler.Plan.PerTailnet.{diff-planned}
use hydrascale.Reconciler.Execute.{Managers, set_up, execute_action}
use hydrascale.Reconciler.Apply.{apply}
use hydrascale.Reconciler.Apply.Counting.{fails, count}
use hydrascale.Reconciler.Apply.Quarantine.{apply_counts}
use hydrascale.Reconciler.Apply.Idle.{after_three, three_failures_idle}
use hydrascale.Reconciler.Endpoints.{declared_rules, declared_rules_validated}
use hydrascale.Reconciler.Protection.{Unprotected}

abbrev work : Tailnet
work = record {
  id = txt "work";
  exit_node = [];
  auth_key = [];
  host_access = none;
  control_url = [];
  alias = [];
  publish = [];
}

abbrev cfg : Config
cfg = record {
  version = pos 2;
  host_access = true;
  control_url = [];
  tailnets = work ∷ [];
  resolver = record { mode = []; bind_address = []; resolve_aliases = false };
  interval = pos 10;
  raw_interval = [];
  host_dns_mode = [];
  allow_unprotected = false;
  infra_subnet = [];
  route_table = pos 0;
  ipv6 = false;
  secrets_file = [];
  probe_target = [];
  access = none;
  console_bind_address = [];
}

abbrev fresh : State
fresh = record {
  failure_counts = [];
  error_states = [];
  paused_states = [];
  last_errors = [];
  unprotected = [];
  events = [];
  jump_positions = [];
  dns_refresh_pending = [];
  dns_refresh_reported = [];
  host_access_rules = [];
  reachability = [];
  host_file = none;
  ipv6_state = [];
  forced_upstreams = [];
}

abbrev tick : Tick
tick = record { get_name = λ id. txt "ns-" ++ id; getenv = λ name. []; loaded = some cfg }

abbrev desired : Map Text Tailnet
desired = (txt "work", work) ∷ []

-- The declared tailnet, healthy, and one that the file does not declare.
abbrev actual : Map Text TailnetState
actual =
    (txt "work", record { namespace = txt "ns-work"; exists = true; healthy = true })
    ∷ (txt "gone", record { namespace = txt "ns-gone"; exists = true; healthy = true })
    ∷ []

diff-planned_example :
    of (txt "gone") (diff tick desired actual fresh).1
    ≡ plain stop_daemon (txt "gone") (txt "ns-gone")
      ∷ plain delete_namespace (txt "gone") (txt "ns-gone")
      ∷ []
unfolding lookup same_text
diff-planned_example = diff-planned tick desired actual fresh (txt "gone") refl refl

abbrev paused : State
paused = record fresh { paused_states = (txt "work", true) ∷ [] }

-- A host on which no daemon starts.
abbrev managers : Managers (Unit {0})
managers = record {
  get_name = λ id. txt "ns-" ++ id;
  load_config = λ w. ok cfg;
  create = λ id w. (w, none);
  delete = λ ns w. (w, none);
  write_resolv_conf = λ ns w. w;
  setup_host_access = λ ns publish on w. (w, set_up);
  teardown_host_access = λ ns w. (w, none);
  has_host_access = false;
  forget_tailnet = λ id w. (w, none);
  remove_state_dir = λ id w. (w, none);
  start = λ id ns allow w. (w, some (txt "no tun"));
  stop = λ ns id w. (w, none);
  authorize = λ id ns key url w. (w, none);
  refresh_dns_if_ready = λ id ns w. (w, ok false);
  sync_routes_of = λ ns id w. (w, none);
  sync_host = λ id ns c w. (w, none);
}

abbrev restart : List Action
restart = plain start_daemon (txt "work") (txt "ns-work") ∷ []

apply_counts_example :
    (count (txt "work") (apply managers false restart tt fresh).1 ≡ 1)
    × (flag (txt "work") (apply managers false restart tt fresh).1.error_states ≡ false)
unfolding lookup same_text fails execute_action
apply_counts_example = apply_counts managers false (txt "work") restart tt fresh refl

three_failures_idle_example :
    of
      (txt "work")
      (diff tick desired actual (after_three managers false restart restart restart tt fresh)).1
    ≡ []
unfolding lookup same_text fails execute_action
three_failures_idle_example =
    three_failures_idle managers false tick desired actual (txt "work") work restart restart restart
      tt fresh refl refl refl refl refl refl

-- The overlay mount of work failed.
abbrev failing : Text → Option Unprotected
failing id =
    if id == txt "work" then some (record { reason = txt "no overlay"; allowed = false }) else none

abbrev displaced : List Placement
displaced =
    record { parent = txt "FORWARD"; position = 2; above = txt "DROP" ∷ [] }
    ∷ record { parent = txt "INPUT"; position = 1; above = [] }
    ∷ []

abbrev rules : RuleSet
rules = record {
  mode = [];
  rules = record { from = txt "work"; to = host; ports = txt "tcp/22" ∷ [] } ∷ [];
}

declared_rules_validated_example :
    declared_rules (λ r. r.from) ((txt "work", txt "vh1") ∷ []) rules.rules fresh
    ≡ (rules.rules, fresh)
unfolding validate parse_port same_text
declared_rules_validated_example =
    declared_rules_validated (λ r. r.from) ((txt "work", txt "vh1") ∷ []) rules fresh refl
