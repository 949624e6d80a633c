-- ===== src/Reconciler/Tick/Examples.antt =====
-- The theorems on a tick at a small host: a flag that says whether the daemon of work runs.
use hydrascale.Common.{
  ◌≡◌, refl, Bool, true, false, none, some, [], ◌∷◌, ◌++◌, map, Text, txt, text_eq, same_text, ◌==◌,
  if◌then◌else◌, lookup, Map, ok, err, arith,
}
use hydrascale.Access.Compile.{guard_rule, tail_for_mode, compile_family, compile_ipv6}
use hydrascale.Access.Rules.{effective_mode, validate}
use hydrascale.Access.Writer.{Host}
use hydrascale.Config.{Tailnet}
use hydrascale.Dns.HostFile.{no_entry, no_content}
use hydrascale.Reconciler.{State}
use hydrascale.Reconciler.Plan.{TailnetState}
use hydrascale.Reconciler.Execute.{Managers, set_up}
use hydrascale.Reconciler.Execute.Bounded.{IsBounded}
use hydrascale.Reconciler.Execute.Kept.{Kept}
use hydrascale.Reconciler.Env.{Env, Ipv6Host, Ipv6Keys, desired_state}
use hydrascale.Reconciler.Tick.Rules.{AccessInput}
use hydrascale.Reconciler.Tick.Ipv6.{Ipv6Plan, empty_plan, union, plan_ipv6, enable_ipv6_forwarding}
use hydrascale.Reconciler.Tick.Ipv6.Guard.{guard_covers_forced}
use hydrascale.Reconciler.Tick.Cycle.{reconcile, loop}
use hydrascale.Reconciler.Tick.Cycle.Steady.{loop-IsBounded}
use hydrascale.Reconciler.Tick.Cycle.Failed.{reconcile_failed}
use hydrascale.Namespaces.{namespace_name}
use hydrascale.Reconciler.Plan.{diff}
use hydrascale.Reconciler.Plan.Named.{runs}
use hydrascale.Reconciler.Apply.{apply}
use hydrascale.Reconciler.Execute.Alive.Watched.{watched}
use hydrascale.Reconciler.Apply.Alive.Started.{apply_starts}
use hydrascale.Reconciler.Tick.Cycle.{tick_of}

abbrev work : Tailnet
work = record {
  id = txt "work";
  exit_node = [];
  auth_key = [];
  host_access = none;
  control_url = [];
  alias = [];
  publish = [];
}

abbrev fresh : State
fresh = record {
  failure_counts = [];
  error_states = [];
  paused_states = [];
  last_errors = [];
  unprotected = [];
  events = [];
  jump_positions = [];
  dns_refresh_pending = [];
  dns_refresh_reported = [];
  host_access_rules = [];
  reachability = [];
  host_file = none;
  ipv6_state = [];
  forced_upstreams = txt "eth1" ∷ [];
}

-- A host whose configuration file does not load, and on which a start brings the daemon up.
abbrev managers : Managers Bool
managers = record {
  get_name = λ id. txt "ns-" ++ id;
  load_config = λ w. err (txt "no file");
  create = λ id w. (w, none);
  delete = λ ns w. (w, none);
  write_resolv_conf = λ ns w. w;
  setup_host_access = λ ns publish on w. (w, set_up);
  teardown_host_access = λ ns w. (w, none);
  has_host_access = false;
  forget_tailnet = λ id w. (w, none);
  remove_state_dir = λ id w. (w, none);
  start = λ id ns allow w. (true, none);
  stop = λ ns id w. (if id == txt "work" then false else w, none);
  authorize = λ id ns key url w. (w, none);
  refresh_dns_if_ready = λ id ns w. (w, ok false);
  sync_routes_of = λ ns id w. (w, none);
  sync_host = λ id ns c w. (w, none);
}

-- No command of the chains succeeds.
abbrev broken_writer : Host Bool
broken_writer = record {
  run = λ args w. (w, record { output = []; failed = some (txt "exit 1") });
  run_input = λ file args w. (w, record { output = []; failed = some (txt "exit 1") });
  sha256_hex = λ s. s;
}

abbrev upstream : Ipv6Host
upstream = record {
  upstreams = txt "eth0" ∷ [];
  prefixes = [];
  force_forwarding = true;
  forwarding = false;
}

abbrev keys6 : Ipv6Keys Bool
keys6 = record {
  read_ipv6_host = λ w. ok upstream;
  enable_force_forwarding = λ devices w. (w, ok devices);
  enable_all_forwarding = λ w. (w, ok []);
  disable_force_forwarding = λ devices w. (w, none);
  ensure_ipv6_path = λ ns index force w. (w, ok []);
}

abbrev env : Env Bool
env = record {
  managers = managers;
  infra_subnet = [];
  getenv = λ name. [];
  lock_failed = λ w. none;
  list_namespaces = λ w. ok [];
  tailnet_id = λ ns. ns;
  is_healthy = λ ns id w. w;
  unprotected_dns = λ id w. none;
  files =
      λ w. record { lstat = λ path. no_entry; read_file = λ path. no_content; sha256_hex = λ s. s };
  now = λ w. 0;
  quote = λ s. s;
  prober = none;
  writer = none;
  writer6 = some broken_writer;
  ipv6 = some keys6;
  reaper = none;
  ensure_forward_path = none;
  net = record { split_host_port = λ s. none; parse_cidr = λ s. none; ip_string = λ bs. bs };
  sha256 = λ s. [];
  compile_text = λ e. [];
  forget_all = none;
}

loop-IsBounded_example :
    IsBounded (loop env 3 true fresh).1 × ((loop env 3 true fresh).1.paused_states ≡ [])
loop-IsBounded_example = loop-IsBounded env 3 true fresh (omega arith)

reconcile_failed_example :
    ((reconcile env true fresh).0 ≡ true) × Kept fresh (reconcile env true fresh).1
unfolding reconcile desired_state
reconcile_failed_example =
    reconcile_failed env true fresh (txt "failed to load config: " ++ txt "no file") refl

-- The namespace of work exists and its daemon is down.
abbrev actual : Map Text TailnetState
actual = (txt "work", record { namespace = txt "ns-work"; exists = true; healthy = false }) ∷ []

abbrev wanted_work : Map Text Tailnet
wanted_work = (txt "work", work) ∷ []

apply_starts_example :
    let plan = (diff (tick_of env false) wanted_work actual fresh).1 in
    let noted =
      apply
        (watched managers (txt "work"))
        true
        plan
        (false, runs (tick_of env false) (lookup (txt "work") actual))
        fresh in
    (noted.0.1 ≡ true) × ((noted.0.0, noted.1) ≡ apply managers true plan false fresh)
unfolding same_text lookup namespace_name
apply_starts_example =
    apply_starts managers true (txt "work") (tick_of env false) wanted_work actual false fresh fresh
      work (λ j. refl) refl refl refl (refl, tt) refl refl refl

abbrev input : AccessInput
input = record {
  set = record { mode = []; rules = [] };
  devices = [];
  ports = [];
  ipv6 = false;
  compiled = record { guard = []; forward = []; out = [] };
}

abbrev plan : Ipv6Plan
plan = elim (plan_ipv6 env input false fresh) [ err e ↦ empty_plan | ok p ↦ p ]

guard_covers_forced_example :
    plan.compiled.guard
    ≡ map guard_rule (enable_ipv6_forwarding env keys6 plan true fresh).1.forced_upstreams
unfolding plan_ipv6 same_text tail_for_mode compile_ipv6 effective_mode enable_ipv6_forwarding union
    validate compile_family
guard_covers_forced_example =
    guard_covers_forced env keys6 input plan false true fresh fresh refl refl refl refl refl
