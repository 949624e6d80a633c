-- ===== src/Reconciler/Plan.antt =====
-- internal/reconciler/reconciler.go: Diff, which plans the actions of a tick.
pub mod Independent
pub mod PerTailnet
pub mod Cases
pub mod Steady
pub mod Named
use hydrascale.Common.{
  ℕ, Bool, true, false, not, ◌&&◌, ◌||◌, Option, none, some, List, [], ◌∷◌, ◌++◌, Text, txt,
  text_eq, ◌==◌, eqb, leb, if◌then◌else◌, length, Map, lookup, put, delete, or_default, is_some,
}
use hydrascale.Config.{Tailnet, Config, tailnet_host_access, resolve_auth_key, resolve_control_url}
use hydrascale.Reconciler.{
  State, flag, host_access_rules_present, dns_refresh_waits, set_dns_refresh_pending,
}

pub data ActionType : Type 0 where
  create_namespace delete_namespace start_daemon stop_daemon sync_routes : ActionType
  sync_host_access teardown_host_access auth_daemon refresh_dns : ActionType

pub record Action : Type 0 where
  pub kind : ActionType
  pub tailnet : Text
  pub namespace : Text
  pub auth_key : Text
  pub control_url : Text

-- An action without a key and a control URL.
abbrev pub plain : ActionType → Text → Text → Action
plain kind id ns = record {
  kind = kind;
  tailnet = id;
  namespace = ns;
  auth_key = [];
  control_url = [];
}

-- `IsPeriodicSync`
abbrev pub is_periodic_sync : ActionType → Bool
is_periodic_sync sync_routes = true
is_periodic_sync sync_host_access = true
is_periodic_sync _ = false

pub record TailnetState : Type 0 where
  pub namespace : Text
  pub exists : Bool
  pub healthy : Bool

-- What Diff reads beside the states: the name of a namespace, the environment, and the configuration
-- file, where it loads.
pub record Tick : Type 0 where
  pub get_name : Text → Text
  pub getenv : Text → Text
  pub loaded : Option Config

-- The first branch: the namespace does not exist.
create_actions : Tick → Text → Tailnet → List Action
create_actions tick id tn =
    let ns = tick.get_name id in
    let key = resolve_auth_key tick.getenv id tn.auth_key in
    let url : Text = elim tick.loaded [
      | none ↦ []
      | some cfg ↦ resolve_control_url tn.control_url cfg.control_url
    ] in
    plain create_namespace id ns
    ∷ plain start_daemon id ns
    ∷ (if key == []
        then []
        else record {
          kind = auth_daemon;
          tailnet = id;
          namespace = ns;
          auth_key = key;
          control_url = url;
        }
          ∷ [])

-- The third branch: the daemon is healthy.
healthy_actions : Tick → Text → State → List Action
healthy_actions tick id s =
    let ns = tick.get_name id in
    (if dns_refresh_waits id s then plain refresh_dns id ns ∷ [] else [])
    ++ plain sync_routes id ns ∷ elim tick.loaded [
      | none ↦ []
      | some cfg ↦
          if tailnet_host_access cfg id
          then plain sync_host_access id ns ∷ []
          else if host_access_rules_present id s
          then plain teardown_host_access id ns ∷ []
          else []
    ]

-- The three branches of a tailnet that is neither in the error state nor paused.
branch : Tick → Text → Tailnet → Option TailnetState → State → State × List Action
unfolding create_actions healthy_actions
branch tick id tn none s = (s, create_actions tick id tn)
branch tick id tn (some state) s =
    let ns = tick.get_name id in
    if not state.exists
    then (s, create_actions tick id tn)
    else if not state.healthy
    then (
      set_dns_refresh_pending id true s,
      plain start_daemon id ns ∷ plain refresh_dns id ns ∷ [],
    )
    else (s, healthy_actions tick id s)

-- The body of the loop over the desired tailnets.
unfoldable pub diff_tailnet :
    Tick → Map Text TailnetState → Text → Tailnet → State → State × List Action
unfolding branch
diff_tailnet tick actual id tn s =
    if flag id s.error_states
    then (s, [])
    else if flag id s.paused_states
    then (s, [])
    else branch tick id tn (lookup id actual) s

unfoldable pub diff_desired :
    Tick → Map Text TailnetState → Map Text Tailnet → State → State × List Action
unfolding diff_tailnet
diff_desired tick actual [] s = (s, [])
diff_desired tick actual ((id, tn) ∷ desired) s =
    let (planned, actions) = diff_tailnet tick actual id tn s in
    let (final, rest) = diff_desired tick actual desired planned in (final, actions ++ rest)

-- The loop over the tailnets of the host.
unfoldable pub diff_actual : Map Text Tailnet → Map Text TailnetState → List Action
diff_actual desired [] = []
diff_actual desired ((id, state) ∷ actual) =
    let rest = diff_actual desired actual in
    if is_some (lookup id desired)
    then rest
    else plain stop_daemon id state.namespace ∷ plain delete_namespace id state.namespace ∷ rest

unfoldable pub diff : Tick → Map Text Tailnet → Map Text TailnetState → State → State × List Action
unfolding diff_desired diff_actual
diff tick desired actual s =
    let (final, actions) = diff_desired tick actual desired s in
    (final, actions ++ diff_actual desired actual)
