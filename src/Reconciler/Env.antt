-- ===== src/Reconciler/Env.antt =====
-- internal/reconciler/reconciler.go: the host that a tick works on, and the desired and the actual
-- state that it reads.
use hydrascale.Common.{
  ℕ, Bool, true, Option, List, [], ◌∷◌, ◌++◌, Text, txt, text_eq, ◌==◌, if◌then◌else◌, Map, put,
  Result, ok, err,
}
use hydrascale.Access.Compile.{Net, CompileError}
use hydrascale.Access.Writer.{Host}
use hydrascale.Config.{Tailnet}
use hydrascale.Dns.HostFile.{Files}
use hydrascale.Reconciler.Plan.{TailnetState}
use hydrascale.Reconciler.Execute.{Managers}
use hydrascale.Reconciler.Protection.{Unprotected}
use hydrascale.Reach.{Pinger}

-- The removal of host rules, `reaper`: the count, with the error where there is one.
pub record Reaper (W : Type 0) : Type 0 where
  pub reap_stale_rules : W → W × ℕ × Option Text
  pub remove_legacy_forward_rules : W → W × ℕ × Option Text
  pub namespace_forwarding : Text → W → Result Text Text

-- `namespaces.IPv6Host`
pub record Ipv6Host : Type 0 where
  pub upstreams : List Text
  pub prefixes : List Text
  pub force_forwarding : Bool
  pub forwarding : Bool

-- The IPv6 keys of the host.
pub record Ipv6Keys (W : Type 0) : Type 0 where
  pub read_ipv6_host : W → Result Text Ipv6Host
  pub enable_force_forwarding : List Text → W → W × Result Text (List Text)
  pub enable_all_forwarding : W → W × Result Text (List Text)
  pub disable_force_forwarding : List Text → W → W × Option Text
  pub ensure_ipv6_path : Text → ℕ → Bool → W → W × Result Text (List Text)

-- The fields of `Reconciler` that no tick changes, with the functions of the Go library. A manager that
-- the reconciler may lack is an Option.
pub record Env (W : Type 0) : Type 0 where
  pub managers : Managers W
  pub infra_subnet : Text
  pub getenv : Text → Text
  pub lock_failed : W → Option Text
  -- ns.List, GetTailnetID and CheckHealth
  pub list_namespaces : W → Result Text (List Text)
  pub tailnet_id : Text → Text
  pub is_healthy : Text → Text → W → Bool
  pub unprotected_dns : Text → W → Option Unprotected
  pub files : W → Files
  pub now : W → ℕ
  pub quote : Text → Text
  pub prober : Option (Pinger W)
  pub writer : Option (Host W)
  pub writer6 : Option (Host W)
  pub ipv6 : Option (Ipv6Keys W)
  pub reaper : Option (Reaper W)
  pub ensure_forward_path : Option (Text → ℕ → Text → W → W × Result Text (List Text))
  pub net : Net
  pub sha256 : Text → List ℕ
  pub compile_text : CompileError → Text
  -- TeardownAll of the host access manager
  pub forget_all : Option (W → W × Option Text)

declare_all : List Tailnet → Map Text Tailnet → Map Text Tailnet
declare_all [] desired = desired
declare_all (tn ∷ tns) desired = declare_all tns (put tn.id tn desired)

module _ {W : Type 0} (env : Env W) where
  -- `DesiredState`
  unfoldable pub desired_state : W → Result Text (Map Text Tailnet)
  unfolding declare_all
  desired_state w = elim (env.managers.load_config w) [
    | err e ↦ err (txt "failed to load config: " ++ e)
    | ok cfg ↦ ok (declare_all cfg.tailnets [])
  ]

  -- The loop of ActualState.
  unfoldable pub observe_all : List Text → W → Map Text TailnetState → Map Text TailnetState
  observe_all [] w actual = actual
  observe_all (ns ∷ names) w actual =
      let id = env.tailnet_id ns in
      let state : TailnetState = record {
        namespace = ns;
        exists = true;
        healthy = env.is_healthy ns id w;
      } in
      observe_all names w (if id == [] then actual else put id state actual)

  -- `ActualState`, without the routes and the measurement, which the status alone shows.
  unfoldable pub actual_state : W → Result Text (Map Text TailnetState)
  unfolding observe_all
  actual_state w = elim (env.list_namespaces w) [
    | err e ↦ err (txt "failed to list namespaces: " ++ e)
    | ok names ↦ ok (observe_all names w [])
  ]
