-- ===== src/Reconciler/Execute.antt =====
-- internal/reconciler/reconciler.go: executeAction, with the managers of the host as a parameter.
pub mod Kept
pub mod Bounded
pub mod Alive
use hydrascale.Common.{
  ℕ, Bool, true, false, not, ◌&&◌, ◌||◌, Option, none, some, List, [], ◌∷◌, ◌++◌, Text, txt,
  text_eq, ◌==◌, if◌then◌else◌, Map, Result, ok, err,
}
use hydrascale.Config.{Tailnet, Config, tailnet_host_access, is_valid_id}
use hydrascale.Reconciler.{
  State, emit, set_host_access_rules, set_dns_refresh_pending, report_dns_refresh_wait,
}
use hydrascale.Reconciler.Plan.{
  ActionType, Action, create_namespace, delete_namespace, start_daemon, stop_daemon, sync_routes,
  sync_host_access, teardown_host_access, auth_daemon, refresh_dns,
}

-- The answer of `setupHostAccess`: nil, an error of a published port, or another error.
pub data Setup : Type 0 where
  set_up : Setup
  published_ports_failed setup_failed : Text → Setup

-- The managers that executeAction drives, as functions on the host `W`; `none` is the nil error.
-- `sync_routes_of` is PollStatus followed by SyncRoutes, and `sync_host` is fetchStatus, VethIPs,
-- SetAliasResolution and Sync.
pub record Managers (W : Type 0) : Type 0 where
  pub get_name : Text → Text
  pub load_config : W → Result Text Config
  pub create : Text → W → W × Option Text
  pub delete : Text → W → W × Option Text
  pub write_resolv_conf : Text → W → W
  pub setup_host_access : Text → List Text → Bool → W → W × Setup
  pub teardown_host_access : Text → W → W × Option Text
  -- false where the reconciler holds no host access manager
  pub has_host_access : Bool
  pub forget_tailnet : Text → W → W × Option Text
  pub remove_state_dir : Text → W → W × Option Text
  pub start : Text → Text → Bool → W → W × Option Text
  pub stop : Text → Text → W → W × Option Text
  pub authorize : Text → Text → Text → Text → W → W × Option Text
  pub refresh_dns_if_ready : Text → Text → W → W × Result Text Bool
  pub sync_routes_of : Text → Text → W → W × Option Text
  pub sync_host : Text → Text → Config → W → W × Option Text

-- What every operation of the reconciler answers: the host, the state and the error.
abbrev pub Outcome : Type 0 → Type 0
Outcome W = W × State × Option Text

abbrev state_dir : Text
state_dir = txt "/var/lib/hydrascale/state/"

abbrev pub labelled : Text → Option Text → List Text
labelled label none = []
labelled label (some e) = (label ++ txt ": " ++ e) ∷ []

-- The text of errors.Join.
abbrev pub join_lines : List Text → Text
join_lines [] = []
join_lines (e ∷ []) = e
join_lines (e ∷ d ∷ es) = e ++ 10 ∷ join_lines (d ∷ es)

unfoldable pub report_teardown : Text → List Text → State → State × Option Text
report_teardown id [] s = (s, none)
report_teardown id (e ∷ es) s =
    let text = join_lines (e ∷ es) in (emit (txt "teardown.failed") id text s, some text)

publish_in : Text → List Tailnet → List Text
publish_in id [] = []
publish_in id (tn ∷ tns) = if tn.id == id then tn.publish else publish_in id tns

unfoldable pub publish_of : Config → Text → List Text
unfolding publish_in
publish_of c id = publish_in id c.tailnets

module _ {W : Type 0} (m : Managers W) (ipv6_on : Bool) where
  write_host_access : Text → Text → List Text → W → State → Outcome W
  write_host_access id ns publish w s =
      let (after, answer) = m.setup_host_access ns publish ipv6_on w in
      elim answer [
        | set_up ↦ (after, s, none)
        | published_ports_failed e ↦ (after, emit (txt "access.write_failed") id e s, none)
        | setup_failed e ↦ (after, s, some e)
      ]

  -- A failed setup is logged and the creation still succeeds.
  setup_created : Text → W → State → Outcome W
  unfolding write_host_access
  setup_created id w s =
      let ns = m.get_name id in
      elim (m.load_config w) [
        | err e ↦ (w, s, none)
        | ok cfg ↦
            if tailnet_host_access cfg id
            then (let (after, next, failed) = write_host_access id ns (publish_of cfg id) w s in
                elim failed [
                  | some e ↦ (after, next, none)
                  | none ↦ (after, set_host_access_rules id true next, none)
                ])
            else (w, s, none)
      ]

  execute_create : Text → W → State → Outcome W
  unfolding setup_created
  execute_create id w s =
      let (made, failed) = m.create id w in
      elim failed [
        | some e ↦ (made, s, some e)
        | none ↦ setup_created id (m.write_resolv_conf (m.get_name id) made) s
      ]

  -- The host access manager forgets the tailnet, where there is one.
  forget : Text → W → W × Option Text
  forget id w = if m.has_host_access then m.forget_tailnet id w else (w, none)

  -- safeStateDir: the identifier is valid, so that its directory is a child of the base.
  remove_state : Text → W → W × Option Text
  remove_state id w = if is_valid_id id then m.remove_state_dir id w else (w, none)

  execute_delete : Text → Text → W → State → Outcome W
  unfolding forget remove_state
  execute_delete id ns w s =
      let (w1, e1) = m.delete ns w in
      let s1 = set_dns_refresh_pending id false (set_host_access_rules id false s) in
      let (w2, e2) = forget id w1 in
      let (w3, e3) = remove_state id w2 in
      let errors =
        labelled (txt "delete the namespace " ++ ns) e1
        ++ labelled (txt "remove the host access state of " ++ id) e2
        ++ labelled (txt "remove the state directory " ++ state_dir ++ id) e3 in
      let (s2, failed) = report_teardown id errors s1 in (w3, s2, failed)

  execute_teardown : Text → W → State → Outcome W
  unfolding forget
  execute_teardown id w s =
      let ns = m.get_name id in
      let (w1, e1) = m.teardown_host_access ns w in
      let s1 : State = elim e1 [ none ↦ set_host_access_rules id false s | some e ↦ s ] in
      let (w2, e2) = forget id w1 in
      let errors =
        labelled (txt "remove the host access rules of " ++ ns) e1
        ++ labelled (txt "remove the host access state of " ++ id) e2 in
      let (s2, failed) = report_teardown id errors s1 in (w2, s2, failed)

  execute_start : Text → Text → W → State → Outcome W
  execute_start id ns w s =
      let w1 = m.write_resolv_conf ns w in
      let allow : Bool = elim (m.load_config w1) [
        | err e ↦ false
        | ok cfg ↦ cfg.allow_unprotected
      ] in
      let (w2, failed) = m.start id ns allow w1 in (w2, s, failed)

  execute_refresh : Text → Text → W → State → Outcome W
  execute_refresh id ns w s =
      let (w1, answer) = m.refresh_dns_if_ready id ns w in
      elim answer [
        | err e ↦ (w1, s, some e)
        | ok refreshed ↦
            if not refreshed
            then (w1, report_dns_refresh_wait id s, none)
            else (w1, set_dns_refresh_pending id false s, none)
      ]

  sync_declared : Text → Config → W → State → Outcome W
  unfolding write_host_access
  sync_declared id cfg w s =
      let ns = m.get_name id in
      let (w1, s1, failed) = write_host_access id ns (publish_of cfg id) w s in
      elim failed [
        | some e ↦ (w1, s1, some (txt "host-access: setup failed for " ++ ns ++ txt ": " ++ e))
        | none ↦
            let (w2, e2) = m.sync_host id ns cfg w1 in (w2, set_host_access_rules id true s1, e2)
      ]

  execute_sync_host : Text → W → State → Outcome W
  unfolding sync_declared
  execute_sync_host id w s =
      if not m.has_host_access then (w, s, none) else elim (m.load_config w) [
        | err e ↦ (w, s, some (txt "host-access: failed to read the configuration: " ++ e))
        | ok cfg ↦ sync_declared id cfg w s
      ]

  unfoldable pub execute_action : Action → W → State → Outcome W
  unfolding execute_create execute_delete execute_teardown execute_start execute_refresh
      execute_sync_host
  execute_action a w s = elim a.kind [
    | create_namespace ↦ execute_create a.tailnet w s
    | delete_namespace ↦ execute_delete a.tailnet a.namespace w s
    | teardown_host_access ↦ execute_teardown a.tailnet w s
    | start_daemon ↦ execute_start a.tailnet a.namespace w s
    | stop_daemon ↦ (let (after, failed) = m.stop a.namespace a.tailnet w in (after, s, failed))
    | auth_daemon ↦
        (let (after, failed) = m.authorize a.tailnet a.namespace a.auth_key a.control_url w in
          (after, s, failed))
    | refresh_dns ↦ execute_refresh a.tailnet a.namespace w s
    | sync_routes ↦
        (let (after, failed) = m.sync_routes_of a.namespace a.tailnet w in (after, s, failed))
    | sync_host_access ↦ execute_sync_host a.tailnet w s
  ]
