-- ===== src/Reconciler/Execute/Alive.antt =====
-- What the actions of a plan ask the managers for one tailnet.
pub mod Watched
pub mod Unwatched
use hydrascale.Common.{
  Bool, true, false, ◌≡◌, refl, none, List, Text, text_eq, ◌==◌, Bool-cases, Option-cases,
  Result-cases, inl, inr, arith,
}
use hydrascale.Config.{Config}
use hydrascale.Reconciler.{State}
use hydrascale.Reconciler.Plan.{
  ActionType, create_namespace, delete_namespace, start_daemon, stop_daemon, sync_routes,
  sync_host_access, teardown_host_access, auth_daemon, refresh_dns,
}
use hydrascale.Reconciler.Plan.Named.{removes}
use hydrascale.Reconciler.Execute.{
  Managers, publish_of, write_host_access, setup_created, execute_create, forget, remove_state,
  execute_delete, execute_teardown, execute_start, execute_refresh, sync_declared,
  execute_sync_host, execute_action,
}

-- A fact about one tailnet that a start of it establishes, and that only its own stop and the deletion
-- of its own namespace end.
pub record Upkeep {W : Type 0} (m : Managers W) (id : Text) : Type 0 where
  pub is_up : W → Bool
  pub names_apart : (j : Text) → (j == id) ≡ false → (m.get_name j == m.get_name id) ≡ false
  pub starts : (ns : Text) (allow : Bool) (w : W) → is_up (m.start id ns allow w).0 ≡ true
  pub keeps_create : (j : Text) (w : W) → is_up w ≡ true → is_up (m.create j w).0 ≡ true
  pub keeps_delete :
      (ns : Text) (w : W)
      → (ns == m.get_name id) ≡ false
      → is_up w ≡ true
      → is_up (m.delete ns w).0 ≡ true
  pub keeps_resolv_conf :
      (ns : Text) (w : W) → is_up w ≡ true → is_up (m.write_resolv_conf ns w) ≡ true
  pub keeps_setup :
      (ns : Text) (publish : List Text) (on : Bool) (w : W)
      → is_up w ≡ true
      → is_up (m.setup_host_access ns publish on w).0 ≡ true
  pub keeps_teardown :
      (ns : Text) (w : W) → is_up w ≡ true → is_up (m.teardown_host_access ns w).0 ≡ true
  pub keeps_forget : (j : Text) (w : W) → is_up w ≡ true → is_up (m.forget_tailnet j w).0 ≡ true
  pub keeps_state_dir :
      (j : Text) (w : W) → is_up w ≡ true → is_up (m.remove_state_dir j w).0 ≡ true
  pub keeps_start :
      (j ns : Text) (allow : Bool) (w : W) → is_up w ≡ true → is_up (m.start j ns allow w).0 ≡ true
  pub keeps_stop :
      (ns j : Text) (w : W) → (j == id) ≡ false → is_up w ≡ true → is_up (m.stop ns j w).0 ≡ true
  pub keeps_authorize :
      (j ns key url : Text) (w : W) → is_up w ≡ true → is_up (m.authorize j ns key url w).0 ≡ true
  pub keeps_refresh :
      (j ns : Text) (w : W) → is_up w ≡ true → is_up (m.refresh_dns_if_ready j ns w).0 ≡ true
  pub keeps_routes :
      (ns j : Text) (w : W) → is_up w ≡ true → is_up (m.sync_routes_of ns j w).0 ≡ true
  pub keeps_host :
      (j ns : Text) (cfg : Config) (w : W)
      → is_up w ≡ true
      → is_up (m.sync_host j ns cfg w).0 ≡ true

module _ {W : Type 0} (m : Managers W) (on : Bool) (id : Text) (up : Upkeep m id) where
  open up use {is_up}

  write_host_access-up :
      (j ns : Text) (publish : List Text) (w : W) (s : State)
      → is_up w ≡ true
      → is_up (write_host_access m on j ns publish w s).0 ≡ true
  unfolding write_host_access
  write_host_access-up j ns publish w s h = ground (arith, up.keeps_setup ns publish on w h)

  setup_created-up :
      (j : Text) (w : W) (s : State) → is_up w ≡ true → is_up (setup_created m on j w s).0 ≡ true
  unfolding setup_created
  setup_created-up j w s h = elim (Result-cases (m.load_config w)) [
    | inr (e, unread) ↦ rw (unread, setup_created) h
    | inl (cfg, loaded) ↦
        let written = write_host_access-up j (m.get_name j) (publish_of cfg j) w s h in
        rw (loaded, setup_created) (ground (arith, written, h))
  ]

  execute_create-up :
      (j : Text) (w : W) (s : State) → is_up w ≡ true → is_up (execute_create m on j w s).0 ≡ true
  unfolding execute_create
  execute_create-up j w s h =
      let made = up.keeps_create j w h in
      let written = up.keeps_resolv_conf (m.get_name j) (m.create j w).0 made in
      let last =
        setup_created-up j (m.write_resolv_conf (m.get_name j) (m.create j w).0) s written in
      elim (Option-cases (m.create j w).1) [
        | inl fine ↦ rw (fine, execute_create) last
        | inr (e, failed) ↦ rw (failed, execute_create) made
      ]

  forget-up : (j : Text) (w : W) → is_up w ≡ true → is_up (forget m on j w).0 ≡ true
  unfolding forget
  forget-up j w h = ground (arith, up.keeps_forget j w h)

  execute_delete-up :
      (j ns : Text) (w : W) (s : State)
      → (ns == m.get_name id) ≡ false
      → is_up w ≡ true
      → is_up (execute_delete m on j ns w s).0 ≡ true
  unfolding execute_delete remove_state
  execute_delete-up j ns w s other h =
      let gone = up.keeps_delete ns w other h in
      let left = forget-up j (m.delete ns w).0 gone in
      ground (arith, left, up.keeps_state_dir j (forget m on j (m.delete ns w).0).0 left)

  execute_teardown-up :
      (j : Text) (w : W) (s : State) → is_up w ≡ true → is_up (execute_teardown m on j w s).0 ≡ true
  unfolding execute_teardown
  execute_teardown-up j w s h =
      let ns = m.get_name j in
      forget-up j (m.teardown_host_access ns w).0 (up.keeps_teardown ns w h)

  execute_start-up :
      (j ns : Text) (w : W) (s : State)
      → is_up w ≡ true
      → is_up (execute_start m on j ns w s).0 ≡ true
  unfolding execute_start
  execute_start-up j ns w s h =
      up.keeps_start j ns _ (m.write_resolv_conf ns w) (up.keeps_resolv_conf ns w h)

  execute_refresh-up :
      (j ns : Text) (w : W) (s : State)
      → is_up w ≡ true
      → is_up (execute_refresh m on j ns w s).0 ≡ true
  unfolding execute_refresh
  execute_refresh-up j ns w s h = ground (arith, up.keeps_refresh j ns w h)

  sync_declared-up :
      (j : Text) (cfg : Config) (w : W) (s : State)
      → is_up w ≡ true
      → is_up (sync_declared m on j cfg w s).0 ≡ true
  unfolding sync_declared
  sync_declared-up j cfg w s h =
      let ns = m.get_name j in
      let written = write_host_access m on j ns (publish_of cfg j) w s in
      let first = write_host_access-up j ns (publish_of cfg j) w s h in
      elim (Option-cases written.2) [
        | inl fine ↦ rw (fine, sync_declared) (up.keeps_host j ns cfg written.0 first)
        | inr (e, failed) ↦ rw (failed, sync_declared) first
      ]

  execute_sync_host-up :
      (j : Text) (w : W) (s : State)
      → is_up w ≡ true
      → is_up (execute_sync_host m on j w s).0 ≡ true
  unfolding execute_sync_host
  execute_sync_host-up j w s h = elim (Bool-cases m.has_host_access) [
    | inr gone ↦ rw (gone, execute_sync_host) h
    | inl held ↦ elim (Result-cases (m.load_config w)) [
      | inr (e, unread) ↦ rw (held, unread, execute_sync_host) h
      | inl (cfg, loaded) ↦ rw (held, loaded, execute_sync_host) (sync_declared-up j cfg w s h)
    ]
  ]

  -- A removal of another tailnet's daemon and namespace, and every other action.
  pub execute_action-up :
      (kind : ActionType) (j ns key url : Text) (w : W) (s : State)
      → (removes kind ≡ true → ((j == id) ≡ false) × ((ns == m.get_name id) ≡ false))
      → is_up w ≡ true
      → is_up
          (execute_action m on
            (record { kind = kind; tailnet = j; namespace = ns; auth_key = key; control_url = url })
            w
            s).0
        ≡ true
  unfolding execute_action
  execute_action-up create_namespace j ns key url w s apart h = execute_create-up j w s h
  execute_action-up delete_namespace j ns key url w s apart h =
      execute_delete-up j ns w s (apart refl).1 h
  execute_action-up start_daemon j ns key url w s apart h = execute_start-up j ns w s h
  execute_action-up stop_daemon j ns key url w s apart h = up.keeps_stop ns j w (apart refl).0 h
  execute_action-up sync_routes j ns key url w s apart h = up.keeps_routes ns j w h
  execute_action-up sync_host_access j ns key url w s apart h = execute_sync_host-up j w s h
  execute_action-up teardown_host_access j ns key url w s apart h = execute_teardown-up j w s h
  execute_action-up auth_daemon j ns key url w s apart h = up.keeps_authorize j ns key url w h
  execute_action-up refresh_dns j ns key url w s apart h = execute_refresh-up j ns w s h

  pub execute_start_own :
      (ns key url : Text) (w : W) (s : State)
      → is_up
          (execute_action m on
            (record {
              kind = start_daemon;
              tailnet = id;
              namespace = ns;
              auth_key = key;
              control_url = url;
            })
            w
            s).0
        ≡ true
  unfolding execute_action execute_start
  execute_start_own ns key url w s = up.starts ns _ (m.write_resolv_conf ns w)
