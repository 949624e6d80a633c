-- ===== src/Reconciler/Execute/Alive/Unwatched.antt =====
-- executeAction with the noted managers beside executeAction with the managers as they are.
use hydrascale.Common.{
  txt, ◌++◌, Bool, true, false, none, some, List, Text, text_eq, ◌≡◌, ◌⊎◌, refl, ap, ◌∙◌,
  Option-cases, Result-cases, Bool-cases, inl, inr,
}
use hydrascale.Config.{Config, tailnet_host_access, is_valid_id}
use hydrascale.Reconciler.{State, set_host_access_rules}
use hydrascale.Reconciler.Plan.{
  Action, create_namespace, delete_namespace, start_daemon, stop_daemon, sync_routes,
  sync_host_access, teardown_host_access, auth_daemon, refresh_dns,
}
use hydrascale.Reconciler.Execute.{
  Managers, Setup, set_up, published_ports_failed, setup_failed, Outcome, publish_of,
  write_host_access, setup_created, execute_create, forget, remove_state, execute_delete,
  execute_teardown, execute_start, execute_refresh, sync_declared, execute_sync_host,
  execute_action,
}
use hydrascale.Reconciler.Execute.Alive.Watched.{watched}

-- What setup_created and sync_declared make of the outcome of write_host_access.
mark_created : {W : Type 0} → Text → Outcome W → Outcome W
mark_created id (w, s, some e) = (w, s, none)
mark_created id (w, s, none) = (w, set_host_access_rules id true s, none)

mark_synced : {W : Type 0} → Managers W → Text → Config → Outcome W → Outcome W
mark_synced m id cfg (w, s, some e) =
    (w, s, some (txt "host-access: setup failed for " ++ m.get_name id ++ txt ": " ++ e))
mark_synced m id cfg (w, s, none) =
    let (after, failed) = m.sync_host id (m.get_name id) cfg w in
    (after, set_host_access_rules id true s, failed)

module _ {W : Type 0} (m : Managers W) (on : Bool) (id : Text) where
  -- An outcome without the note.
  abbrev pub unwatched : Outcome (W × Bool) → Outcome W
  unwatched o = (o.0.0, o.1, o.2)

  Setup-cases :
      (x : Setup)
      → (x ≡ set_up)
        ⊎ (((e : Text) × (x ≡ published_ports_failed e)) ⊎ ((e : Text) × (x ≡ setup_failed e)))
  Setup-cases set_up = inl refl
  Setup-cases (published_ports_failed e) = inr (inl (e, refl))
  Setup-cases (setup_failed e) = inr (inr (e, refl))

  write_host_access-unwatched :
      (j ns : Text) (publish : List Text) (w : W × Bool) (s : State)
      → unwatched (write_host_access (watched m id) on j ns publish w s)
        ≡ write_host_access m on j ns publish w.0 s
  unfolding write_host_access watched
  write_host_access-unwatched j ns publish w s =
      elim (Setup-cases (m.setup_host_access ns publish on w.0).1) [
        | inl e ↦ rw (write_host_access, e) refl
        | inr (inl (t, e)) ↦ rw (write_host_access, e) refl
        | inr (inr (t, e)) ↦ rw (write_host_access, e) refl
      ]

  execute_refresh-unwatched :
      (j ns : Text) (w : W × Bool) (s : State)
      → unwatched (execute_refresh (watched m id) on j ns w s) ≡ execute_refresh m on j ns w.0 s
  unfolding execute_refresh watched
  execute_refresh-unwatched j ns w s = elim (Result-cases (m.refresh_dns_if_ready j ns w.0).1) [
    | inl (true, e) ↦ rw (execute_refresh, e) refl
    | inl (false, e) ↦ rw (execute_refresh, e) refl
    | inr (t, e) ↦ rw (execute_refresh, e) refl
  ]

  execute_start-unwatched :
      (j ns : Text) (w : W × Bool) (s : State)
      → unwatched (execute_start (watched m id) on j ns w s) ≡ execute_start m on j ns w.0 s
  unfolding execute_start watched
  execute_start-unwatched j ns w s = refl

  execute_teardown-unwatched :
      (j : Text) (w : W × Bool) (s : State)
      → unwatched (execute_teardown (watched m id) on j w s) ≡ execute_teardown m on j w.0 s
  unfolding execute_teardown watched forget
  execute_teardown-unwatched j w s = elim (Bool-cases m.has_host_access) [
    | inl held ↦ rw held refl
    | inr gone ↦ rw gone refl
  ]

  execute_delete-unwatched :
      (j ns : Text) (w : W × Bool) (s : State)
      → unwatched (execute_delete (watched m id) on j ns w s) ≡ execute_delete m on j ns w.0 s
  unfolding execute_delete watched forget remove_state
  execute_delete-unwatched j ns w s = elim (Bool-cases m.has_host_access) [
    | inl held ↦ elim (Bool-cases (is_valid_id j)) [
      | inl valid ↦ rw (held, valid) refl
      | inr bad ↦ rw (held, bad) refl
    ]
    | inr gone ↦ elim (Bool-cases (is_valid_id j)) [
      | inl valid ↦ rw (gone, valid) refl
      | inr bad ↦ rw (gone, bad) refl
    ]
  ]

  mark_created-unwatched :
      (j : Text) (o : Outcome (W × Bool))
      → unwatched (mark_created j o) ≡ mark_created j (unwatched o)
  unfolding mark_created
  mark_created-unwatched j (w, s, some e) = refl
  mark_created-unwatched j (w, s, none) = refl

  mark_synced-unwatched :
      (j : Text) (cfg : Config) (o : Outcome (W × Bool))
      → unwatched (mark_synced (watched m id) j cfg o) ≡ mark_synced m j cfg (unwatched o)
  unfolding mark_synced watched
  mark_synced-unwatched j cfg (w, s, some e) = refl
  mark_synced-unwatched j cfg (w, s, none) = refl

  setup_created-unwatched :
      (j : Text) (w : W × Bool) (s : State)
      → unwatched (setup_created (watched m id) on j w s) ≡ setup_created m on j w.0 s
  unfolding setup_created watched mark_created
  setup_created-unwatched j w s = elim (Result-cases (m.load_config w.0)) [
    | inr (e, failed) ↦ rw (setup_created, failed) refl
    | inl (cfg, loaded) ↦ elim (Bool-cases (tailnet_host_access cfg j)) [
      | inr off ↦ rw (setup_created, loaded, off) refl
      | inl wants ↦
          rw (setup_created, loaded, wants)
            (mark_created-unwatched j
                (write_host_access (watched m id) on j (m.get_name j) (publish_of cfg j) w s)
              ∙ ap (mark_created j)
                  (write_host_access-unwatched j (m.get_name j) (publish_of cfg j) w s))
    ]
  ]

  execute_create-unwatched :
      (j : Text) (w : W × Bool) (s : State)
      → unwatched (execute_create (watched m id) on j w s) ≡ execute_create m on j w.0 s
  unfolding execute_create watched
  execute_create-unwatched j w s = elim (Option-cases (m.create j w.0).1) [
    | inl e ↦
        rw (execute_create, e)
          (setup_created-unwatched j (m.write_resolv_conf (m.get_name j) (m.create j w.0).0, w.1) s)
    | inr (t, e) ↦ rw (execute_create, e) refl
  ]

  sync_declared-unwatched :
      (j : Text) (cfg : Config) (w : W × Bool) (s : State)
      → unwatched (sync_declared (watched m id) on j cfg w s) ≡ sync_declared m on j cfg w.0 s
  unfolding sync_declared watched mark_synced
  sync_declared-unwatched j cfg w s =
      mark_synced-unwatched j cfg
        (write_host_access (watched m id) on j (m.get_name j) (publish_of cfg j) w s)
      ∙ ap (mark_synced m j cfg)
          (write_host_access-unwatched j (m.get_name j) (publish_of cfg j) w s)

  execute_sync_host-unwatched :
      (j : Text) (w : W × Bool) (s : State)
      → unwatched (execute_sync_host (watched m id) on j w s) ≡ execute_sync_host m on j w.0 s
  unfolding execute_sync_host watched
  execute_sync_host-unwatched j w s = elim (Bool-cases m.has_host_access) [
    | inr gone ↦ rw (execute_sync_host, gone) refl
    | inl held ↦ elim (Result-cases (m.load_config w.0)) [
      | inr (e, failed) ↦ rw (execute_sync_host, held, failed) refl
      | inl (cfg, loaded) ↦ rw (execute_sync_host, held, loaded) (sync_declared-unwatched j cfg w s)
    ]
  ]

  pub execute_action-unwatched :
      (a : Action) (w : W × Bool) (s : State)
      → unwatched (execute_action (watched m id) on a w s) ≡ execute_action m on a w.0 s
  unfolding execute_action watched
  execute_action-unwatched a w s =
      elim a.kind
        as (λ k.
          unwatched (execute_action (watched m id) on (record a { kind = k }) w s)
          ≡ execute_action m on (record a { kind = k }) w.0 s) [
            | create_namespace ↦ execute_create-unwatched a.tailnet w s
            | delete_namespace ↦ execute_delete-unwatched a.tailnet a.namespace w s
            | start_daemon ↦ execute_start-unwatched a.tailnet a.namespace w s
            | stop_daemon ↦ refl
            | sync_routes ↦ refl
            | sync_host_access ↦ execute_sync_host-unwatched a.tailnet w s
            | teardown_host_access ↦ execute_teardown-unwatched a.tailnet w s
            | auth_daemon ↦ refl
            | refresh_dns ↦ execute_refresh-unwatched a.tailnet a.namespace w s
          ]
