-- ===== src/Reconciler/Execute/Bounded.antt =====
-- The event list stays bounded.
use hydrascale.Common.{
  ◌+◌, ◌≤◌, Bool, true, false, ◌≡◌, refl, List, [], ◌∷◌, Text, txt, text_eq, leb, length,
  length-append, Bool-cases, ◌⊎◌, put, Result-cases, Option-cases, inl, inr, leb→le, arith,
}
use hydrascale.Config.{tailnet_host_access}
use hydrascale.Reconciler.{
  Event, State, max_events, drop_oldest, flag, emit, set_host_access_rules, set_dns_refresh_pending,
  report_dns_refresh_wait,
}
use hydrascale.Reconciler.Plan.{
  Action, create_namespace, delete_namespace, start_daemon, stop_daemon, sync_routes,
  sync_host_access, teardown_host_access, auth_daemon, refresh_dns,
}
use hydrascale.Reconciler.Execute.{
  Setup, set_up, published_ports_failed, setup_failed, join_lines, Managers, report_teardown,
  publish_of, write_host_access, setup_created, execute_create, execute_delete, execute_teardown,
  execute_start, execute_refresh, sync_declared, execute_sync_host, execute_action,
}

-- The list holds at most a thousand events.
abbrev pub IsBounded : State → Type 0
IsBounded s = length s.events ≤ max_events

drop_oldest-length :
    (es : List Event) → max_events ≤ length es → length (drop_oldest es) + 1 ≡ length es
drop_oldest-length [] h = absurd (omega (arith, h))
drop_oldest-length (e ∷ es) h = omega arith

pub emit-IsBounded :
    (kind tailnet message : Text) (s : State)
    → IsBounded s
    → IsBounded (emit kind tailnet message s)
unfolding emit
emit-IsBounded kind tailnet message s h =
    let event : Event = record { kind = kind; tailnet = tailnet; message = message } in
    elim (Bool-cases (leb max_events (length s.events))) [
      | inl full ↦ rw full (
          rw (length-append (drop_oldest s.events) (event ∷ [])) (
            omega
              (arith, h, drop_oldest-length s.events (leb→le max_events (length s.events) full))))
      | inr room ↦ rw room (rw (length-append s.events (event ∷ [])) (ground (arith, h, room)))
    ]

Setup-cases :
    (a : Setup)
    → (a ≡ set_up)
      ⊎ (((e : Text) × (a ≡ published_ports_failed e)) ⊎ ((e : Text) × (a ≡ setup_failed e)))
Setup-cases set_up = inl refl
Setup-cases (published_ports_failed e) = inr (inl (e, refl))
Setup-cases (setup_failed e) = inr (inr (e, refl))

report_teardown-IsBounded :
    (id : Text) (errors : List Text) (s : State)
    → IsBounded s
    → IsBounded (report_teardown id errors s).0
unfolding report_teardown
report_teardown-IsBounded id [] s h = h
report_teardown-IsBounded id (e ∷ es) s h =
    emit-IsBounded (txt "teardown.failed") id (join_lines (e ∷ es)) s h

report_dns_refresh_wait-IsBounded :
    (id : Text) (s : State) → IsBounded s → IsBounded (report_dns_refresh_wait id s)
unfolding report_dns_refresh_wait
report_dns_refresh_wait-IsBounded id s h = elim (Bool-cases (flag id s.dns_refresh_reported)) [
  | inl reported ↦ rw reported h
  | inr open_wait ↦ rw open_wait (
      emit-IsBounded (txt "dns.refresh_waits") id
        (txt "tailscaled is not in the Running state, therefore the refresh runs on a later tick")
        (record s { dns_refresh_reported = put id true s.dns_refresh_reported }) h)
]

module _ {W : Type 0} (m : Managers W) (on : Bool) where
  write_host_access-IsBounded :
      (id ns : Text) (publish : List Text) (w : W) (s : State)
      → IsBounded s
      → IsBounded (write_host_access m on id ns publish w s).1
  unfolding write_host_access
  write_host_access-IsBounded id ns publish w s h =
      elim (Setup-cases (m.setup_host_access ns publish on w).1) [
        | inl fine ↦ rw (fine, write_host_access) h
        | inr (inl (e, published)) ↦
            rw (published, write_host_access) (emit-IsBounded (txt "access.write_failed") id e s h)
        | inr (inr (e, failed)) ↦ rw (failed, write_host_access) h
      ]

  setup_created-IsBounded :
      (id : Text) (w : W) (s : State) → IsBounded s → IsBounded (setup_created m on id w s).1
  unfolding setup_created set_host_access_rules
  setup_created-IsBounded id w s h = elim (Result-cases (m.load_config w)) [
    | inr (e, unread) ↦ rw (unread, setup_created) h
    | inl (cfg, loaded) ↦
        let ns = m.get_name id in
        let publish = publish_of cfg id in
        let written = write_host_access-IsBounded id ns publish w s h in
        elim (Bool-cases (tailnet_host_access cfg id)) [
          | inr isolated ↦ rw (loaded, isolated, setup_created) h
          | inl open_host ↦
              rw (loaded, open_host, setup_created)
                (elim (Option-cases (write_host_access m on id ns publish w s).2) [
                  | inl done ↦ rw (done, set_host_access_rules) written
                  | inr (e, failed) ↦ rw failed written
                ])
        ]
  ]

  execute_create-IsBounded :
      (id : Text) (w : W) (s : State) → IsBounded s → IsBounded (execute_create m on id w s).1
  unfolding execute_create
  execute_create-IsBounded id w s h = elim (Option-cases (m.create id w).1) [
    | inl made ↦
        rw (made, execute_create)
          (setup_created-IsBounded id (m.write_resolv_conf (m.get_name id) (m.create id w).0) s h)
    | inr (e, failed) ↦ rw (failed, execute_create) h
  ]

  execute_refresh-IsBounded :
      (id ns : Text) (w : W) (s : State)
      → IsBounded s
      → IsBounded (execute_refresh m on id ns w s).1
  unfolding execute_refresh set_dns_refresh_pending
  execute_refresh-IsBounded id ns w s h = elim (Result-cases (m.refresh_dns_if_ready id ns w).1) [
    | inr (e, failed) ↦ rw (failed, execute_refresh) h
    | inl (refreshed, answered) ↦ elim (Bool-cases refreshed) [
      | inl done ↦ rw (answered, done, execute_refresh) h
      | inr open_wait ↦
          rw (answered, open_wait, execute_refresh) (report_dns_refresh_wait-IsBounded id s h)
    ]
  ]

  execute_sync_host-IsBounded :
      (id : Text) (w : W) (s : State) → IsBounded s → IsBounded (execute_sync_host m on id w s).1
  unfolding execute_sync_host sync_declared set_host_access_rules
  execute_sync_host-IsBounded id w s h = elim (Bool-cases m.has_host_access) [
    | inr none_held ↦ rw (none_held, execute_sync_host) h
    | inl held ↦ elim (Result-cases (m.load_config w)) [
      | inr (e, unread) ↦ rw (held, unread, execute_sync_host) h
      | inl (cfg, loaded) ↦
          let ns = m.get_name id in
          let publish = publish_of cfg id in
          let written = write_host_access-IsBounded id ns publish w s h in
          rw (held, loaded, execute_sync_host)
            (elim (Option-cases (write_host_access m on id ns publish w s).2) [
              | inl done ↦ rw (done, sync_declared) written
              | inr (e, failed) ↦ rw (failed, sync_declared) written
            ])
    ]
  ]

  execute_delete-IsBounded :
      (id ns : Text) (w : W) (s : State) → IsBounded s → IsBounded (execute_delete m on id ns w s).1
  unfolding execute_delete set_host_access_rules set_dns_refresh_pending
  execute_delete-IsBounded id ns w s h =
      report_teardown-IsBounded id _
        (set_dns_refresh_pending id false (set_host_access_rules id false s)) h

  execute_teardown-IsBounded :
      (id : Text) (w : W) (s : State) → IsBounded s → IsBounded (execute_teardown m on id w s).1
  unfolding execute_teardown set_host_access_rules
  execute_teardown-IsBounded id w s h =
      elim (Option-cases (m.teardown_host_access (m.get_name id) w).1) [
        | inl done ↦
            rw (done, execute_teardown)
              (report_teardown-IsBounded id _ (set_host_access_rules id false s) h)
        | inr (e, failed) ↦ rw (failed, execute_teardown) (report_teardown-IsBounded id _ s h)
      ]

  pub execute_action-IsBounded :
      (a : Action) (w : W) (s : State) → IsBounded s → IsBounded (execute_action m on a w s).1
  unfolding execute_action execute_start
  execute_action-IsBounded a w s h =
      elim a.kind as (λ k. IsBounded (execute_action m on (record a { kind = k }) w s).1) [
        | create_namespace ↦ execute_create-IsBounded a.tailnet w s h
        | delete_namespace ↦ execute_delete-IsBounded a.tailnet a.namespace w s h
        | teardown_host_access ↦ execute_teardown-IsBounded a.tailnet w s h
        | start_daemon ↦ h
        | stop_daemon ↦ h
        | auth_daemon ↦ h
        | refresh_dns ↦ execute_refresh-IsBounded a.tailnet a.namespace w s h
        | sync_routes ↦ h
        | sync_host_access ↦ execute_sync_host-IsBounded a.tailnet w s h
      ]
