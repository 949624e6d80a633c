-- ===== src/Reconciler/Protection/Repeats.antt =====
-- A repeated check of the DNS protection records no event, and a failure holds the tailnet back.
use hydrascale.Common.{
  true, false, not, ◌&&◌, ◌||◌, ◌≡◌, refl, ◌∙◌, ◌⊎◌, inl, inr, Option, none, some, List, [], ◌∷◌,
  Text, text_eq, ◌==◌, ==_iff, ==_refl, All, All-mono, mem, lookup, put, lookup-put, lookup-delete,
  Bool-cases, Option-cases, arith,
}
use hydrascale.Reconciler.{State, flag, emit}
use hydrascale.Reconciler.Protection.{
  Unprotected, report_unprotected, check_tailnet, check_dns_protection,
}

report_unprotected-unprotected :
    (j : Text) (found : Unprotected) (s : State)
    → (report_unprotected j found s).unprotected ≡ put j found.reason s.unprotected
unfolding report_unprotected emit
report_unprotected-unprotected j found s = ground arith

report_unprotected-error :
    (id j : Text) (found : Unprotected) (s : State)
    → flag id (report_unprotected j found s).error_states
      ≡ ((j == id && not found.allowed) || flag id s.error_states)
unfolding report_unprotected emit
report_unprotected-error id j found s = ground (arith, lookup-put j id true s.error_states)

report_unprotected-known :
    (id : Text) (found : Unprotected) (s : State)
    → lookup id s.unprotected ≡ some found.reason
    → (report_unprotected id found s).events ≡ s.events
unfolding report_unprotected
report_unprotected-known id found s known = elim (Bool-cases found.allowed) [
  | inl allowed ↦ rw (known, allowed, report_unprotected, ==_refl found.reason) refl
  | inr denied ↦ rw (known, denied, report_unprotected, ==_refl found.reason) refl
]

module _ (unprotected_dns : Text → Option Unprotected) where
  -- The state holds what a tailnet reports.
  abbrev IsRecorded : State → Text → Type 0
  IsRecorded s id =
      (unprotected_dns id ≡ none)
      ⊎ ((found : Unprotected) × (unprotected_dns id ≡ some found)
          × (lookup id s.unprotected ≡ some found.reason))

  check_tailnet_own : (id : Text) (s : State) → IsRecorded (check_tailnet unprotected_dns id s) id
  unfolding check_tailnet
  check_tailnet_own id s = elim (Option-cases (unprotected_dns id)) [
    | inl protected ↦ inl protected
    | inr (found, e) ↦ inr (
      found,
      e,
      rw (e, check_tailnet)
          (rw (report_unprotected-unprotected id found s)
            (lookup-put id id found.reason s.unprotected ∙ rw (==_refl id) refl)),
    )
  ]

  check_tailnet_keeps :
      (id j : Text) (s : State)
      → IsRecorded s id
      → IsRecorded (check_tailnet unprotected_dns j s) id
  unfolding check_tailnet
  check_tailnet_keeps id j s recorded = elim (Bool-cases (j == id)) [
    | inl same ↦ rw ((==_iff j id).0 same) (check_tailnet_own id s)
    | inr other ↦ elim recorded [
      | inl protected ↦ inl protected
      | inr (found, e, known) ↦ inr (
        found,
        e,
        elim (Option-cases (unprotected_dns j)) [
          | inl gone ↦ rw (gone, check_tailnet) (lookup-delete j id s.unprotected ∙ rw other known)
          | inr (g, here) ↦
              rw (here, check_tailnet)
                (rw (report_unprotected-unprotected j g s)
                  (lookup-put j id g.reason s.unprotected ∙ rw other known))
        ],
      )
    ]
  ]

  check_tailnet_quiet :
      (id : Text) (s : State)
      → IsRecorded s id
      → (check_tailnet unprotected_dns id s).events ≡ s.events
  unfolding check_tailnet
  check_tailnet_quiet id s (inl protected) = rw (protected, check_tailnet) refl
  check_tailnet_quiet id s (inr (found, e, known)) =
      rw (e, check_tailnet) (report_unprotected-known id found s known)

  check_keeps :
      (id : Text) (ids : List Text) (s : State)
      → IsRecorded s id
      → IsRecorded (check_dns_protection unprotected_dns ids s) id
  unfolding check_dns_protection
  check_keeps id [] s h = h
  check_keeps id (j ∷ ids) s h =
      check_keeps id ids (check_tailnet unprotected_dns j s) (check_tailnet_keeps id j s h)

  check_records :
      (ids : List Text) (s : State)
      → All (IsRecorded (check_dns_protection unprotected_dns ids s)) ids
  unfolding check_dns_protection
  check_records [] s = tt
  check_records (id ∷ ids) s = (
    check_keeps id ids (check_tailnet unprotected_dns id s) (check_tailnet_own id s),
    check_records ids (check_tailnet unprotected_dns id s),
  )

  check_quiet :
      (ids : List Text) (s : State)
      → All (IsRecorded s) ids
      → (check_dns_protection unprotected_dns ids s).events ≡ s.events
  unfolding check_dns_protection
  check_quiet [] s h = refl
  check_quiet (id ∷ ids) s (h, hs) =
      check_quiet ids (check_tailnet unprotected_dns id s)
        (All-mono (λ j k. check_tailnet_keeps j id s k) ids hs)
      ∙ check_tailnet_quiet id s h

  -- A second check of the DNS protection with the same answers records no event.
  pub check_dns_protection_again :
      (ids : List Text) (s : State)
      → let once = check_dns_protection unprotected_dns ids s in
        (check_dns_protection unprotected_dns ids once).events ≡ once.events
  check_dns_protection_again ids s =
      check_quiet ids (check_dns_protection unprotected_dns ids s) (check_records ids s)

  check_tailnet_error :
      (id j : Text) (s : State)
      → flag id s.error_states ≡ true
      → flag id (check_tailnet unprotected_dns j s).error_states ≡ true
  unfolding check_tailnet
  check_tailnet_error id j s h = elim (Option-cases (unprotected_dns j)) [
    | inl gone ↦ rw (gone, check_tailnet) h
    | inr (g, here) ↦
        rw (here, check_tailnet) (ground (arith, h, report_unprotected-error id j g s))
  ]

  check_error :
      (id : Text) (ids : List Text) (s : State)
      → flag id s.error_states ≡ true
      → flag id (check_dns_protection unprotected_dns ids s).error_states ≡ true
  unfolding check_dns_protection
  check_error id [] s h = h
  check_error id (j ∷ ids) s h =
      check_error id ids (check_tailnet unprotected_dns j s) (check_tailnet_error id j s h)

  -- A declared tailnet whose overlay mount failed, and that the operator did not allow to run
  -- without it, is in the error state after the check.
  pub check_dns_protection_error :
      (id : Text) (ids : List Text) (s : State) (found : Unprotected)
      → mem id ids ≡ true
      → unprotected_dns id ≡ some found
      → found.allowed ≡ false
      → flag id (check_dns_protection unprotected_dns ids s).error_states ≡ true
  unfolding check_dns_protection check_tailnet
  check_dns_protection_error id [] s found m e denied = absurd (ground (arith, m))
  check_dns_protection_error id (j ∷ ids) s found m e denied = elim (Bool-cases (j == id)) [
    | inr other ↦
        check_dns_protection_error id ids (check_tailnet unprotected_dns j s) found
          (ground (arith, m, other)) e denied
    | inl same ↦
        let k : unprotected_dns j ≡ some found = rw ((==_iff j id).0 same) e in
        check_error id ids (check_tailnet unprotected_dns j s) (
          rw (k, check_tailnet)
            (ground (arith, same, denied, report_unprotected-error id j found s)))
  ]
