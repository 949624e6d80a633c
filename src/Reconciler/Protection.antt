-- ===== src/Reconciler/Protection.antt =====
-- internal/reconciler/reconciler.go: checkDNSProtection, and StopDaemon, which pauses a tailnet.
pub mod Repeats
use hydrascale.Common.{
  ℕ, Bool, true, false, not, ◌&&◌, ◌||◌, ◌≡◌, refl, sym, ◌∙◌, ◌⊎◌, inl, inr, Option, none, some,
  List, [], ◌∷◌, ◌++◌, Text, txt, text_eq, ◌==◌, ==_iff, ==_refl, if◌then◌else◌, All, mem, Map,
  keys, lookup, put, delete, lookup-put, lookup-delete, or_default, is_some, Bool-cases,
  Option-cases, arith,
}
use hydrascale.Reconciler.{State, flag, emit}

-- What `UnprotectedDNS` records of a tailnet that runs without the overlay mount.
pub record Unprotected : Type 0 where
  pub reason : Text
  pub allowed : Bool

-- The body of the loop for a tailnet that runs without the overlay mount.
unfoldable pub report_unprotected : Text → Unprotected → State → State
report_unprotected id found s =
    let known = record s { unprotected = put id found.reason s.unprotected } in
    let marked = if found.allowed then known else record known {
      error_states = put id true known.error_states;
      last_errors = put id found.reason known.last_errors;
    } in
    let repeated : Bool = elim (lookup id s.unprotected) [
      | none ↦ false
      | some reported ↦ reported == found.reason
    ] in
    if repeated then marked else emit (txt "dns.unprotected") id found.reason marked

unfoldable pub check_tailnet : (Text → Option Unprotected) → Text → State → State
check_tailnet unprotected_dns id s = elim (unprotected_dns id) [
  | none ↦ record s { unprotected = delete id s.unprotected }
  | some found ↦ report_unprotected id found s
]

-- `checkDNSProtection`, over the declared tailnets.
unfoldable pub check_dns_protection : (Text → Option Unprotected) → List Text → State → State
check_dns_protection unprotected_dns [] s = s
check_dns_protection unprotected_dns (id ∷ ids) s =
    check_dns_protection unprotected_dns ids (check_tailnet unprotected_dns id s)

-- `StopDaemon`, with the answer of the daemon manager.
unfoldable pub stop_daemon_of : Text → Option Text → State → State × Option Text
stop_daemon_of id (some e) s = (s, some (txt "failed to stop daemon for " ++ id ++ txt ": " ++ e))
stop_daemon_of id none s = (
  emit (txt "daemon_stopped") id (txt "disconnected (paused)")
      (record s { paused_states = put id true s.paused_states }),
  none,
)
