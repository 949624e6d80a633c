-- ===== src/Reconciler/Steady/Reports.antt =====
-- The reports of a tick on rules, jumps and the DNS protection are steady.
use hydrascale.Common.{
  Bool, true, false, not, ◌||◌, refl, Option, none, some, List, [], ◌∷◌, ◌++◌, Text, txt, text_eq,
  ◌==◌, eqb, if◌then◌else◌, Map, lookup, put, delete, Bool-cases, Option-cases, inl, inr, arith,
}
use hydrascale.Access.Rules.{Rule}
use hydrascale.Access.Writer.{Placement}
use hydrascale.Reconciler.{State, emit}
use hydrascale.Reconciler.Endpoints.{endpoint_declared, declared_rules}
use hydrascale.Reconciler.Jumps.{displaced_text, was_at, report_jump, report_jumps}
use hydrascale.Reconciler.Protection.{
  Unprotected, report_unprotected, check_tailnet, check_dns_protection,
}
use hydrascale.Reconciler.Steady.{
  Steady, Steady-refl, Steady-trans, Steady-same, emit-Steady, emit-after, if-Steady,
}

report_jump-Steady : (p : Placement) (s : State) → Steady s (report_jump p s)
unfolding report_jump
report_jump-Steady p s =
    let known = record s { jump_positions = put p.parent p.position s.jump_positions } in
    let same = Steady-same s known refl refl in
    if-Steady (eqb p.position 1 || was_at s p) same
      (emit-after (txt "access.jump_displaced") [] (displaced_text p) same)

pub report_jumps-Steady : (ps : List Placement) (s : State) → Steady s (report_jumps ps s)
unfolding report_jumps
report_jumps-Steady [] s = Steady-refl s
report_jumps-Steady (p ∷ ps) s =
    Steady-trans (report_jump-Steady p s) (report_jumps-Steady ps (report_jump p s))

pub declared_rules-Steady :
    (print : Rule → Text) (devices : Map Text Text) (rules : List Rule) (s : State)
    → Steady s (declared_rules print devices rules s).1
unfolding declared_rules
declared_rules-Steady print devices [] s = Steady-refl s
declared_rules-Steady print devices (r ∷ rules) s =
    let message = print r ++ txt ": the configuration file declares no such tailnet" in
    let dropped = emit (txt "access.rule_dropped") [] message s in
    elim (Bool-cases
      (not (endpoint_declared devices r.from) || not (endpoint_declared devices r.to))) [
        | inl gone ↦ rw gone (
            Steady-trans (emit-Steady (txt "access.rule_dropped") [] message s)
              (declared_rules-Steady print devices rules dropped))
        | inr kept ↦ rw kept (declared_rules-Steady print devices rules s)
      ]

report_unprotected-Steady :
    (id : Text) (found : Unprotected) (s : State) → Steady s (report_unprotected id found s)
unfolding report_unprotected
report_unprotected-Steady id found s =
    let known = record s { unprotected = put id found.reason s.unprotected } in
    let marked = if found.allowed then known else record known {
      error_states = put id true known.error_states;
      last_errors = put id found.reason known.last_errors;
    } in
    let repeated : Bool = elim (lookup id s.unprotected) [
      | none ↦ false
      | some reported ↦ reported == found.reason
    ] in
    let same = Steady-same s marked (ground arith) (ground arith) in
    if-Steady repeated same (emit-after (txt "dns.unprotected") id found.reason same)

pub check_dns_protection-Steady :
    (unprotected_dns : Text → Option Unprotected) (ids : List Text) (s : State)
    → Steady s (check_dns_protection unprotected_dns ids s)
unfolding check_dns_protection check_tailnet
check_dns_protection-Steady unprotected_dns [] s = Steady-refl s
check_dns_protection-Steady unprotected_dns (id ∷ ids) s =
    let rest =
      check_dns_protection-Steady unprotected_dns ids (check_tailnet unprotected_dns id s) in
    elim (Option-cases (unprotected_dns id)) [
      | inl fine ↦
          Steady-trans
            (rw (fine, check_tailnet)
              (Steady-same s (record s { unprotected = delete id s.unprotected }) refl refl))
            rest
      | inr (found, failed) ↦
          Steady-trans (rw (failed, check_tailnet) (report_unprotected-Steady id found s)) rest
    ]
