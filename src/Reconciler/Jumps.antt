-- ===== src/Reconciler/Jumps.antt =====
-- internal/reconciler/access.go: reportJumps, which records a displaced jump rule once.
use hydrascale.Common.{
  join, ℕ, Bool, true, false, ◌||◌, ◌≡◌, refl, ◌∙◌, none, some, List, [], ◌∷◌, ◌++◌, map, Text, txt,
  text_eq, ◌==◌, ==_iff, ==_refl, eqb, eqb_iff, itoa, if◌then◌else◌, All, mem, nodup, lookup, put,
  lookup-put, or_default, arith,
}
use hydrascale.Access.Writer.{Placement}
use hydrascale.Reconciler.{State, emit}

abbrev pub displaced_text : Placement → Text
displaced_text p =
    if eqb p.position 0
    then p.parent
      ++ txt " held no jump rule of the daemon, therefore the daemon wrote it at position 1"
    else txt "the jump rule of "
      ++ p.parent
      ++ txt " is at position "
      ++ itoa p.position
      ++ txt ", below "
      ++ join p.above (txt ", ")

-- The position that the last tick measured.
abbrev pub was_at : State → Placement → Bool
was_at s p = elim (lookup p.parent s.jump_positions) [
  | none ↦ false
  | some last ↦ eqb last p.position
]

-- The body of the loop.
unfoldable pub report_jump : Placement → State → State
report_jump p s =
    let known = record s { jump_positions = put p.parent p.position s.jump_positions } in
    if eqb p.position 1 || was_at s p
    then known
    else emit (txt "access.jump_displaced") [] (displaced_text p) known

unfoldable pub report_jumps : List Placement → State → State
unfolding report_jump
report_jumps [] s = s
report_jumps (p ∷ ps) s = report_jumps ps (report_jump p s)

-- `AccessJumpPosition`
unfoldable pub access_jump_position : Text → State → ℕ
access_jump_position parent s = or_default (lookup parent s.jump_positions) 0

report_jump-positions :
    (p : Placement) (s : State)
    → (report_jump p s).jump_positions ≡ put p.parent p.position s.jump_positions
unfolding report_jump emit
report_jump-positions p s = ground arith

abbrev IsKnown : State → Placement → Type 0
IsKnown s p = lookup p.parent s.jump_positions ≡ some p.position

report_jump_own : (p : Placement) (s : State) → IsKnown (report_jump p s) p
report_jump_own p s =
    rw (report_jump-positions p s)
      (lookup-put p.parent p.parent p.position s.jump_positions ∙ rw (==_refl p.parent) refl)

report_jump_other :
    (p q : Placement) (s : State)
    → (p.parent == q.parent) ≡ false
    → IsKnown s q
    → IsKnown (report_jump p s) q
report_jump_other p q s other known =
    rw (report_jump-positions p s)
      (lookup-put p.parent q.parent p.position s.jump_positions ∙ rw other known)

was_at_known : (p : Placement) (s : State) → IsKnown s p → was_at s p ≡ true
was_at_known p s known = rw (known, was_at) (ground (arith, eqb_iff p.position p.position))

report_jump_same : (p : Placement) (s : State) → IsKnown s p → (report_jump p s).events ≡ s.events
unfolding report_jump
report_jump_same p s known = ground (arith, was_at_known p s known)

abbrev pub parents : List Placement → List Text
parents ps = map (λ (p : Placement). p.parent) ps

report_jumps_keeps :
    (q : Placement) (ps : List Placement) (s : State)
    → mem q.parent (parents ps) ≡ false
    → IsKnown s q
    → IsKnown (report_jumps ps s) q
unfolding report_jumps
report_jumps_keeps q [] s absent known = known
report_jumps_keeps q (p ∷ ps) s absent known =
    report_jumps_keeps q ps (report_jump p s) (ground (arith, absent))
      (report_jump_other p q s (ground (arith, absent)) known)

pub report_jumps_records :
    (ps : List Placement) (s : State)
    → nodup (parents ps) ≡ true
    → All (IsKnown (report_jumps ps s)) ps
unfolding report_jumps
report_jumps_records [] s distinct = tt
report_jumps_records (p ∷ ps) s distinct = (
  report_jumps_keeps p ps (report_jump p s) (ground (arith, distinct)) (report_jump_own p s),
  report_jumps_records ps (report_jump p s) (ground (arith, distinct)),
)

-- The placements of the other chains stay known.
still :
    (p : Placement) (s : State) (ps : List Placement)
    → mem p.parent (parents ps) ≡ false
    → All (IsKnown s) ps
    → All (IsKnown (report_jump p s)) ps
still p s [] absent h = tt
still p s (q ∷ ps) absent (h, hs) = (
  report_jump_other p q s
      (ground (arith, absent, ==_iff p.parent q.parent, ==_iff q.parent p.parent)) h,
  still p s ps (ground (arith, absent)) hs,
)

report_jumps_quiet :
    (ps : List Placement) (s : State)
    → nodup (parents ps) ≡ true
    → All (IsKnown s) ps
    → (report_jumps ps s).events ≡ s.events
unfolding report_jumps
report_jumps_quiet [] s distinct h = refl
report_jumps_quiet (p ∷ ps) s distinct (h, hs) =
    report_jumps_quiet ps (report_jump p s) (ground (arith, distinct))
      (still p s ps (ground (arith, distinct)) hs)
    ∙ report_jump_same p s h

-- A tick that measures the same placements of distinct chains as the tick before records no event.
pub report_jumps_again :
    (ps : List Placement) (s : State)
    → nodup (parents ps) ≡ true
    → (report_jumps ps (report_jumps ps s)).events ≡ (report_jumps ps s).events
report_jumps_again ps s distinct =
    report_jumps_quiet ps (report_jumps ps s) distinct (report_jumps_records ps s distinct)
