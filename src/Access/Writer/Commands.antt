-- ===== src/Access/Writer/Commands.antt =====
-- internal/access/writer.go: the commands of the Writer, Apply, Check and Teardown.
pub mod Chains
pub mod Again
use hydrascale.Common.{
  ℕ, Bool, true, false, not, ◌&&◌, ◌||◌, Option, none, some, Answer, List, [], ◌∷◌, ◌++◌, Text, txt,
  text_eq, ◌==◌, eqb, if◌then◌else◌, join, Result, ok, err,
}
use hydrascale.Access.Compile.{Compiled, chain_forward, chain_out}
use hydrascale.Access.Writer.{
  Host, Jump, forward_jump, input_jump, Placement, placement_of, marker_of, absent, fingerprint,
  restore_file,
}

-- What Apply answers: whether it wrote, and where each jump rule sat.
pub record Applied : Type 0 where
  pub wrote : Bool
  pub jumps : List Placement

abbrev nothing_done : Applied
nothing_done = record { wrote = false; jumps = [] }

-- The difference of one chain.
chain_difference : Text → Text → Text → List Text
chain_difference want chain live =
    if live == want
    then []
    else if live == []
    then (txt "write chain " ++ chain ++ txt ": the host holds no chain or no marker rule") ∷ []
    else (txt "write chain "
        ++ chain
        ++ txt ": the chain holds rule set "
        ++ live
        ++ txt ", the configuration file compiles to "
        ++ want)
      ∷ []

jump_difference : Jump → Placement → List Text
jump_difference j p =
    if eqb p.position 0
    then (txt "insert jump rule: " ++ j.parent ++ txt " holds no rule -j " ++ j.chain) ∷ []
    else []

module _ (tool : Text) where
  abbrev command_failed : List Text → Answer → Text → Text
  command_failed args a e =
      tool ++ txt " " ++ join args (txt " ") ++ txt ": " ++ e ++ txt " (" ++ a.output ++ txt ")"

  -- The mark that one chain holds.
  unfoldable pub mark_in : Text → Answer → Result Text Text
  mark_in chain a = elim a.failed [
    | none ↦ ok (marker_of a.output)
    | some e ↦ if absent a.output then ok [] else err (command_failed (txt "-S" ∷ chain ∷ []) a e)
  ]

-- The marks of the two chains, and the first error of a read.
live_marks :
    {W : Type 0} → Result Text Text → Result Text Text → W → W → W × Result Text (Text × Text)
live_marks (err e) out w1 w2 = (w1, err e)
live_marks (ok forward) (err e) w1 w2 = (w2, err e)
live_marks (ok forward) (ok out) w1 w2 = (w2, ok (forward, out))

module _ {W : Type 0} (host : Host W) (tool : Text) where
  abbrev command : List Text → W → W × Answer
  command args w = host.run (tool ∷ args) w

  -- `liveFingerprints`, for the forward chain and the out chain.
  unfoldable pub live_fingerprints : W → W × Result Text (Text × Text)
  unfolding live_marks
  live_fingerprints w =
      let (w1, a1) = command (txt "-S" ∷ chain_forward ∷ []) w in
      let (w2, a2) = command (txt "-S" ∷ chain_out ∷ []) w1 in
      live_marks (mark_in tool chain_forward a1) (mark_in tool chain_out a2) w1 w2

  -- `readPlacement`
  unfoldable pub read_placement : Jump → W → W × Placement × List Text
  read_placement j w =
      let (next, a) = command (txt "-S" ∷ j.parent ∷ []) w in
      elim a.failed [
        | some e ↦ (
          next,
          record { parent = j.parent; position = 0; above = [] },
          command_failed tool (txt "-S" ∷ j.parent ∷ []) a e ∷ [],
        )
        | none ↦ (next, placement_of a.output j, [])
      ]

  -- The insertion of a jump rule that the parent does not hold.
  unfoldable pub insert_jump : Jump → W → W × List Text
  insert_jump j w =
      let args = txt "-I" ∷ j.parent ∷ txt "1" ∷ txt "-j" ∷ j.chain ∷ [] in
      let (next, a) = command args w in
      (next, elim a.failed [ none ↦ [] | some e ↦ command_failed tool args a e ∷ [] ])

  -- `ensureJump`
  unfoldable pub ensure_jump : Jump → W → W × Placement × List Text
  ensure_jump j w =
      let (read, placement, errors) = read_placement j w in
      let (inserted, failures) = insert_jump j read in
      elim errors [
        | e ∷ es ↦ (read, placement, e ∷ es)
        | [] ↦
            if eqb placement.position 0
            then (inserted, placement, failures)
            else (read, placement, [])
      ]

  -- The loop of `Apply` over the two jumps.
  unfoldable pub ensure_jumps : Bool → W → W × Applied × List Text
  ensure_jumps wrote w =
      let (w1, p1, e1) = ensure_jump forward_jump w in
      let (w2, p2, e2) = ensure_jump input_jump w1 in
      (w2, record { wrote = wrote; jumps = p1 ∷ p2 ∷ [] }, e1 ++ e2)

  -- Apply after the read of the marks.
  unfoldable pub apply_live : Compiled → Result Text (Text × Text) → W → W × Applied × List Text
  apply_live c (err e) w = (w, nothing_done, e ∷ [])
  apply_live c (ok (forward, out)) w =
      let want = fingerprint host.sha256_hex c in
      let restore = (tool ++ txt "-restore") ∷ txt "--noflush" ∷ [] in
      let (next, a) = host.run_input (restore_file c want) restore w in
      let kept = ensure_jumps false w in
      let written = ensure_jumps true next in
      if forward == want && out == want then kept else elim a.failed [
        | some e ↦ (
          next,
          nothing_done,
          (join restore (txt " ") ++ txt ": " ++ e ++ txt " (" ++ a.output ++ txt ")") ∷ [],
        )
        | none ↦ written
      ]

  -- `Apply`; no error stands for nil.
  unfoldable pub apply_rules : Compiled → W → W × Applied × List Text
  unfolding apply_live
  apply_rules c w = let (next, live) = live_fingerprints w in apply_live c live next

  -- The second loop of `Check`.
  check_jumps : List Text → W → W × Result (List Text) (List Text)
  unfolding jump_difference
  check_jumps diffs w =
      let (w1, p1, e1) = read_placement forward_jump w in
      let (w2, p2, e2) = read_placement input_jump w1 in
      elim e1 [
        | e ∷ es ↦ (w1, err (e ∷ es))
        | [] ↦ elim e2 [
          | e ∷ es ↦ (w2, err (e ∷ es))
          | [] ↦
              (w2, ok (diffs ++ jump_difference forward_jump p1 ++ jump_difference input_jump p2))
        ]
      ]

  -- `Check`
  unfoldable pub check_rules : Compiled → W → W × Result (List Text) (List Text)
  unfolding chain_difference check_jumps
  check_rules c w =
      let want = fingerprint host.sha256_hex c in
      let (w1, live) = live_fingerprints w in
      elim live [
        | err e ↦ (w1, err (e ∷ []))
        | ok (forward, out) ↦
            check_jumps
              (chain_difference want chain_forward forward ++ chain_difference want chain_out out)
              w1
      ]

  -- `deleteRule`
  unfoldable pub delete_rule : List Text → W → W × List Text
  delete_rule args w =
      let (next, a) = command args w in
      (
        next,
        elim a.failed [
          | none ↦ []
          | some e ↦ if absent a.output then [] else command_failed tool args a e ∷ []
        ],
      )

  delete_all : List (List Text) → W → W × List Text
  unfolding delete_rule
  delete_all [] w = (w, [])
  delete_all (args ∷ commands) w =
      let (next, errors) = delete_rule args w in
      let (last, more) = delete_all commands next in (last, errors ++ more)

  -- `Teardown`
  unfoldable pub teardown_rules : W → W × List Text
  unfolding delete_all
  teardown_rules w =
      delete_all
        ((txt "-D" ∷ txt "FORWARD" ∷ txt "-j" ∷ chain_forward ∷ [])
          ∷ (txt "-D" ∷ txt "INPUT" ∷ txt "-j" ∷ chain_out ∷ [])
          ∷ (txt "-F" ∷ chain_forward ∷ [])
          ∷ (txt "-X" ∷ chain_forward ∷ [])
          ∷ (txt "-F" ∷ chain_out ∷ [])
          ∷ (txt "-X" ∷ chain_out ∷ [])
          ∷ [])
        w
