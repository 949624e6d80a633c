-- ===== src/Access/Writer/Commands/Chains.antt =====
-- The behaviour of iptables that Apply relies on, and the marks of the chains after it.
use hydrascale.Common.{
  Bool, true, false, ◌&&◌, ◌≡◌, refl, ap, ◌∙◌, none, not, List, [], ◌∷◌, ◌++◌, Text, txt, text_eq,
  ◌==◌, ==_iff, eqb, ok, Option-cases, List-cases, Bool-cases, inl, inr, arith,
}
use hydrascale.Access.Compile.{Compiled, chain_forward, chain_out}
use hydrascale.Access.Writer.{
  Host, Jump, forward_jump, input_jump, placement_of, fingerprint, restore_file,
}
use hydrascale.Access.Writer.Commands.{
  mark_in, live_fingerprints, read_placement, insert_jump, ensure_jump, ensure_jumps, apply_live,
  apply_rules,
}

-- The two jump rules of the loop of Apply.
abbrev pub jump_of : Bool → Jump
jump_of true = forward_jump
jump_of false = input_jump

abbrev pub insertion : Text → Jump → List Text
insertion tool j = tool ∷ txt "-I" ∷ j.parent ∷ txt "1" ∷ txt "-j" ∷ j.chain ∷ []

-- The documented behaviour of iptables: a listing changes nothing and shows the mark of an owned
-- chain and the jump rules of a parent chain, a restore that succeeds puts the mark of its file into
-- both chains, and an insertion into a parent chain leaves them alone; one that succeeds puts its jump
-- rule into the parent and takes none away.
pub record Chains {W : Type 0} (host : Host W) (tool : Text) : Type 0 where
  pub forward_mark : W → Text
  pub out_mark : W → Text
  pub list_forward : (w : W) → (host.run (tool ∷ txt "-S" ∷ chain_forward ∷ []) w).0 ≡ w
  pub list_out : (w : W) → (host.run (tool ∷ txt "-S" ∷ chain_out ∷ []) w).0 ≡ w
  pub read_forward :
      (w : W)
      → mark_in tool chain_forward (host.run (tool ∷ txt "-S" ∷ chain_forward ∷ []) w).1
        ≡ ok (forward_mark w)
  pub read_out :
      (w : W)
      → mark_in tool chain_out (host.run (tool ∷ txt "-S" ∷ chain_out ∷ []) w).1 ≡ ok (out_mark w)
  pub restored :
      (c : Compiled) (w : W)
      → (host.run_input
          (restore_file c (fingerprint host.sha256_hex c))
          ((tool ++ txt "-restore") ∷ txt "--noflush" ∷ [])
          w).1.failed
        ≡ none
      → (forward_mark
            (host.run_input
              (restore_file c (fingerprint host.sha256_hex c))
              ((tool ++ txt "-restore") ∷ txt "--noflush" ∷ [])
              w).0
          ≡ fingerprint host.sha256_hex c)
        × (out_mark
              (host.run_input
                (restore_file c (fingerprint host.sha256_hex c))
                ((tool ++ txt "-restore") ∷ txt "--noflush" ∷ [])
                w).0
            ≡ fingerprint host.sha256_hex c)
  pub list_parent : (parent : Text) (w : W) → (host.run (tool ∷ txt "-S" ∷ parent ∷ []) w).0 ≡ w
  pub inserted :
      (parent chain : Text) (w : W)
      → (forward_mark (host.run (tool ∷ txt "-I" ∷ parent ∷ txt "1" ∷ txt "-j" ∷ chain ∷ []) w).0
          ≡ forward_mark w)
        × (out_mark (host.run (tool ∷ txt "-I" ∷ parent ∷ txt "1" ∷ txt "-j" ∷ chain ∷ []) w).0
            ≡ out_mark w)
  -- whether the parent of a jump rule holds it
  pub has_jump : Bool → W → Bool
  pub listed :
      (first : Bool) (w : W)
      → (host.run (tool ∷ txt "-S" ∷ (jump_of first).parent ∷ []) w).1.failed ≡ none
  pub shows :
      (first : Bool) (w : W)
      → eqb
          (placement_of
            (host.run (tool ∷ txt "-S" ∷ (jump_of first).parent ∷ []) w).1.output
            (jump_of first)).position
          0
        ≡ not (has_jump first w)
  pub inserted_jump :
      (first : Bool) (w : W)
      → (host.run (insertion tool (jump_of first)) w).1.failed ≡ none
      → has_jump first (host.run (insertion tool (jump_of first)) w).0 ≡ true
  pub inserted_keeps :
      (first other : Bool) (w : W)
      → has_jump other w ≡ true
      → has_jump other (host.run (insertion tool (jump_of first)) w).0 ≡ true

module _ {W : Type 0} (host : Host W) (tool : Text) (chains : Chains host tool) where
  open chains use {forward_mark, out_mark}

  -- Two hosts that hold the same marks.
  abbrev SameMarks : W → W → Type 0
  SameMarks v w = (forward_mark w ≡ forward_mark v) × (out_mark w ≡ out_mark v)

  pub live_fingerprints-marks :
      (w : W) → live_fingerprints host tool w ≡ (w, ok (forward_mark w, out_mark w))
  unfolding live_fingerprints
  live_fingerprints-marks w =
      let w1 = (host.run (tool ∷ txt "-S" ∷ chain_forward ∷ []) w).0 in
      rw (chains.read_forward w, chains.read_out w1, live_fingerprints)
        (rw (chains.list_out w1) (rw (chains.list_forward w) refl))

  pub apply_rules-live :
      (c : Compiled) (w : W)
      → apply_rules host tool c w ≡ apply_live host tool c (ok (forward_mark w, out_mark w)) w
  unfolding apply_rules
  apply_rules-live c w = rw (live_fingerprints-marks w, apply_rules) refl

  pub read_placement_same : (j : Jump) (w : W) → (read_placement host tool j w).0 ≡ w
  unfolding read_placement
  read_placement_same j w =
      elim (Option-cases (host.run (tool ∷ txt "-S" ∷ j.parent ∷ []) w).1.failed) [
        | inl fine ↦ rw (fine, read_placement) (chains.list_parent j.parent w)
        | inr (e, failed) ↦ rw (failed, read_placement) (chains.list_parent j.parent w)
      ]

  insert_jump-SameMarks : (j : Jump) (w : W) → SameMarks w (insert_jump host tool j w).0
  unfolding insert_jump
  insert_jump-SameMarks j w = chains.inserted j.parent j.chain w

  pub insert_jump_fine :
      (j : Jump) (w : W)
      → (insert_jump host tool j w).1 ≡ []
      → (host.run (insertion tool j) w).1.failed ≡ none
  unfolding insert_jump
  insert_jump_fine j w h = elim (Option-cases (host.run (insertion tool j) w).1.failed) [
    | inl fine ↦ fine
    | inr (e, failed) ↦ absurd (ground (arith, h, failed))
  ]

  ensure_jump-SameMarks : (j : Jump) (w : W) → SameMarks w (ensure_jump host tool j w).0
  unfolding ensure_jump
  ensure_jump-SameMarks j w =
      let (read, placement, errors) = read_placement host tool j w in
      let same : read ≡ w = read_placement_same j w in
      let kept : SameMarks w read = (ap forward_mark same, ap out_mark same) in
      let (f, o) = insert_jump-SameMarks j read in
      elim (List-cases errors) [
        | inr (e, es, failed) ↦ rw (failed, ensure_jump) kept
        | inl fine ↦ elim (Bool-cases (eqb placement.position 0)) [
          | inl missing ↦ rw (fine, missing, ensure_jump) (f ∙ kept.0, o ∙ kept.1)
          | inr present ↦ rw (fine, present, ensure_jump) kept
        ]
      ]

  ensure_jumps-SameMarks : (wrote : Bool) (w : W) → SameMarks w (ensure_jumps host tool wrote w).0
  unfolding ensure_jumps
  ensure_jumps-SameMarks wrote w =
      let (f1, o1) = ensure_jump-SameMarks forward_jump w in
      let (f2, o2) = ensure_jump-SameMarks input_jump (ensure_jump host tool forward_jump w).0 in
      (f2 ∙ f1, o2 ∙ o1)

  -- Both chains hold the mark of a compiled set.
  abbrev pub IsMarked : Compiled → W → Type 0
  IsMarked c w =
      (forward_mark w ≡ fingerprint host.sha256_hex c)
      × (out_mark w ≡ fingerprint host.sha256_hex c)

  pub apply_live-marked :
      (c : Compiled) (w : W)
      → IsMarked c w
      → (apply_live host tool c (ok (forward_mark w, out_mark w)) w).1.wrote ≡ false
  unfolding apply_live ensure_jumps
  apply_live-marked c w (f, o) =
      let want = fingerprint host.sha256_hex c in
      let same : (forward_mark w == want && out_mark w == want) ≡ true =
        ground (arith, (==_iff (forward_mark w) want).1 f, (==_iff (out_mark w) want).1 o) in
      rw (same, apply_live) refl

  pub apply_live-IsMarked :
      (c : Compiled) (w : W)
      → (apply_live host tool c (ok (forward_mark w, out_mark w)) w).2 ≡ []
      → IsMarked c (apply_live host tool c (ok (forward_mark w, out_mark w)) w).0
  unfolding apply_live
  apply_live-IsMarked c w h =
      let want = fingerprint host.sha256_hex c in
      let (restored, answer) =
        host.run_input (restore_file c want) ((tool ++ txt "-restore") ∷ txt "--noflush" ∷ []) w in
      let (kf, ko) = ensure_jumps-SameMarks false w in
      let (nf, n_out) = ensure_jumps-SameMarks true restored in
      elim (Bool-cases (forward_mark w == want && out_mark w == want)) [
        | inl same ↦
            let f : forward_mark w ≡ want = ground (arith, same, ==_iff (forward_mark w) want) in
            let o : out_mark w ≡ want = ground (arith, same, ==_iff (out_mark w) want) in
            rw (same, apply_live) (kf ∙ f, ko ∙ o)
        | inr other ↦ elim (Option-cases answer.failed) [
          | inl fine ↦
              let (f, o) = chains.restored c w fine in
              rw (other, fine, apply_live) (nf ∙ f, n_out ∙ o)
          | inr (e, failed) ↦ absurd (ground (arith, other, failed, h))
        ]
      ]
