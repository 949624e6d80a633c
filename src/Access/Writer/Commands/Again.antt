-- ===== src/Access/Writer/Commands/Again.antt =====
-- internal/access/writer.go: an Apply and the next Apply of the same set.
use hydrascale.Common.{
  Bool, true, false, ◌&&◌, ◌≡◌, refl, sym, ◌∙◌, none, not, nil_parts, [], ◌∷◌, ◌++◌, Text, txt,
  text_eq, ◌==◌, ==_iff, eqb, ok, Option-cases, Bool-cases, inl, inr, arith,
}
use hydrascale.Access.Compile.{Compiled}
use hydrascale.Access.Writer.{
  Host, forward_jump, input_jump, placement_of, fingerprint, restore_file,
}
use hydrascale.Access.Writer.Commands.{
  read_placement, insert_jump, ensure_jump, ensure_jumps, apply_live, apply_rules,
}
use hydrascale.Access.Writer.Commands.Chains.{
  Chains, jump_of, insertion, IsMarked, apply_rules-live, insert_jump_fine, apply_live-marked,
  apply_live-IsMarked,
}

Bool-both : (P : Bool → Type 0) → P true → P false → (b : Bool) → P b
Bool-both P t f true = t
Bool-both P t f false = f

module _ {W : Type 0} (host : Host W) (tool : Text) (chains : Chains host tool) where
  open chains use {forward_mark, out_mark}

  -- Both parents hold their jump rules.
  abbrev HasJumps : W → Type 0
  HasJumps w = (first : Bool) → chains.has_jump first w ≡ true

  read_placement_lem :
      (first : Bool) (w : W)
      → read_placement host tool (jump_of first) w ≡ (
        w,
        placement_of
            (host.run (tool ∷ txt "-S" ∷ (jump_of first).parent ∷ []) w).1.output
            (jump_of first),
        [],
      )
  unfolding read_placement
  read_placement_lem first w =
      rw (chains.listed first w, read_placement)
        (rw (chains.list_parent (jump_of first).parent w) refl)

  -- A jump rule that is there is left alone.
  ensure_jump_held :
      (first : Bool) (w : W)
      → chains.has_jump first w ≡ true
      → ((ensure_jump host tool (jump_of first) w).0 ≡ w)
        × ((ensure_jump host tool (jump_of first) w).2 ≡ [])
  unfolding ensure_jump
  ensure_jump_held first w held =
      let there : eqb
            (placement_of (host.run (tool ∷ txt "-S" ∷ (jump_of first).parent ∷ []) w).1.output
              (jump_of first)).position
            0
          ≡ false =
        ground (arith, chains.shows first w, held) in
      rw (read_placement_lem first w, ensure_jump)
        (rw (read_placement_lem first w) (rw there (refl, refl)))

  -- Without an error the jump rule is there, and no other one went.
  ensure_jump_done :
      (first : Bool) (w : W)
      → (ensure_jump host tool (jump_of first) w).2 ≡ []
      → (chains.has_jump first (ensure_jump host tool (jump_of first) w).0 ≡ true)
        × ((other : Bool)
            → chains.has_jump other w ≡ true
            → chains.has_jump other (ensure_jump host tool (jump_of first) w).0 ≡ true)
  unfolding ensure_jump insert_jump
  ensure_jump_done first w h = elim (Bool-cases (chains.has_jump first w)) [
    | inl held ↦ let (same, quiet) = ensure_jump_held first w held in rw same (held, λ other k. k)
    | inr absent ↦
        let here : eqb
              (placement_of (host.run (tool ∷ txt "-S" ∷ (jump_of first).parent ∷ []) w).1.output
                (jump_of first)).position
              0
            ≡ true =
          ground (arith, chains.shows first w, absent) in
        let run : (ensure_jump host tool (jump_of first) w).2
            ≡ (insert_jump host tool (jump_of first) w).1 =
          rw (read_placement_lem first w, ensure_jump)
            (rw (read_placement_lem first w) (rw here refl)) in
        let same : (ensure_jump host tool (jump_of first) w).0
            ≡ (insert_jump host tool (jump_of first) w).0 =
          rw (read_placement_lem first w, ensure_jump)
            (rw (read_placement_lem first w) (rw here refl)) in
        let fine : (host.run (insertion tool (jump_of first)) w).1.failed ≡ none =
          insert_jump_fine host tool chains (jump_of first) w (sym run ∙ h) in
        rw same
          (chains.inserted_jump first w fine, λ other k. chains.inserted_keeps first other w k)
  ]

  ensure_jumps_held :
      (wrote : Bool) (w : W)
      → HasJumps w
      → ((ensure_jumps host tool wrote w).0 ≡ w) × ((ensure_jumps host tool wrote w).2 ≡ [])
  unfolding ensure_jumps
  ensure_jumps_held wrote w held =
      let (same1, quiet1) = ensure_jump_held true w (held true) in
      let (same2, quiet2) = ensure_jump_held false w (held false) in
      rw (ensure_jumps, quiet1) (rw same1 (same2, quiet2))

  ensure_jumps-HasJumps :
      (wrote : Bool) (w : W)
      → (ensure_jumps host tool wrote w).2 ≡ []
      → HasJumps (ensure_jumps host tool wrote w).0
  unfolding ensure_jumps
  ensure_jumps-HasJumps wrote w h =
      let between = (ensure_jump host tool forward_jump w).0 in
      let (quiet1, quiet2) =
        nil_parts (ensure_jump host tool forward_jump w).2
          (ensure_jump host tool input_jump between).2 h in
      let (forward, kept) = ensure_jump_done true w quiet1 in
      let (input, keeps) = ensure_jump_done false between quiet2 in
      Bool-both (λ b. chains.has_jump b (ensure_jump host tool input_jump between).0 ≡ true)
        (keeps true forward) input

  apply_live-HasJumps :
      (c : Compiled) (w : W)
      → (apply_live host tool c (ok (forward_mark w, out_mark w)) w).2 ≡ []
      → HasJumps (apply_live host tool c (ok (forward_mark w, out_mark w)) w).0
  unfolding apply_live
  apply_live-HasJumps c w h =
      let want = fingerprint host.sha256_hex c in
      let (restored, answer) =
        host.run_input (restore_file c want) ((tool ++ txt "-restore") ∷ txt "--noflush" ∷ []) w in
      elim (Bool-cases (forward_mark w == want && out_mark w == want)) [
        | inl same ↦
            let quiet : (ensure_jumps host tool false w).2 ≡ [] =
              sym (rw (same, apply_live) refl) ∙ h in
            rw (same, apply_live) (ensure_jumps-HasJumps false w quiet)
        | inr other ↦ elim (Option-cases answer.failed) [
          | inl fine ↦
              let quiet : (ensure_jumps host tool true restored).2 ≡ [] =
                sym (rw (other, fine, apply_live) refl) ∙ h in
              rw (other, fine, apply_live) (ensure_jumps-HasJumps true restored quiet)
          | inr (e, failed) ↦ absurd (ground (arith, other, failed, h))
        ]
      ]

  -- A host with the marks of the set and with its jump rules is left alone.
  apply_live_held :
      (c : Compiled) (w : W)
      → IsMarked host tool chains c w
      → HasJumps w
      → ((apply_live host tool c (ok (forward_mark w, out_mark w)) w).0 ≡ w)
        × ((apply_live host tool c (ok (forward_mark w, out_mark w)) w).2 ≡ [])
  unfolding apply_live
  apply_live_held c w (f, o) held =
      let want = fingerprint host.sha256_hex c in
      let same : (forward_mark w == want && out_mark w == want) ≡ true =
        ground (arith, (==_iff (forward_mark w) want).1 f, (==_iff (out_mark w) want).1 o) in
      rw (same, apply_live) (ensure_jumps_held false w held)

  -- What Apply says that it wrote, where it reports no error.
  apply_live-wrote :
      (c : Compiled) (w : W)
      → (apply_live host tool c (ok (forward_mark w, out_mark w)) w).2 ≡ []
      → (apply_live host tool c (ok (forward_mark w, out_mark w)) w).1.wrote
        ≡ not (
            forward_mark w == fingerprint host.sha256_hex c
            && out_mark w == fingerprint host.sha256_hex c)
  unfolding apply_live ensure_jumps
  apply_live-wrote c w h =
      let want = fingerprint host.sha256_hex c in
      let answer =
        (host.run_input (restore_file c want) ((tool ++ txt "-restore") ∷ txt "--noflush" ∷ [])
          w).1 in
      elim (Bool-cases (forward_mark w == want && out_mark w == want)) [
        | inl same ↦ rw (same, apply_live) refl
        | inr other ↦ elim (Option-cases answer.failed) [
          | inl fine ↦ rw (other, fine, apply_live) refl
          | inr (e, failed) ↦ absurd (ground (arith, other, failed, h))
        ]
      ]

  -- An Apply that reports no error says that it wrote exactly when a chain did not hold the mark of
  -- the compiled set, and it leaves both chains with that mark and both parents with their jump
  -- rules. The next Apply of the same set writes nothing: the host stays as it is, jump rules
  -- included, and that Apply reports neither a write nor an error.
  pub apply_rules_again :
      (c : Compiled) (w : W)
      → (apply_rules host tool c w).2 ≡ []
      → ((apply_rules host tool c w).1.wrote
          ≡ not (
              forward_mark w == fingerprint host.sha256_hex c
              && out_mark w == fingerprint host.sha256_hex c))
        × IsMarked host tool chains c (apply_rules host tool c w).0
        × (chains.has_jump true (apply_rules host tool c w).0 ≡ true)
        × (chains.has_jump false (apply_rules host tool c w).0 ≡ true)
        × ((apply_rules host tool c (apply_rules host tool c w).0).0
            ≡ (apply_rules host tool c w).0)
        × ((apply_rules host tool c (apply_rules host tool c w).0).1.wrote ≡ false)
        × ((apply_rules host tool c (apply_rules host tool c w).0).2 ≡ [])
  apply_rules_again c w h =
      let e = apply_rules-live host tool chains c w in
      let first = (apply_live host tool c (ok (forward_mark w, out_mark w)) w).0 in
      let quiet : (apply_live host tool c (ok (forward_mark w, out_mark w)) w).2 ≡ [] =
        rw (sym e) h in
      let marked = apply_live-IsMarked host tool chains c w quiet in
      let jumps = apply_live-HasJumps c w quiet in
      let (still, silent) = apply_live_held c first marked jumps in
      rw e (
        rw (apply_rules-live host tool chains c first) (
          apply_live-wrote c w quiet,
          marked,
          jumps true,
          jumps false,
          still,
          apply_live-marked host tool chains c first marked,
          silent,
        ))
