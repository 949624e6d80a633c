-- ===== src/Access/Writer/Positions.antt =====
-- The position of the jump rule and the rules above it agree.
use hydrascale.Common.{
  ℕ, ◌+◌, ◌≡◌, ◌⊎◌, inl, inr, refl, ◌∙◌, List, [], ◌∷◌, ◌++◌, Text, text_eq, length, length-append,
  Bool-cases, fields, split_lines, arith,
}
use hydrascale.Access.Writer.{Jump, Placement, is_rule, is_jump, target_of, place, placement_of}

-- No jump rule, or one with a rule of the chain above it for each position before it.
abbrev pub IsPlacement : Placement → Type 0
IsPlacement p = (p.position ≡ 0) ⊎ (length p.above + 1 ≡ p.position)

place-IsPlacement :
    (j : Jump) (position : ℕ) (above lines : List Text)
    → length above ≡ position
    → IsPlacement (place j position above lines)
unfolding place
place-IsPlacement j position above [] h = inl refl
place-IsPlacement j position above (line ∷ lines) h =
    let words = fields line in
    let target = target_of words in
    let counted : length (above ++ target ∷ []) ≡ position + 1 =
      length-append above (target ∷ []) ∙ omega (arith, h) in
    elim (Bool-cases (is_rule j words)) [
      | inr other ↦ rw (other, place) (place-IsPlacement j position above lines h)
      | inl rule ↦ elim (Bool-cases (is_jump j words)) [
        | inl found ↦ rw (rule, found, place) (inr (omega (arith, h)))
        | inr passed ↦
            rw (rule, passed, place)
              (place-IsPlacement j (position + 1) (above ++ target ∷ []) lines counted)
      ]
    ]

-- The placement that the Writer reads from a listing of a parent chain has the position 0, or the
-- position is one more than the number of the targets above the jump rule.
pub placement_of-IsPlacement : (output : Text) (j : Jump) → IsPlacement (placement_of output j)
unfolding placement_of
placement_of-IsPlacement output j = place-IsPlacement j 0 [] (split_lines output) refl
