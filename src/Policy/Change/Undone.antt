-- ===== src/Policy/Change/Undone.antt =====
-- internal/policy/document.go: RemoveEntry takes back what AddEntry added.
use hydrascale.Common.{
  ℕ, suc, true, Option, none, some, Text, text_eq, ◌≡◌, refl, inl, inr, ◌==◌, if◌then◌else◌,
  Bool-cases, Result-cases, arith, ap, sym, ◌∙◌, subst,
}
use hydrascale.Config.{pos}
use hydrascale.Policy.Tree.{
  HuJson, Content, object, array, literal, Name, Members, no_members, member, Elements, no_elements,
  element, join_elements, member_name, count, new_array_element,
}
use hydrascale.Policy.Document.{
  Edited, on_array, change_section, add_value, add_element, add_entry, remove_entry, remove_element,
  remove_at, position,
}

-- The entries of a value that is a list.
abbrev entries_of : Content → Option Elements
entries_of (array es extra) = some es
entries_of (object ms extra) = none
entries_of (literal text) = none

remove_at-join_elements :
    (es : Elements) (b : Text) (c : Content) (a : Option Text)
    → remove_at (count es) (join_elements es (element b c a no_elements)) ≡ es
unfolding remove_at count join_elements
remove_at-join_elements no_elements b c a = refl
remove_at-join_elements (element b1 c1 a1 rest) b c a = rw (remove_at-join_elements rest b c a) refl

count-join_elements :
    (es : Elements) (b : Text) (c : Content) (a : Option Text)
    → count (join_elements es (element b c a no_elements)) ≡ suc (count es)
unfolding count join_elements
count-join_elements no_elements b c a = refl
count-join_elements (element b1 c1 a1 rest) b c a = rw (count-join_elements rest b c a) refl

position_last : (n : ℕ) → position (pos n) (suc n) ≡ some n
unfolding position
position_last n = ground arith

module _ (hu : HuJson) where
  -- The entries of the first section of that name, where it is a list.
  unfoldable pub array_at : Text → Members → Option Elements
  array_at section no_members = none
  array_at section (member n b c a rest) =
      let later = array_at section rest in
      if member_name hu n == section then entries_of c else later

  remove_last :
      (section : Text) (n : Name) (es : Elements) (b : Text) (c : Content) (a : Option Text)
      → remove_element hu section (pos (count es)) n (join_elements es (element b c a no_elements))
        ≡ (es, none)
  unfolding remove_element
  remove_last section n es b c a =
      rw
        (
          remove_element,
          count-join_elements es b c a,
          position_last (count es),
          remove_at-join_elements es b c a,
        )
        refl

  remove_element-add_element :
      (section : Text) (value : Content) (n : Name) (es : Elements)
      → remove_element hu section (pos (count es)) n (add_element hu value n es).0 ≡ (es, none)
  unfolding add_element new_array_element
  remove_element-add_element section value n es = remove_last section n es _ _ _

  Undo : Text → Content → Elements → Members → Type 0
  Undo section value es ms =
      (after : Members) × (change_section hu section (on_array section (add_element hu value)) ms
        ≡ some (after, none))
      × (change_section hu section (on_array section (remove_element hu section (pos (count es))))
            after
          ≡ some (ms, none))

  add_element-none :
      (value : Content) (n : Name) (es : Elements) → (add_element hu value n es).1 ≡ none
  unfolding add_element
  add_element-none value n es = refl

  array-Undo :
      (section : Text) (value : Content) (es : Elements) (n : Name) (b extra : Text)
      (a : Option Text) (rest : Members)
      → (member_name hu n == section) ≡ true
      → Undo section value es (member n b (array es extra) a rest)
  unfolding Undo change_section
  array-Undo section value es n b extra a rest same = (
    member n b (array (add_element hu value n es).0 extra) a rest,
    rw same (rw (add_element-none value n es) refl),
    rw same (rw (remove_element-add_element section value n es) refl),
  )

  entries_of-Undo :
      (section : Text) (value : Content) (es : Elements) (n : Name) (b : Text) (c : Content)
      (a : Option Text) (rest : Members)
      → (member_name hu n == section) ≡ true
      → entries_of c ≡ some es
      → Undo section value es (member n b c a rest)
  entries_of-Undo section value es n b (array items extra) a rest same h =
      let e : items ≡ es = ground (arith, h) in
      subst (λ x. Undo section value x (member n b (array items extra) a rest)) e
        (array-Undo section value items n b extra a rest same)
  entries_of-Undo section value es n b (object ms extra) a rest same h = absurd (ground (arith, h))
  entries_of-Undo section value es n b (literal text) a rest same h = absurd (ground (arith, h))

  array_at-Undo :
      (section : Text) (value : Content) (es : Elements) (ms : Members)
      → array_at section ms ≡ some es
      → Undo section value es ms
  unfolding Undo change_section array_at
  array_at-Undo section value es no_members h = absurd (ground (arith, h))
  array_at-Undo section value es (member n b c a rest) h =
      elim (Bool-cases (member_name hu n == section)) [
        | inl same ↦ entries_of-Undo section value es n b c a rest same (ground (arith, h, same))
        | inr other ↦
            let (after, added, removed) =
              array_at-Undo section value es rest (ground (arith, h, other)) in
            (member n b c a after, rw (other, added) refl, rw (other, removed) refl)
      ]

  -- Where AddEntry added an entry to a list section that the document held, RemoveEntry of the
  -- last position gives back the document before, with all its bytes.
  pub remove_entry-add_entry :
      (section entry : Text) (ms : Members) (extra : Text) (es : Elements) (after : Content)
      → array_at section ms ≡ some es
      → add_entry hu section entry (object ms extra) ≡ (after, none)
      → remove_entry hu section (pos (count es)) after ≡ (object ms extra, none)
  unfolding add_entry add_value remove_entry Undo
  remove_entry-add_entry section entry ms extra es after held added =
      elim (Result-cases (hu.parse entry)) [
        | inr (failure, bad) ↦ absurd (ground (arith, added, bad))
        | inl (value, good) ↦
            let (members, put, removed) = array_at-Undo section value.content es ms held in
            let run : add_entry hu section entry (object ms extra) ≡ (object members extra, none) =
              rw (add_entry, good) (rw (add_value, put) refl) in
            let e : after ≡ object members extra =
              ap (λ (x : Edited Content). x.0) (sym added ∙ run) in
            rw e (rw (remove_entry, removed) refl)
      ]
