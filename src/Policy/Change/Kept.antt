-- ===== src/Policy/Change/Kept.antt =====
-- internal/policy/document.go: the edits of one section leave the other sections alone.
use hydrascale.Common.{
  Bool, true, false, Option, none, some, List, [], ◌∷◌, ◌++◌, Text, text_eq, mem, nodup, ◌≡◌, refl,
  ◌⊎◌, inl, inr, ◌==◌, Bool-cases, ==_iff, ok, err, Result, arith, map, ◌∙◌, nodup-snoc, All,
  All-mem_self, txt,
}
use hydrascale.Policy.Tree.{
  HuJson, Value, top_level_indent, Content, object, Name, Members, no_members, member, join_members,
  member_name, new_section_member, new_map_section_member, new_map_member, new_name,
}
use hydrascale.Policy.Document.{
  Edited, on_root, or_new, change_section, on_object, add_value, add_entry, replace_entry,
  remove_entry, no_section, with_entry,
}
use hydrascale.Policy.Sections.{
  add_map_value, add_map_entry, in_map_section, replace_map_entry, remove_map_entry,
  rename_map_entry,
}
use hydrascale.Policy.Approvers.{
  in_object, auto_approvers_object, auto_approver_routes_object, add_auto_approver_route,
  replace_auto_approver_route, remove_auto_approver_route, set_auto_approver_exit_node,
}
use hydrascale.Policy.Change
use hydrascale.Policy.Change.{
  Change, add, replace, remove, add_map, replace_map, remove_map, rename_map, add_route_of,
  replace_route_of, remove_route_of, set_exit,
}

module _ (hu : HuJson) where
  -- The members after an edit of a section: those of other sections are the same, and no name
  -- stands twice where none did.
  IsKept : Text → Members → Members → Type 0
  IsKept section before after =
      ((sections : List Text)
        → mem section sections ≡ true
        → Change.without hu sections after ≡ Change.without hu sections before)
      × (nodup (Change.names hu before) ≡ true → nodup (Change.names hu after) ≡ true)

  SectionCases : Text → (Name → Content → Edited Content) → Members → Type 0
  SectionCases section edit ms =
      ((change_section hu section edit ms ≡ none) × (mem section (Change.names hu ms) ≡ false))
      ⊎ ((done : Edited Members) × (change_section hu section edit ms ≡ some done)
          × (Change.names hu done.0 ≡ Change.names hu ms)
          × ((sections : List Text)
              → mem section sections ≡ true
              → Change.without hu sections done.0 ≡ Change.without hu sections ms))

  change_section-cases :
      (section : Text) (edit : Name → Content → Edited Content) (ms : Members)
      → SectionCases section edit ms
  unfolding change_section Change.names Change.without SectionCases
  change_section-cases section edit no_members = inl (refl, refl)
  change_section-cases section edit (member n b c a rest) =
      elim (Bool-cases (member_name hu n == section)) [
        | inl same ↦
            let e : member_name hu n ≡ section = (==_iff (member_name hu n) section).0 same in
            inr (
              (member n b (edit n c).0 a rest, (edit n c).1),
              ground (arith, same),
              refl,
              λ sections m. rw (e, m) refl,
            )
        | inr other ↦ elim (change_section-cases section edit rest) [
          | inl (e, fresh) ↦ inl (rw (other, e) refl, ground (arith, other, fresh))
          | inr (done, e, same, kept) ↦ inr (
            (member n b c a done.0, done.1),
            rw (other, e) refl,
            rw same refl,
            λ sections m. rw (kept sections m) refl,
          )
        ]
      ]

  join_members-names :
      (ms more : Members)
      → Change.names hu (join_members ms more) ≡ Change.names hu ms ++ Change.names hu more
  unfolding join_members Change.names
  join_members-names no_members more = refl
  join_members-names (member n b c a rest) more = rw (join_members-names rest more) refl

  join_members-without :
      (sections : List Text) (ms more : Members)
      → Change.without hu sections more ≡ no_members
      → Change.without hu sections (join_members ms more) ≡ Change.without hu sections ms
  unfolding join_members Change.without
  join_members-without sections no_members more h = h
  join_members-without sections (member n b c a rest) more h =
      rw (join_members-without sections rest more h) refl

  -- A member of the name of the section at the end.
  join_new-IsKept :
      (section : Text) (n : Name) (b : Text) (c : Content) (a : Option Text) (ms : Members)
      → member_name hu n ≡ section
      → mem section (Change.names hu ms) ≡ false
      → IsKept section ms (join_members ms (member n b c a no_members))
  unfolding IsKept Change.names Change.without
  join_new-IsKept section n b c a ms same fresh = (
    λ sections m. join_members-without sections ms (member n b c a no_members) (rw (same, m) refl),
    λ distinct.
        rw (join_members-names ms (member n b c a no_members), same)
          (nodup-snoc section (Change.names hu ms) distinct fresh),
  )

  some_section-IsKept :
      (section : Text) (ms : Members) (done : Edited Members)
      → Change.names hu done.0 ≡ Change.names hu ms
      → ((sections : List Text)
          → mem section sections ≡ true
          → Change.without hu sections done.0 ≡ Change.without hu sections ms)
      → IsKept section ms done.0
  unfolding IsKept
  some_section-IsKept section ms done same kept = (kept, λ distinct. rw same distinct)

  IsKept-refl : (section : Text) (ms : Members) → IsKept section ms ms
  unfolding IsKept
  IsKept-refl section ms = (λ sections m. refl, λ distinct. distinct)

  new_name-member_name : (key indent : Text) → member_name hu (new_name hu key indent) ≡ key
  unfolding member_name
  new_name-member_name key indent = hu.unquote_quote key

  or_new-IsKept :
      (section : Text) (edit : Name → Content → Edited Content) (ms : Members)
      (other : Edited Members)
      → (mem section (Change.names hu ms) ≡ false → IsKept section ms other.0)
      → IsKept section ms (or_new other (change_section hu section edit ms)).0
  unfolding SectionCases
  or_new-IsKept section edit ms other h = elim (change_section-cases section edit ms) [
    | inl (e, fresh) ↦ rw e (h fresh)
    | inr (done, e, same, kept) ↦ rw e (some_section-IsKept section ms done same kept)
  ]

  in_object-IsKept :
      (create : Bool) (section shown indent : Text) (comma : Bool)
      (edit : Name → Members → Edited Members) (ms : Members)
      → IsKept section ms (in_object hu create section shown indent comma edit ms).0
  unfolding in_object new_map_member
  in_object-IsKept true section shown indent comma edit ms =
      or_new-IsKept section (on_object shown edit) ms _
        (join_new-IsKept section _ _ _ _ ms (new_name-member_name section indent))
  in_object-IsKept false section shown indent comma edit ms =
      or_new-IsKept section (on_object shown edit) ms _ (λ fresh. IsKept-refl section ms)

  -- The root after an edit of a section.
  RootKept : Text → Members → Text → Content → Type 0
  RootKept section ms extra root =
      (after : Members) × (root ≡ object after extra) × IsKept section ms after

  parsed-RootKept :
      (section : Text) (edit : Content → Members → Edited Members) (ms : Members) (extra : Text)
      (r : Result Text Value)
      → ((value : Content) → IsKept section ms (edit value ms).0)
      → RootKept section ms extra
          (with_entry (object ms extra) r (λ value. on_root (edit value) (object ms extra))).0
  unfolding RootKept
  parsed-RootKept section edit ms extra (err failure) h = (ms, refl, IsKept-refl section ms)
  parsed-RootKept section edit ms extra (ok value) h =
      ((edit value.content ms).0, refl, h value.content)

  missing-RootKept :
      (section : Text) (edit : Name → Content → Edited Content) (ms : Members) (extra : Text)
      → RootKept section ms extra (
          object
            (or_new (ms, some (no_section section)) (change_section hu section edit ms)).0
            extra)
  unfolding RootKept
  missing-RootKept section edit ms extra =
      (_, refl, or_new-IsKept section edit ms _ (λ fresh. IsKept-refl section ms))

  approvers-RootKept :
      (create : Bool) (edit : Name → Members → Edited Members) (ms : Members) (extra : Text)
      → RootKept
          (txt "autoApprovers")
          ms
          extra
          (auto_approvers_object hu create edit (object ms extra)).0
  unfolding RootKept auto_approvers_object
  approvers-RootKept create edit ms extra = (
    _,
    refl,
    in_object-IsKept create (txt "autoApprovers") (txt "autoApprovers") (top_level_indent ms) true
        edit ms,
  )

  apply_change-RootKept :
      (change : Change) (ms : Members) (extra : Text)
      → RootKept
          (Change.section_of change)
          ms
          extra
          (Change.apply_change hu change (object ms extra)).0
  unfolding Change.apply_change Change.section_of add_entry add_value new_section_member
      add_map_entry add_map_value new_map_section_member replace_entry remove_entry in_map_section
      replace_map_entry remove_map_entry rename_map_entry auto_approver_routes_object
      add_auto_approver_route replace_auto_approver_route remove_auto_approver_route
      set_auto_approver_exit_node
  apply_change-RootKept (add section entry) ms extra =
      parsed-RootKept section (add_value hu section) ms extra (hu.parse entry) λ value.
        or_new-IsKept section _ ms _
          (join_new-IsKept section _ _ _ _ ms (new_name-member_name section _))
  apply_change-RootKept (replace section index entry) ms extra = missing-RootKept section _ ms extra
  apply_change-RootKept (remove section index) ms extra = missing-RootKept section _ ms extra
  apply_change-RootKept (add_map section key entry) ms extra =
      parsed-RootKept section (add_map_value hu section key) ms extra (hu.parse entry) λ value.
        or_new-IsKept section _ ms _
          (join_new-IsKept section _ _ _ _ ms (new_name-member_name section _))
  apply_change-RootKept (replace_map section key entry) ms extra =
      missing-RootKept section _ ms extra
  apply_change-RootKept (remove_map section key) ms extra = missing-RootKept section _ ms extra
  apply_change-RootKept (rename_map section old new) ms extra = missing-RootKept section _ ms extra
  apply_change-RootKept (add_route_of cidr approvers) ms extra = approvers-RootKept true _ ms extra
  apply_change-RootKept (replace_route_of cidr approvers) ms extra =
      approvers-RootKept false _ ms extra
  apply_change-RootKept (remove_route_of cidr) ms extra = approvers-RootKept false _ ms extra
  apply_change-RootKept (set_exit approvers) ms extra = approvers-RootKept true _ ms extra

  pub apply_changes-IsKept :
      (sections : List Text) (changes : List Change) (ms : Members) (extra : Text)
      → All (λ s. mem s sections ≡ true) (map Change.section_of changes)
      → (after : Members) × (Change.apply_changes hu changes (object ms extra) ≡ object after extra)
        × (Change.without hu sections after ≡ Change.without hu sections ms)
        × (nodup (Change.names hu ms) ≡ true → nodup (Change.names hu after) ≡ true)
  unfolding Change.apply_changes RootKept IsKept
  apply_changes-IsKept sections [] ms extra h = (ms, refl, refl, λ distinct. distinct)
  apply_changes-IsKept sections (change ∷ changes) ms extra (m, h) =
      let (between, e, (kept, distinct)) = apply_change-RootKept change ms extra in
      let (after, e2, kept2, distinct2) = apply_changes-IsKept sections changes between extra h in
      (after, rw e e2, kept2 ∙ kept sections m, λ k. distinct2 (distinct k))

  -- A session of edits on a policy document, whether they fail or not, leaves every top-level
  -- section that none of them names as it was, in its order and with all its bytes.
  pub apply_changes-kept :
      (changes : List Change) (ms : Members) (extra : Text)
      → (after : Members) × (Change.apply_changes hu changes (object ms extra) ≡ object after extra)
        × (Change.without hu (map Change.section_of changes) after
            ≡ Change.without hu (map Change.section_of changes) ms)
  apply_changes-kept changes ms extra =
      let (after, e, kept, distinct) =
        apply_changes-IsKept (map Change.section_of changes) changes ms extra
          (All-mem_self (map Change.section_of changes)) in
      (after, e, kept)
