-- ===== src/Policy/Change/Failed.antt =====
-- internal/policy/document.go: an edit that fails changes nothing.
use hydrascale.Common.{
  Bool, true, false, none, some, List, Text, text_eq, ◌≡◌, refl, ◌⊎◌, inl, inr, ◌==◌, Bool-cases,
  Option-cases, ok, err, Result, arith, txt, is_some, ap, sym, ◌∙◌,
}
use hydrascale.Config.{ℤ}
use hydrascale.Policy.Tree.{
  HuJson, Value, Content, object, array, literal, Name, Members, no_members, member, Elements,
  member_name, map_member_index, count, map_entry_indent, new_map_trailing_comma,
}
use hydrascale.Policy.Document.{
  Edited, EditError, on_root, or_new, change_section, on_array, on_object, with_entry, add_value,
  add_element, add_entry, replace_entry, remove_entry, replace_element, remove_element, position,
  no_section,
}
use hydrascale.Policy.Sections.{
  add_key, replace_key, remove_key, rename_key, add_map_value, add_map_entry, in_map_section,
  replace_map_entry, remove_map_entry, rename_map_entry,
}
use hydrascale.Policy.Approvers.{
  add_route, replace_route, remove_route, set_exit_node, in_object, auto_approvers_object,
  auto_approver_routes_object, add_auto_approver_route, replace_auto_approver_route,
  remove_auto_approver_route, set_auto_approver_exit_node,
}
use hydrascale.Policy.Change
use hydrascale.Policy.Change.{
  Change, add, replace, remove, add_map, replace_map, remove_map, rename_map, add_route_of,
  replace_route_of, remove_route_of, set_exit,
}

-- What an edit leaves is what there was, or the edit did not fail.
abbrev IsClean {ℓ} : {A : Type ℓ} → A → Edited A → Type ℓ
IsClean before done = (done.1 ≡ none) ⊎ (done.0 ≡ before)

on_root-IsClean :
    (edit : Members → Edited Members) (root : Content)
    → ((ms : Members) → IsClean ms (edit ms))
    → IsClean root (on_root edit root)
on_root-IsClean edit (object ms extra) h = elim (h ms) [
  | inl fine ↦ inl fine
  | inr same ↦ inr (ap (λ (x : Members). object x extra) same)
]
on_root-IsClean edit (array es extra) h = inr refl
on_root-IsClean edit (literal text) h = inr refl

on_array-IsClean :
    (section : Text) (edit : Name → Elements → Edited Elements)
    → ((n : Name) (es : Elements) → IsClean es (edit n es))
    → (n : Name) (c : Content) → IsClean c (on_array section edit n c)
on_array-IsClean section edit h n (array es extra) = elim (h n es) [
  | inl fine ↦ inl fine
  | inr same ↦ inr (ap (λ (x : Elements). array x extra) same)
]
on_array-IsClean section edit h n (object ms extra) = inr refl
on_array-IsClean section edit h n (literal text) = inr refl

on_object-IsClean :
    (section : Text) (edit : Name → Members → Edited Members)
    → ((n : Name) (ms : Members) → IsClean ms (edit n ms))
    → (n : Name) (c : Content) → IsClean c (on_object section edit n c)
on_object-IsClean section edit h n (object ms extra) = elim (h n ms) [
  | inl fine ↦ inl fine
  | inr same ↦ inr (ap (λ (x : Members). object x extra) same)
]
on_object-IsClean section edit h n (array es extra) = inr refl
on_object-IsClean section edit h n (literal text) = inr refl

with_entry-IsClean {ℓ} :
    {A : Type ℓ} (before : A) (r : Result Text Value) (edit : Content → Edited A)
    → ((value : Content) → IsClean before (edit value))
    → IsClean before (with_entry before r edit)
with_entry-IsClean before (err failure) edit h = inr refl
with_entry-IsClean before (ok value) edit h = h value.content

module _ (hu : HuJson) where
  change_section-IsClean :
      (section : Text) (edit : Name → Content → Edited Content) (ms : Members)
      → ((n : Name) (c : Content) → IsClean c (edit n c))
      → (change_section hu section edit ms ≡ none)
        ⊎ ((done : Edited Members) × (change_section hu section edit ms ≡ some done)
            × IsClean ms done)
  unfolding change_section
  change_section-IsClean section edit no_members h = inl refl
  change_section-IsClean section edit (member n b c a rest) h =
      elim (Bool-cases (member_name hu n == section)) [
        | inl same ↦ inr (
          (member n b (edit n c).0 a rest, (edit n c).1),
          rw same refl,
          elim (h n c) [
            | inl fine ↦ inl fine
            | inr e ↦ inr (ap (λ (x : Content). member n b x a rest) e)
          ],
        )
        | inr other ↦ elim (change_section-IsClean section edit rest h) [
          | inl e ↦ inl (rw (other, e) refl)
          | inr (done, e, clean) ↦ inr (
            (member n b c a done.0, done.1),
            rw (other, e) refl,
            elim clean [
              | inl fine ↦ inl fine
              | inr same ↦ inr (ap (λ (x : Members). member n b c a x) same)
            ],
          )
        ]
      ]

  or_new-IsClean :
      (section : Text) (edit : Name → Content → Edited Content) (ms : Members)
      (other : Edited Members)
      → ((n : Name) (c : Content) → IsClean c (edit n c))
      → IsClean ms other
      → IsClean ms (or_new other (change_section hu section edit ms))
  or_new-IsClean section edit ms other h k = elim (change_section-IsClean section edit ms h) [
    | inl e ↦ rw e k
    | inr (done, e, clean) ↦ rw e clean
  ]

  in_object-IsClean :
      (create : Bool) (section shown indent : Text) (comma : Bool)
      (edit : Name → Members → Edited Members) (ms : Members)
      → ((n : Name) (m : Members) → IsClean m (edit n m))
      → (create ≡ true → (n : Name) → (edit n no_members).1 ≡ none)
      → IsClean ms (in_object hu create section shown indent comma edit ms)
  unfolding in_object
  in_object-IsClean true section shown indent comma edit ms h k =
      or_new-IsClean section _ ms _ (on_object-IsClean shown edit h) (inl (k refl _))
  in_object-IsClean false section shown indent comma edit ms h k =
      or_new-IsClean section _ ms _ (on_object-IsClean shown edit h) (inr refl)

  replace_element-IsClean :
      (section : Text) (index : ℤ) (entry : Text) (n : Name) (es : Elements)
      → IsClean es (replace_element hu section index entry n es)
  unfolding replace_element
  replace_element-IsClean section index entry n es =
      elim (Option-cases (position index (count es))) [
        | inl e ↦ rw (e, replace_element) (inr refl)
        | inr (i, e) ↦
            rw (e, replace_element) (with_entry-IsClean es (hu.parse entry) _ (λ value. inl refl))
      ]

  remove_element-IsClean :
      (section : Text) (index : ℤ) (n : Name) (es : Elements)
      → IsClean es (remove_element hu section index n es)
  unfolding remove_element
  remove_element-IsClean section index n es = elim (Option-cases (position index (count es))) [
    | inl e ↦ rw (e, remove_element) (inr refl)
    | inr (i, e) ↦ rw (e, remove_element) (inl refl)
  ]

  add_key-IsClean :
      (section key : Text) (value : Content) (n : Name) (ms : Members)
      → IsClean ms (add_key hu section key value n ms)
  unfolding add_key
  add_key-IsClean section key value n ms =
      elim (Bool-cases (is_some (map_member_index hu ms key))) [
        | inl e ↦ rw e (inr refl)
        | inr e ↦ rw e (inl refl)
      ]

  replace_key-IsClean :
      (section key entry : Text) (n : Name) (ms : Members)
      → IsClean ms (replace_key hu section key entry n ms)
  unfolding replace_key
  replace_key-IsClean section key entry n ms = elim (Option-cases (map_member_index hu ms key)) [
    | inl e ↦ rw (e, replace_key) (inr refl)
    | inr (i, e) ↦
        rw (e, replace_key) (with_entry-IsClean ms (hu.parse entry) _ (λ value. inl refl))
  ]

  remove_key-IsClean :
      (section key : Text) (n : Name) (ms : Members) → IsClean ms (remove_key hu section key n ms)
  unfolding remove_key
  remove_key-IsClean section key n ms = elim (Option-cases (map_member_index hu ms key)) [
    | inl e ↦ rw (e, remove_key) (inr refl)
    | inr (i, e) ↦ rw (e, remove_key) (inl refl)
  ]

  rename_key-IsClean :
      (section old new : Text) (n : Name) (ms : Members)
      → IsClean ms (rename_key hu section old new n ms)
  unfolding rename_key
  rename_key-IsClean section old new n ms = elim (Option-cases (map_member_index hu ms old)) [
    | inl e ↦ rw (e, rename_key) (inr refl)
    | inr (i, e) ↦ elim (Bool-cases (is_some (map_member_index hu ms new))) [
      | inl held ↦ rw (e, held, rename_key) (inr refl)
      | inr free ↦ rw (e, free, rename_key) (inl refl)
    ]
  ]

  add_element-none :
      (value : Content) (n : Name) (es : Elements) → (add_element hu value n es).1 ≡ none
  unfolding add_element
  add_element-none value n es = refl

  missing-IsClean :
      (section : Text) (edit : Name → Content → Edited Content) (root : Content)
      → ((n : Name) (c : Content) → IsClean c (edit n c))
      → IsClean root (
          on_root
            (λ ms. or_new (ms, some (no_section section)) (change_section hu section edit ms))
            root)
  missing-IsClean section edit root h =
      on_root-IsClean _ root (λ ms. or_new-IsClean section edit ms _ h (inr refl))

  in_map_section-IsClean :
      (section : Text) (edit : Name → Members → Edited Members) (root : Content)
      → ((n : Name) (ms : Members) → IsClean ms (edit n ms))
      → IsClean root (in_map_section hu section edit root)
  unfolding in_map_section
  in_map_section-IsClean section edit root h =
      missing-IsClean section (on_object section edit) root (on_object-IsClean section edit h)

  approvers-IsClean :
      (create : Bool) (edit : Name → Members → Edited Members) (root : Content)
      → ((n : Name) (ms : Members) → IsClean ms (edit n ms))
      → (create ≡ true → (n : Name) → (edit n no_members).1 ≡ none)
      → IsClean root (auto_approvers_object hu create edit root)
  unfolding auto_approvers_object
  approvers-IsClean create edit root h k =
      on_root-IsClean _ root λ ms. in_object-IsClean create _ _ _ true edit ms h k

  routes-IsClean :
      (create : Bool) (edit : Name → Members → Edited Members) (root : Content)
      → ((n : Name) (ms : Members) → IsClean ms (edit n ms))
      → (create ≡ true → (n : Name) → (edit n no_members).1 ≡ none)
      → IsClean root (auto_approver_routes_object hu create edit root)
  unfolding auto_approver_routes_object in_object change_section
  routes-IsClean true edit root h k =
      approvers-IsClean true _ root (λ n ms. in_object-IsClean true _ _ _ _ edit ms h k)
        (λ _ n. k refl _)
  routes-IsClean false edit root h k =
      approvers-IsClean false _ root
        (λ n ms.
          in_object-IsClean false (txt "routes") (txt "autoApprovers.routes")
            (map_entry_indent n ms) (new_map_trailing_comma ms) edit ms h k)
        (λ e n. absurd (ground (arith, e)))

  module _ (lists : (l : List Text) → (value : Content) × (hu.list_value l ≡ ok value)) where
    add_route-IsClean :
        (cidr : Text) (l : List Text) (n : Name) (ms : Members)
        → IsClean ms (add_route hu cidr l n ms)
    unfolding add_route
    add_route-IsClean cidr l n ms = elim (Bool-cases (is_some (map_member_index hu ms cidr))) [
      | inl e ↦ rw (e, add_route) (inr refl)
      | inr e ↦ rw (e, add_route, (lists l).1) (inl refl)
    ]

    replace_route-IsClean :
        (cidr : Text) (l : List Text) (n : Name) (ms : Members)
        → IsClean ms (replace_route hu cidr l n ms)
    unfolding replace_route
    replace_route-IsClean cidr l n ms = elim (Option-cases (map_member_index hu ms cidr)) [
      | inl e ↦ rw (e, replace_route) (inr refl)
      | inr (i, e) ↦ rw (e, replace_route, (lists l).1) (inl refl)
    ]

    remove_route-IsClean :
        (cidr : Text) (n : Name) (ms : Members) → IsClean ms (remove_route hu cidr n ms)
    unfolding remove_route
    remove_route-IsClean cidr n ms = elim (Option-cases (map_member_index hu ms cidr)) [
      | inl e ↦ rw (e, remove_route) (inr refl)
      | inr (i, e) ↦ rw (e, remove_route) (inl refl)
    ]

    set_exit_node-IsClean :
        (l : List Text) (n : Name) (ms : Members) → IsClean ms (set_exit_node hu l n ms)
    unfolding set_exit_node
    set_exit_node-IsClean l n ms =
        rw (set_exit_node, (lists l).1)
          (or_new-IsClean (txt "exitNode") _ ms _ (λ n c. inl refl) (inl refl))

    add_route-none :
        (cidr : Text) (l : List Text) (n : Name) → (add_route hu cidr l n no_members).1 ≡ none
    unfolding add_route map_member_index
    add_route-none cidr l n = rw (lists l).1 refl

    set_exit_node-none : (l : List Text) (n : Name) → (set_exit_node hu l n no_members).1 ≡ none
    unfolding set_exit_node change_section
    set_exit_node-none l n = rw (set_exit_node, (lists l).1) refl

    apply_change-IsClean :
        (change : Change) (root : Content) → IsClean root (Change.apply_change hu change root)
    unfolding Change.apply_change add_entry add_value add_map_entry add_map_value replace_entry
        remove_entry replace_map_entry remove_map_entry rename_map_entry add_auto_approver_route
        replace_auto_approver_route remove_auto_approver_route set_auto_approver_exit_node
    apply_change-IsClean (add section entry) root =
        with_entry-IsClean root (hu.parse entry) _ λ value. on_root-IsClean _ root λ ms.
          or_new-IsClean section _ ms _
            (on_array-IsClean section (add_element hu value)
              (λ n es. inl (add_element-none value n es)))
            (inl refl)
    apply_change-IsClean (replace section index entry) root =
        missing-IsClean section _ root
          (on_array-IsClean section _ (replace_element-IsClean section index entry))
    apply_change-IsClean (remove section index) root =
        missing-IsClean section _ root
          (on_array-IsClean section _ (remove_element-IsClean section index))
    apply_change-IsClean (add_map section key entry) root =
        with_entry-IsClean root (hu.parse entry) _ λ value. on_root-IsClean _ root λ ms.
          or_new-IsClean section _ ms _
            (on_object-IsClean section _ (add_key-IsClean section key value)) (inl refl)
    apply_change-IsClean (replace_map section key entry) root =
        in_map_section-IsClean section _ root (replace_key-IsClean section key entry)
    apply_change-IsClean (remove_map section key) root =
        in_map_section-IsClean section _ root (remove_key-IsClean section key)
    apply_change-IsClean (rename_map section old new) root =
        in_map_section-IsClean section _ root (rename_key-IsClean section old new)
    apply_change-IsClean (add_route_of cidr l) root =
        routes-IsClean true _ root (add_route-IsClean cidr l) (λ _ n. add_route-none cidr l n)
    apply_change-IsClean (replace_route_of cidr l) root =
        routes-IsClean false _ root (replace_route-IsClean cidr l)
          (λ e n. absurd (ground (arith, e)))
    apply_change-IsClean (remove_route_of cidr) root =
        routes-IsClean false _ root (remove_route-IsClean cidr) (λ e n. absurd (ground (arith, e)))
    apply_change-IsClean (set_exit l) root =
        approvers-IsClean true _ root (set_exit_node-IsClean l) (λ _ n. set_exit_node-none l n)

    -- An edit that fails leaves the whole document as it was, whichever of the methods it is; the
    -- JSON of a list of texts can be parsed.
    pub apply_change_failed :
        (change : Change) (root after : Content) (failure : EditError)
        → Change.apply_change hu change root ≡ (after, some failure)
        → after ≡ root
    apply_change_failed change root after failure h = elim (apply_change-IsClean change root) [
      | inl fine ↦ absurd (ground (arith, fine, ap (λ (x : Edited Content). x.1) h))
      | inr same ↦ sym (ap (λ (x : Edited Content). x.0) h) ∙ same
    ]
