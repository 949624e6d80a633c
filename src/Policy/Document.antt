-- ===== src/Policy/Document.antt =====
-- internal/policy/document.go: the edits of a list section and of a map section. An edit gives
-- the tree after it, and its error where it failed.
use hydrascale.Common.{
  ℕ, zero, suc, Option, none, some, Text, text_eq, ◌==◌, if◌then◌else◌, Result, ok, err, ltb,
}
use hydrascale.Config.{ℤ, pos, negsuc}
use hydrascale.Policy.Tree.{
  HuJson, Value, Content, literal, array, object, Elements, no_elements, element, Members,
  no_members, member, Name, join_elements, join_members, count, top_level_indent,
  array_entry_indent, new_trailing_comma, new_array_element, new_section_member, member_name,
}

-- The errors of the edits.
pub data EditError : Type 0 where
  bad_entry : Text → EditError
  root_not_object : EditError
  no_section : Text → EditError
  not_array : Text → EditError
  not_object : Text → EditError
  out_of_range : ℤ → Text → ℕ → EditError
  key_held : Text → Text → EditError
  no_key : Text → Text → EditError
  bad_list : Text → EditError

-- What an edit leaves, and its error.
abbrev pub Edited {ℓ} : Type ℓ → Type ℓ
Edited A = A × Option EditError

unfoldable pub replace_at : ℕ → Content → Elements → Elements
replace_at i value no_elements = no_elements
replace_at zero value (element before content after rest) = element before value after rest
replace_at (suc i) value (element before content after rest) =
    element before content after (replace_at i value rest)

unfoldable pub remove_at : ℕ → Elements → Elements
remove_at i no_elements = no_elements
remove_at zero (element before content after rest) = rest
remove_at (suc i) (element before content after rest) =
    element before content after (remove_at i rest)

unfoldable pub set_member : ℕ → Content → Members → Members
set_member i value no_members = no_members
set_member zero value (member name before content after rest) = member name before value after rest
set_member (suc i) value (member name before content after rest) =
    member name before content after (set_member i value rest)

unfoldable pub remove_member : ℕ → Members → Members
remove_member i no_members = no_members
remove_member zero (member name before content after rest) = rest
remove_member (suc i) (member name before content after rest) =
    member name before content after (remove_member i rest)

unfoldable pub rename_member : ℕ → Text → Members → Members
rename_member i quoted no_members = no_members
rename_member zero quoted (member name before content after rest) =
    member
      (record { before = name.before; start = name.start; quoted = quoted; after = name.after })
      before content after rest
rename_member (suc i) quoted (member name before content after rest) =
    member name before content after (rename_member i quoted rest)

-- index < 0 || index >= n refuses.
unfoldable pub position : ℤ → ℕ → Option ℕ
position (pos i) n = if ltb i n then some i else none
position (negsuc i) n = none

-- The type assertion on the root.
abbrev pub on_root : (Members → Edited Members) → Content → Edited Content
on_root edit (object members extra) = let done = edit members in (object done.0 extra, done.1)
on_root edit (array elements extra) = (array elements extra, some root_not_object)
on_root edit (literal text) = (literal text, some root_not_object)

-- What an edit made of the section that it found, or something else where it found none.
abbrev pub or_new : Edited Members → Option (Edited Members) → Edited Members
or_new other (some done) = done
or_new other none = other

-- The type assertion on a list section.
abbrev pub on_array : Text → (Name → Elements → Edited Elements) → Name → Content → Edited Content
on_array section edit name (array elements extra) =
    let done = edit name elements in (array done.0 extra, done.1)
on_array section edit name (object members extra) = (object members extra, some (not_array section))
on_array section edit name (literal text) = (literal text, some (not_array section))

-- The type assertion on a map section.
abbrev pub on_object : Text → (Name → Members → Edited Members) → Name → Content → Edited Content
on_object section edit name (object members extra) =
    let done = edit name members in (object done.0 extra, done.1)
on_object section edit name (array elements extra) =
    (array elements extra, some (not_object section))
on_object section edit name (literal text) = (literal text, some (not_object section))

-- An edit with the parsed entry, or the error of the parser.
abbrev pub with_entry {ℓ} : {A : Type ℓ} → A → Result Text Value → (Content → Edited A) → Edited A
with_entry before (err failure) edit = (before, some (bad_entry failure))
with_entry before (ok value) edit = edit value.content

module _ (hu : HuJson) where
  -- The first member of that name, with what an edit makes of it; none where there is none.
  unfoldable pub change_section :
      Text → (Name → Content → Edited Content) → Members → Option (Edited Members)
  change_section section edit no_members = none
  change_section section edit (member name before content after rest) =
      let later = change_section section edit rest in
      if member_name hu name == section
      then (let done = edit name content in some (member name before done.0 after rest, done.1))
      else elim later [
        | some (members, failure) ↦ some (member name before content after members, failure)
        | none ↦ none
      ]

  unfoldable pub add_element : Content → Name → Elements → Edited Elements
  add_element value name elements =
      let fresh =
        new_array_element value (array_entry_indent name elements) (new_trailing_comma elements) in
      (join_elements elements fresh, none)

  unfoldable pub add_value : Text → Content → Members → Edited Members
  unfolding add_element
  add_value section value members =
      let fresh = new_section_member hu section value (top_level_indent members) in
      or_new (join_members members fresh, none)
        (change_section section (on_array section (add_element value)) members)

  -- `AddEntry`
  unfoldable pub add_entry : Text → Text → Content → Edited Content
  unfolding add_value
  add_entry section entry root =
      with_entry root (hu.parse entry) (λ value. on_root (add_value section value) root)

  -- The entry is parsed after the position is checked.
  unfoldable pub replace_element : Text → ℤ → Text → Name → Elements → Edited Elements
  replace_element section index entry name elements = elim (position index (count elements)) [
    | none ↦ (elements, some (out_of_range index section (count elements)))
    | some i ↦ with_entry elements (hu.parse entry) (λ value. (replace_at i value elements, none))
  ]

  -- `ReplaceEntry`
  unfoldable pub replace_entry : Text → ℤ → Text → Content → Edited Content
  unfolding replace_element
  replace_entry section index entry = on_root λ members.
      or_new (members, some (no_section section))
        (change_section section (on_array section (replace_element section index entry)) members)

  unfoldable pub remove_element : Text → ℤ → Name → Elements → Edited Elements
  remove_element section index name elements = elim (position index (count elements)) [
    | none ↦ (elements, some (out_of_range index section (count elements)))
    | some i ↦ (remove_at i elements, none)
  ]

  -- `RemoveEntry`
  unfoldable pub remove_entry : Text → ℤ → Content → Edited Content
  unfolding remove_element
  remove_entry section index = on_root λ members.
      or_new (members, some (no_section section))
        (change_section section (on_array section (remove_element section index)) members)
