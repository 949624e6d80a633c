-- ===== src/Policy/Sections.antt =====
-- internal/policy/document.go: the edits of the entries of a map section.
use hydrascale.Common.{none, some, Text, is_some, if◌then◌else◌}
use hydrascale.Policy.Tree.{
  HuJson, Content, Name, Members, join_members, top_level_indent, map_entry_indent,
  new_map_trailing_comma, new_map_member, new_map_section_member, map_member_index,
}
use hydrascale.Policy.Document.{
  key_held, no_key, no_section, Edited, on_root, or_new, with_entry, on_object, change_section,
  set_member, remove_member, rename_member,
}

module _ (hu : HuJson) where
  unfoldable pub add_key : Text → Text → Content → Name → Members → Edited Members
  add_key section key value name members =
      if is_some (map_member_index hu members key)
      then (members, some (key_held section key))
      else (let indent = map_entry_indent name members in
          (
            join_members members
                (new_map_member hu key value indent (new_map_trailing_comma members)),
            none,
          ))

  unfoldable pub add_map_value : Text → Text → Content → Members → Edited Members
  unfolding add_key
  add_map_value section key value members =
      let fresh = new_map_section_member hu section key value (top_level_indent members) in
      or_new (join_members members fresh, none)
        (change_section hu section (on_object section (add_key section key value)) members)

  -- `AddMapEntry`
  unfoldable pub add_map_entry : Text → Text → Text → Content → Edited Content
  unfolding add_map_value
  add_map_entry section key entry root =
      with_entry root (hu.parse entry) (λ value. on_root (add_map_value section key value) root)

  -- `mapSection`, with what the caller does with the section.
  unfoldable pub in_map_section :
      Text → (Name → Members → Edited Members) → Content → Edited Content
  in_map_section section edit = on_root λ members.
      or_new (members, some (no_section section))
        (change_section hu section (on_object section edit) members)

  -- The entry is parsed after the key is found.
  unfoldable pub replace_key : Text → Text → Text → Name → Members → Edited Members
  replace_key section key entry name members = elim (map_member_index hu members key) [
    | none ↦ (members, some (no_key section key))
    | some i ↦ with_entry members (hu.parse entry) (λ value. (set_member i value members, none))
  ]

  -- `ReplaceMapEntry`
  unfoldable pub replace_map_entry : Text → Text → Text → Content → Edited Content
  unfolding in_map_section replace_key
  replace_map_entry section key entry = in_map_section section (replace_key section key entry)

  unfoldable pub remove_key : Text → Text → Name → Members → Edited Members
  remove_key section key name members = elim (map_member_index hu members key) [
    | none ↦ (members, some (no_key section key))
    | some i ↦ (remove_member i members, none)
  ]

  -- `RemoveMapEntry`
  unfoldable pub remove_map_entry : Text → Text → Content → Edited Content
  unfolding in_map_section remove_key
  remove_map_entry section key = in_map_section section (remove_key section key)

  unfoldable pub rename_key : Text → Text → Text → Name → Members → Edited Members
  rename_key section old new name members = elim (map_member_index hu members old) [
    | none ↦ (members, some (no_key section old))
    | some i ↦
        if is_some (map_member_index hu members new)
        then (members, some (key_held section new))
        else (rename_member i (hu.quote new) members, none)
  ]

  -- `RenameMapEntry`
  unfoldable pub rename_map_entry : Text → Text → Text → Content → Edited Content
  unfolding in_map_section rename_key
  rename_map_entry section old new = in_map_section section (rename_key section old new)
