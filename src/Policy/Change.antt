-- ===== src/Policy/Change.antt =====
-- internal/policy/document.go: the edits of one session on a document, in a row.
pub mod Kept
pub mod Failed
pub mod Undone
use hydrascale.Common.{
  Option, none, some, List, [], ◌∷◌, Text, txt, Result, ok, err, mem, text_eq, if◌then◌else◌,
}
use hydrascale.Config.{ℤ}
use hydrascale.Policy.Tree.{HuJson, Content, Members, no_members, member, member_name}
use hydrascale.Policy.Document.{Edited, add_entry, replace_entry, remove_entry}
use hydrascale.Policy.Sections.{
  add_map_entry, replace_map_entry, remove_map_entry, rename_map_entry,
}
use hydrascale.Policy.Approvers.{
  add_auto_approver_route, replace_auto_approver_route, remove_auto_approver_route,
  set_auto_approver_exit_node,
}

-- The ten methods of Document that edit it, with their arguments.
pub data Change : Type 0 where
  add : Text → Text → Change
  replace : Text → ℤ → Text → Change
  remove : Text → ℤ → Change
  add_map : Text → Text → Text → Change
  replace_map : Text → Text → Text → Change
  remove_map : Text → Text → Change
  rename_map : Text → Text → Text → Change
  add_route_of : Text → List Text → Change
  replace_route_of : Text → List Text → Change
  remove_route_of : Text → Change
  set_exit : List Text → Change

-- The top-level section that a method edits.
unfoldable pub section_of : Change → Text
section_of (add section entry) = section
section_of (replace section index entry) = section
section_of (remove section index) = section
section_of (add_map section key entry) = section
section_of (replace_map section key entry) = section
section_of (remove_map section key) = section
section_of (rename_map section old new) = section
section_of (add_route_of cidr approvers) = txt "autoApprovers"
section_of (replace_route_of cidr approvers) = txt "autoApprovers"
section_of (remove_route_of cidr) = txt "autoApprovers"
section_of (set_exit approvers) = txt "autoApprovers"

module _ (hu : HuJson) where
  -- The call of a method.
  unfoldable pub apply_change : Change → Content → Edited Content
  apply_change (add section entry) = add_entry hu section entry
  apply_change (replace section index entry) = replace_entry hu section index entry
  apply_change (remove section index) = remove_entry hu section index
  apply_change (add_map section key entry) = add_map_entry hu section key entry
  apply_change (replace_map section key entry) = replace_map_entry hu section key entry
  apply_change (remove_map section key) = remove_map_entry hu section key
  apply_change (rename_map section old new) = rename_map_entry hu section old new
  apply_change (add_route_of cidr approvers) = add_auto_approver_route hu cidr approvers
  apply_change (replace_route_of cidr approvers) = replace_auto_approver_route hu cidr approvers
  apply_change (remove_route_of cidr) = remove_auto_approver_route hu cidr
  apply_change (set_exit approvers) = set_auto_approver_exit_node hu approvers

  -- The calls of a session, whether they fail or not.
  unfoldable pub apply_changes : List Change → Content → Content
  unfolding apply_change
  apply_changes [] root = root
  apply_changes (change ∷ changes) root = apply_changes changes (apply_change change root).0

  -- The names of the members, in order.
  unfoldable pub names : Members → List Text
  names no_members = []
  names (member name before content after rest) = member_name hu name ∷ names rest

  -- The members whose names are not in a list, with all their bytes.
  unfoldable pub without : List Text → Members → Members
  without sections no_members = no_members
  without sections (member name before content after rest) =
      let others = without sections rest in
      if mem (member_name hu name) sections then others else member name before content after others
