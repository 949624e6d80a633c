-- ===== src/Policy/Approvers.antt =====
-- internal/policy/document.go: the edits of the section autoApprovers.
use hydrascale.Common.{
  Bool, true, false, none, some, List, Text, txt, is_some, ok, err, if◌then◌else◌,
}
use hydrascale.Policy.Tree.{
  HuJson, Content, object, Name, Members, no_members, join_members, new_line, top_level_indent,
  map_entry_indent, new_map_trailing_comma, new_map_member, new_name, map_member_index,
}
use hydrascale.Policy.Document.{
  no_section, key_held, no_key, bad_list, Edited, on_root, on_object, change_section, or_new,
  set_member, remove_member,
}

module _ (hu : HuJson) where
  -- The object behind a section, with what the caller does with it. The section is created empty
  -- where there is none and `create` is true.
  unfoldable pub in_object :
      Bool
      → Text
      → Text
      → Text
      → Bool
      → (Name → Members → Edited Members)
      → Members
      → Edited Members
  in_object create section shown indent comma edit members =
      or_new
        (if create
          then (let done = edit (new_name hu section indent) no_members in
              (
                join_members members
                    (new_map_member hu section (object done.0 (new_line indent)) indent comma),
                done.1,
              ))
          else (members, some (no_section shown)))
        (change_section hu section (on_object shown edit) members)

  -- `autoApproversObject`
  unfoldable pub auto_approvers_object :
      Bool → (Name → Members → Edited Members) → Content → Edited Content
  unfolding in_object
  auto_approvers_object create edit = on_root λ members.
      in_object create (txt "autoApprovers") (txt "autoApprovers") (top_level_indent members) true
        edit members

  -- `autoApproverRoutesObject`
  unfoldable pub auto_approver_routes_object :
      Bool → (Name → Members → Edited Members) → Content → Edited Content
  unfolding auto_approvers_object in_object
  auto_approver_routes_object create edit = auto_approvers_object create λ name approvers.
      in_object create (txt "routes") (txt "autoApprovers.routes") (map_entry_indent name approvers)
        (new_map_trailing_comma approvers) edit approvers

  unfoldable pub add_route : Text → List Text → Name → Members → Edited Members
  add_route cidr approvers name routes =
      if is_some (map_member_index hu routes cidr)
      then (routes, some (key_held (txt "autoApprovers.routes") cidr))
      else elim (hu.list_value approvers) [
        | err failure ↦ (routes, some (bad_list failure))
        | ok value ↦ (
          join_members routes (
              new_map_member hu cidr value (map_entry_indent name routes)
                (new_map_trailing_comma routes)),
          none,
        )
      ]

  -- `AddAutoApproverRoute`
  unfoldable pub add_auto_approver_route : Text → List Text → Content → Edited Content
  unfolding auto_approver_routes_object add_route
  add_auto_approver_route cidr approvers =
      auto_approver_routes_object true (add_route cidr approvers)

  unfoldable pub replace_route : Text → List Text → Name → Members → Edited Members
  replace_route cidr approvers name routes = elim (map_member_index hu routes cidr) [
    | none ↦ (routes, some (no_key (txt "autoApprovers.routes") cidr))
    | some i ↦ elim (hu.list_value approvers) [
      | err failure ↦ (routes, some (bad_list failure))
      | ok value ↦ (set_member i value routes, none)
    ]
  ]

  -- `ReplaceAutoApproverRoute`
  unfoldable pub replace_auto_approver_route : Text → List Text → Content → Edited Content
  unfolding auto_approver_routes_object replace_route
  replace_auto_approver_route cidr approvers =
      auto_approver_routes_object false (replace_route cidr approvers)

  unfoldable pub remove_route : Text → Name → Members → Edited Members
  remove_route cidr name routes = elim (map_member_index hu routes cidr) [
    | none ↦ (routes, some (no_key (txt "autoApprovers.routes") cidr))
    | some i ↦ (remove_member i routes, none)
  ]

  -- `RemoveAutoApproverRoute`
  unfoldable pub remove_auto_approver_route : Text → Content → Edited Content
  unfolding auto_approver_routes_object remove_route
  remove_auto_approver_route cidr = auto_approver_routes_object false (remove_route cidr)

  -- The first member exitNode takes the value, or a new one does.
  unfoldable pub set_exit_node : List Text → Name → Members → Edited Members
  set_exit_node approvers name members = elim (hu.list_value approvers) [
    | err failure ↦ (members, some (bad_list failure))
    | ok value ↦
        let fresh =
          new_map_member hu (txt "exitNode") value (map_entry_indent name members)
            (new_map_trailing_comma members) in
        or_new (join_members members fresh, none)
          (change_section hu (txt "exitNode") (λ n c. (value, none)) members)
  ]

  -- `SetAutoApproverExitNode`
  unfoldable pub set_auto_approver_exit_node : List Text → Content → Edited Content
  unfolding auto_approvers_object set_exit_node
  set_auto_approver_exit_node approvers = auto_approvers_object true (set_exit_node approvers)
