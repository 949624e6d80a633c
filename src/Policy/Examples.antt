-- ===== src/Policy/Examples.antt =====
-- A small policy document, its edits, and the theorems on it.
use hydrascale.Policy.Change.Undone.{array_at}
use hydrascale.Policy.Document.{replace_entry}
use hydrascale.Common.{cut_last}
use hydrascale.Common.{take}
use hydrascale.Policy.Sections.{rename_map_entry}
use hydrascale.Policy.Tree.{count}
use hydrascale.Policy.Document.{position}
use hydrascale.Common.{same_text}
use hydrascale.Policy.Document.{change_section}
use hydrascale.Policy.Tree.{member_name}
use hydrascale.Common.{
  true, none, some, List, [], ◌∷◌, Text, txt, ◌≡◌, refl, Result, ok, err, eqb, if◌then◌else◌, nodup,
  map, text_eq,
}
use hydrascale.Config.{pos, negsuc}
use hydrascale.Policy.Tree.{
  HuJson, Value, Content, object, array, literal, Name, Members, no_members, member, Elements,
  no_elements, element,
}
use hydrascale.Policy.Document.{no_section, out_of_range, add_entry, remove_entry}
use hydrascale.Policy.Reading.{parse, line_column}
use hydrascale.Policy.Change.{
  Change, add, remove, replace, add_map, rename_map, set_exit, apply_change, apply_changes, names,
  section_of, without,
}
use hydrascale.Policy.Change.Kept.{apply_changes-kept}
use hydrascale.Policy.Change.Failed.{apply_change_failed}
use hydrascale.Policy.Change.Undone.{remove_entry-add_entry}
use hydrascale.Policy.Reading.Keys.{parse-apply_changes-nodup}

abbrev name_of : Text → Name
name_of key = record { before = txt "  "; start = 0; quoted = 34 ∷ key; after = none }

abbrev one_rule : Elements
one_rule = element (txt " ") (literal (txt "rule")) none no_elements

-- Two sections, a list and a map.
abbrev two_sections : Members
two_sections =
    member (name_of (txt "acls")) (txt " ") (array one_rule []) none
      (member (name_of (txt "groups")) (txt " ") (object no_members []) none no_members)

-- A parser that reads a text with a brace as that document, and each other text as a literal.
abbrev parse_small : Text → Result Text Value
parse_small [] = err (txt "no value")
parse_small (c ∷ text) =
    if eqb c 123
    then ok (record { before = []; content = object two_sections []; after = none })
    else ok (record { before = []; content = literal (c ∷ text); after = none })

abbrev without_mark : Text → Text
without_mark [] = []
without_mark (c ∷ text) = text

abbrev small : HuJson
small = record {
  parse = parse_small;
  list_value = λ l. ok (literal (txt "[]"));
  quote = λ s. 34 ∷ s;
  unquote = without_mark;
  unquote_quote = λ s. refl;
}

abbrev session : List Change
session =
    add (txt "ssh") (txt "new")
    ∷ add_map (txt "groups") (txt "g") (txt "m")
    ∷ remove (txt "acls") (pos 4)
    ∷ set_exit (txt "a" ∷ [])
    ∷ []

policy_tests :
    (names small two_sections ≡ txt "acls" ∷ txt "groups" ∷ [])
    × ((apply_change small (remove (txt "acls") (negsuc 0)) (object two_sections [])).1
        ≡ some (out_of_range (negsuc 0) (txt "acls") 1))
    × ((apply_change small
          (rename_map (txt "hosts") (txt "a") (txt "b"))
          (object two_sections [])).1
        ≡ some (no_section (txt "hosts")))
    × (line_column (txt "ab") 1 ≡ (1, 2))
unfolding names member_name apply_change remove_entry change_section same_text position count
    rename_map_entry line_column take cut_last
policy_tests = (refl, refl, refl, refl)

apply_changes-kept_example :
    (after : Members) × (apply_changes small session (object two_sections []) ≡ object after [])
    × (without small (map section_of session) after
        ≡ without small (map section_of session) two_sections)
apply_changes-kept_example = apply_changes-kept small session two_sections []

apply_change_failed_example : object two_sections [] ≡ object two_sections []
unfolding apply_change replace_entry change_section same_text member_name position count
apply_change_failed_example =
    apply_change_failed small (λ l. (literal (txt "[]"), refl))
      (replace (txt "acls") (pos 1) (txt "x")) (object two_sections []) (object two_sections [])
      (out_of_range (pos 1) (txt "acls") 1) refl

parse-apply_changes-nodup_example :
    (after : Members) × (apply_changes small session (object two_sections []) ≡ object after [])
    × (nodup (names small after) ≡ true)
unfolding parse same_text
parse-apply_changes-nodup_example =
    parse-apply_changes-nodup small (txt "{}")
      (record { before = []; content = object two_sections []; after = none }) two_sections []
      session refl refl

abbrev one_more_rule : Content
one_more_rule = (add_entry small (txt "acls") (txt "x") (object two_sections [])).0

remove_entry-add_entry_example :
    remove_entry small (txt "acls") (pos 1) one_more_rule ≡ (object two_sections [], none)
unfolding add_entry array_at same_text member_name change_section count
remove_entry-add_entry_example =
    remove_entry-add_entry small (txt "acls") (txt "x") two_sections [] one_rule one_more_rule refl
      refl
