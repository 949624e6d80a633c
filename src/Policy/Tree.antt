-- ===== src/Policy/Tree.antt =====
-- internal/policy/document.go: the tree of the parser hujson as far as the edits use it, the
-- indentation and the commas of new entries, and the entries that an edit inserts.
use hydrascale.Common.{
  ℕ, suc, Bool, true, Option, none, some, List, [], ◌∷◌, ◌++◌, Text, txt, text_eq, ◌==◌,
  if◌then◌else◌, is_some, Result, ◌≡◌, cut_last,
}

-- The name of a member: hujson.Value around a literal that keeps its quotes. `start` is the
-- StartOffset; of an AfterExtra the model keeps whether it is nil.
pub record Name : Type 0 where
  pub before : Text
  pub start : ℕ
  pub quoted : Text
  pub after : Option Text

-- hujson.ValueTrimmed, with the fields of hujson.Value written out at each entry.
mutual
  pub data Content : Type 0 where
    literal : Text → Content
    array : Elements → Text → Content
    object : Members → Text → Content

  pub data Elements : Type 0 where
    no_elements : Elements
    element : Text → Content → Option Text → Elements → Elements

  pub data Members : Type 0 where
    no_members : Members
    member : Name → Text → Content → Option Text → Members → Members

-- hujson.Value at the root.
pub record Value : Type 0 where
  pub before : Text
  pub content : Content
  pub after : Option Text

-- What the edits use of hujson: `Parse`, `String` and `Literal.String`, and the parser on the
-- JSON of a list of texts. `String` quotes a text so that `Literal.String` gives it back.
pub record HuJson : Type 0 where
  pub parse : Text → Result Text Value
  pub list_value : List Text → Result Text Content
  pub quote : Text → Text
  pub unquote : Text → Text
  pub unquote_quote : (s : Text) → unquote (quote s) ≡ s

unfoldable pub join_elements : Elements → Elements → Elements
join_elements no_elements more = more
join_elements (element before content after rest) more =
    element before content after (join_elements rest more)

unfoldable pub join_members : Members → Members → Members
join_members no_members more = more
join_members (member name before content after rest) more =
    member name before content after (join_members rest more)

-- len(arr.Elements)
unfoldable pub count : Elements → ℕ
count no_elements = 0
count (element before content after rest) = suc (count rest)

-- `trailingIndent`
unfoldable pub trailing_indent : Text → Option Text
trailing_indent extra = elim (cut_last 10 extra) [ some (before, after) ↦ some after | none ↦ none ]

abbrev pub or_text : Option Text → Text → Text
or_text none other = other
or_text (some s) other = s

-- The indentation of the last entry that has one.
abbrev pub last_indent : Members → Option Text
unfolding trailing_indent
last_indent no_members = none
last_indent (member name before content after rest) = elim (last_indent rest) [
  | some indent ↦ some indent
  | none ↦ trailing_indent name.before
]

-- `topLevelIndent`
unfoldable pub top_level_indent : Members → Text
top_level_indent members = or_text (last_indent members) (txt "  ")

abbrev pub one_level_below : Name → Text
one_level_below name = or_text (trailing_indent name.before) [] ++ txt "  "

-- The indentation of the last element.
abbrev pub element_indent : Elements → Option Text
element_indent no_elements = none
element_indent (element before content after no_elements) = trailing_indent before
element_indent (element before content after (element b c a rest)) =
    element_indent (element b c a rest)

-- `arrayEntryIndent`
unfoldable pub array_entry_indent : Name → Elements → Text
array_entry_indent name elements = or_text (element_indent elements) (one_level_below name)

-- The indentation of the last member.
abbrev pub member_indent : Members → Option Text
member_indent no_members = none
member_indent (member name before content after no_members) = trailing_indent name.before
member_indent (member name before content after (member n b c a rest)) =
    member_indent (member n b c a rest)

-- `mapEntryIndent`
unfoldable pub map_entry_indent : Name → Members → Text
map_entry_indent name members = or_text (member_indent members) (one_level_below name)

-- `newTrailingComma`
unfoldable pub new_trailing_comma : Elements → Bool
new_trailing_comma no_elements = true
new_trailing_comma (element before content after no_elements) = is_some after
new_trailing_comma (element before content after (element b c a rest)) =
    new_trailing_comma (element b c a rest)

-- `newMapTrailingComma`
unfoldable pub new_map_trailing_comma : Members → Bool
new_map_trailing_comma no_members = true
new_map_trailing_comma (member name before content after no_members) = is_some after
new_map_trailing_comma (member name before content after (member n b c a rest)) =
    new_map_trailing_comma (member n b c a rest)

abbrev pub comma_extra : Bool → Option Text
comma_extra comma = if comma then some [] else none

abbrev pub new_line : Text → Text
new_line indent = 10 ∷ indent

-- `newArrayElement`, as a list of one element
unfoldable pub new_array_element : Content → Text → Bool → Elements
new_array_element value indent comma =
    element (new_line indent) value (comma_extra comma) no_elements

module _ (hu : HuJson) where
  -- The name of a member that an edit inserts.
  abbrev pub new_name : Text → Text → Name
  new_name key indent = record {
    before = new_line indent;
    start = 0;
    quoted = hu.quote key;
    after = none;
  }

  -- `newMapMember`, as a list of one member
  unfoldable pub new_map_member : Text → Content → Text → Bool → Members
  new_map_member key value indent comma =
      member (new_name key indent) (txt " ") value (comma_extra comma) no_members

  -- `newSectionMember`, as a list of one member
  unfoldable pub new_section_member : Text → Content → Text → Members
  unfolding new_array_element
  new_section_member section value indent =
      member (new_name section indent) (txt " ")
        (array (new_array_element value (indent ++ txt "  ") true) (new_line indent)) (some [])
        no_members

  -- `newMapSectionMember`, as a list of one member
  unfoldable pub new_map_section_member : Text → Text → Content → Text → Members
  unfolding new_map_member
  new_map_section_member section key value indent =
      member (new_name section indent) (txt " ")
        (object (new_map_member key value (indent ++ txt "  ") true) (new_line indent)) (some [])
        no_members

  -- `memberName`
  unfoldable pub member_name : Name → Text
  member_name name = hu.unquote name.quoted

  -- `mapMemberIndex`; none stands for -1.
  unfoldable pub map_member_index : Members → Text → Option ℕ
  map_member_index no_members key = none
  map_member_index (member name before content after rest) key =
      if member_name name == key
      then some 0
      else elim (map_member_index rest key) [ some i ↦ some (suc i) | none ↦ none ]
