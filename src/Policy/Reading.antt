-- ===== src/Policy/Reading.antt =====
-- internal/policy/document.go: the parser's check of the keys, and the typed readers.
pub mod Keys
use hydrascale.Common.{
  ℕ, suc, ◌+◌, ◌-◌, Bool, Option, none, some, List, [], ◌∷◌, Map, lookup, put, Text, txt, text_eq,
  ◌==◌, eqb, mem, if◌then◌else◌, length, Result, ok, err, take, cut_last,
}
use hydrascale.Policy.Tree.{
  HuJson, Value, Content, object, array, literal, Members, no_members, member, Name, member_name,
}

-- bytes.Count(text, "\n")
unfoldable pub line_feeds : Text → ℕ
line_feeds [] = 0
line_feeds (c ∷ text) = let rest = line_feeds text in if eqb c 10 then suc rest else rest

-- 1 + LastIndexByte(text, '\n'), which is 0 where there is no line feed.
unfoldable pub after_last_feed : Text → ℕ
after_last_feed text = elim (cut_last 10 text) [
  | some (before, after) ↦ suc (length before)
  | none ↦ 0
]

-- `lineColumn`
unfoldable pub line_column : Text → ℕ → ℕ × ℕ
unfolding line_feeds after_last_feed
line_column text n =
    let before = take n text in (1 + line_feeds before, 1 + n - after_last_feed before)

-- The errors of `Parse`.
pub data ParseError : Type 0 where
  bad_text : Text → ParseError
  -- the line, the column and the key
  duplicate_key : ℕ → ℕ → Text → ParseError

-- The errors of the readers: of the whole section, or of one entry.
pub data ReadError : Type 0 where
  bad_document : Text → ReadError
  bad_section : Text → Text → ReadError
  bad_entry_at : Text → ℕ → Text → ReadError
  bad_entry_key : Text → Text → Text → ReadError

-- The decoding of JSON: a document's sections, and the entries of a list and of a map.
pub record Json : Type 1 where
  pub Raw : Type 0
  pub sections : Content → Result Text (Map Text Raw)
  pub entries : Raw → Result Text (List Raw)
  pub keyed : Raw → Result Text (Map Text Raw)

pub record AclRule : Type 0 where
  pub action : Text
  pub src : List Text
  pub proto : Text
  pub dst : List Text
  pub src_posture : List Text

pub record SshRule : Type 0 where
  pub action : Text
  pub src : List Text
  pub dst : List Text
  pub users : List Text
  pub check_period : Text
  pub accept_env : List Text
  pub src_posture : List Text

pub record AutoApprovers : Type 0 where
  pub routes : Map Text (List Text)
  pub exit_node : List Text

module _ (hu : HuJson) where
  -- The loop of `rejectDuplicateTopLevelKeys`, with the names seen so far.
  unfoldable pub reject_names : Text → List Text → Members → Result ParseError (Unit {0})
  unfolding line_column member_name
  reject_names text seen no_members = ok tt
  reject_names text seen (member name before content after rest) =
      let later = reject_names text (member_name hu name ∷ seen) rest in
      if mem (member_name hu name) seen
      then (let at = line_column text name.start in
          err (duplicate_key at.0 at.1 (member_name hu name)))
      else later

  -- `rejectDuplicateTopLevelKeys`
  unfoldable pub reject_duplicate_top_level_keys : Text → Content → Result ParseError (Unit {0})
  unfolding reject_names
  reject_duplicate_top_level_keys text (object members extra) = reject_names text [] members
  reject_duplicate_top_level_keys text (array items extra) = ok tt
  reject_duplicate_top_level_keys text (literal bytes) = ok tt

  -- `Parse`
  unfoldable pub parse : Text → Result ParseError Value
  unfolding reject_duplicate_top_level_keys
  parse text = elim (hu.parse text) [
    | err failure ↦ err (bad_text failure)
    | ok root ↦ elim (reject_duplicate_top_level_keys text root.content) [
      | err failure ↦ err failure
      | ok _ ↦ ok root
    ]
  ]

module _ (json : Json) where
  -- `sectionRaw`, through `RawSections`
  unfoldable pub section_raw : Content → Text → Result ReadError (Option json.Raw)
  section_raw root name = elim (json.sections root) [
    | err failure ↦ err (bad_document failure)
    | ok sections ↦ ok (lookup name sections)
  ]

  module _ {T : Type 0} (decode : json.Raw → Result Text T) where
    -- The loop of `readList` from an index.
    unfoldable pub read_entries : Text → ℕ → List json.Raw → Result ReadError (List T)
    read_entries name i [] = ok []
    read_entries name i (raw ∷ more) =
        let later = read_entries name (suc i) more in
        elim (decode raw) [
          | err failure ↦ err (bad_entry_at name i failure)
          | ok entry ↦ elim later [ err failure ↦ err failure | ok entries ↦ ok (entry ∷ entries) ]
        ]

    -- `readList`
    unfoldable pub read_list : Content → Text → Result ReadError (List T)
    unfolding section_raw read_entries
    read_list root name = elim (section_raw root name) [
      | err failure ↦ err failure
      | ok none ↦ ok []
      | ok (some raw) ↦ elim (json.entries raw) [
        | err failure ↦ err (bad_section name failure)
        | ok entries ↦ read_entries name 0 entries
      ]
    ]

    -- The loop of `readMap`, in the order in which the range of the map comes.
    unfoldable pub read_keys : Text → Map Text json.Raw → Result ReadError (Map Text T)
    read_keys name [] = ok []
    read_keys name ((key, raw) ∷ more) =
        let later = read_keys name more in
        elim (decode raw) [
          | err failure ↦ err (bad_entry_key name key failure)
          | ok entry ↦ elim later [
            | err failure ↦ err failure
            | ok entries ↦ ok ((key, entry) ∷ entries)
          ]
        ]

    -- `readMap`
    unfoldable pub read_map : Content → Text → Result ReadError (Map Text T)
    unfolding section_raw read_keys
    read_map root name = elim (section_raw root name) [
      | err failure ↦ err failure
      | ok none ↦ ok []
      | ok (some raw) ↦ elim (json.keyed raw) [
        | err failure ↦ err (bad_section name failure)
        | ok entries ↦ read_keys name entries
      ]
    ]

  -- `Groups`
  unfoldable pub groups :
      (json.Raw → Result Text (List Text)) → Content → Result ReadError (Map Text (List Text))
  unfolding read_map
  groups decode root = read_map decode root (txt "groups")

  -- `ACLs`
  unfoldable pub acls : (json.Raw → Result Text AclRule) → Content → Result ReadError (List AclRule)
  unfolding read_list
  acls decode root = read_list decode root (txt "acls")

  -- `SSH`
  unfoldable pub ssh : (json.Raw → Result Text SshRule) → Content → Result ReadError (List SshRule)
  unfolding read_list
  ssh decode root = read_list decode root (txt "ssh")

  -- `AutoApprovers`
  unfoldable pub auto_approvers :
      (json.Raw → Result Text AutoApprovers) → Content → Result ReadError AutoApprovers
  unfolding section_raw
  auto_approvers decode root = elim (section_raw root (txt "autoApprovers")) [
    | err failure ↦ err failure
    | ok none ↦ ok (record { routes = []; exit_node = [] })
    | ok (some raw) ↦ elim (decode raw) [
      | err failure ↦ err (bad_section (txt "autoApprovers") failure)
      | ok approvers ↦ ok approvers
    ]
  ]
