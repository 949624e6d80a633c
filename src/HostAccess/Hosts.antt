-- ===== src/HostAccess/Hosts.antt =====
-- internal/hostaccess/hosts.go: the managed block of the hosts file.
pub mod Block
use hydrascale.Common.{
  ℕ, ◌+◌, ◌-◌, Bool, true, false, not, ◌&&◌, Option, none, some, List, [], ◌∷◌, ◌++◌, Text, txt,
  text_eq, ◌==◌, eqb, ltb, if◌then◌else◌, length, mem, keep, Map, keys, lookup, index_of,
  has_suffix, take, drop, Result, ok, err,
}
use hydrascale.Access.Compile.{sort_texts}
use hydrascale.HostAccess.Records.{Records}

abbrev pub begin_marker : Text
begin_marker = txt "# BEGIN HYDRASCALE MANAGED BLOCK - DO NOT EDIT"

abbrev pub end_marker : Text
end_marker = txt "# END HYDRASCALE MANAGED BLOCK"

-- The names of the two families, each one once and sorted.
unfoldable pub record_names : Records → List Text
record_names r = sort_texts (keys r.v4 ++ keep (λ name. not (mem name (keys r.v4))) (keys r.v6))

abbrev host_line : Text → Option Text → Text
host_line name none = []
host_line name (some ip) = ip ++ (txt "  " ++ (name ++ 10 ∷ []))

-- The lines of the records.
unfoldable pub host_lines : Records → List Text → Text
host_lines r [] = []
host_lines r (name ∷ names) =
    host_line name (lookup name r.v4) ++ (host_line name (lookup name r.v6) ++ host_lines r names)

-- `buildManagedBlock`
unfoldable pub build_managed_block : Records → Text
unfolding record_names host_lines
build_managed_block r =
    begin_marker ++ (10 ∷ (host_lines r (record_names r) ++ (end_marker ++ 10 ∷ [])))

abbrev is_empty : Text → Bool
is_empty [] = true
is_empty (c ∷ s) = false

abbrev no_entries : Map Text Text → Bool
no_entries [] = true
no_entries (e ∷ m) = false

unfoldable pub new_block : Records → Text
new_block r = if no_entries r.v4 && no_entries r.v6 then [] else build_managed_block r

-- Where the block ends: with its line feed, where it has one.
block_end : Text → ℕ → ℕ
block_end content at =
    let past = at + length end_marker in
    elim (drop past content) [ [] ↦ past | c ∷ s ↦ if eqb c 10 then past + 1 else past ]

-- The replacement of the block between two positions; none where nothing changes.
replace_block : Text → Text → ℕ → ℕ → Option Text
unfolding block_end
replace_block content block begin at =
    let past = block_end content at in
    if block == take (past - begin) (drop begin content)
    then none
    else some (take begin content ++ (block ++ drop past content))

-- The block at the end of a file that holds none.
append_block : Text → Text → Option Text
append_block content [] = none
append_block content (c ∷ s) =
    if not (is_empty content) && not (has_suffix content (10 ∷ []))
    then some (content ++ (10 ∷ c ∷ s))
    else some (content ++ (c ∷ s))

-- The text that UpdateHostsFile writes; none where it writes nothing.
unfoldable pub update_content : Text → Records → Option Text
unfolding replace_block append_block
update_content content r =
    let block = new_block r in
    elim (index_of content begin_marker) [
      | none ↦ append_block content block
      | some begin ↦ elim (index_of content end_marker) [
        | none ↦ append_block content block
        | some at ↦
            if ltb begin at
            then replace_block content block begin at
            else append_block content block
      ]
    ]

-- The files of the host: what a read answers, and the steps of the atomic write.
pub data HostsRead : Type 0 where
  no_file : HostsRead
  unreadable : Text → HostsRead
  hosts_text : Text → HostsRead

pub record HostsFiles (W : Type 0) : Type 0 where
  pub read : Text → W → HostsRead
  pub mode_of : Text → W → Option ℕ
  pub create_temp : Text → W → W × Result Text Text
  pub write_string : Text → Text → W → W × Option Text
  pub close_file : Text → W → W × Option Text
  pub chmod : Text → ℕ → W → W × Option Text
  pub rename : Text → Text → W → W × Option Text
  pub remove : Text → W → W

module _ {W : Type 0} (fs : HostsFiles W) where
  -- A step of the write: a failure removes the temporary file.
  and_then : Text → Text → W × Option Text → (W → W × Option Text) → W × Option Text
  and_then label tmp (w, none) rest = rest w
  and_then label tmp (w, some e) rest = (fs.remove tmp w, some (label ++ txt ": " ++ e))

  -- The same for the write itself, which closes the file first.
  after_write : Text → W × Option Text → (W → W × Option Text) → W × Option Text
  after_write tmp (w, none) rest = rest w
  after_write tmp (w, some e) rest =
      (fs.remove tmp (fs.close_file tmp w).0, some (txt "failed to write temp file: " ++ e))

  write_temp : Text → Text → ℕ → Text → W → W × Option Text
  unfolding and_then after_write
  write_temp path text mode tmp w = after_write tmp (fs.write_string tmp text w) (λ w1.
      and_then (txt "failed to close temp file") tmp (fs.close_file tmp w1) (λ w2.
        and_then (txt "failed to chmod temp file") tmp (fs.chmod tmp mode w2) (λ w3.
          and_then (txt "failed to rename temp file") tmp (fs.rename tmp path w3)
            (λ w4. (w4, none)))))

  write_atomic : Text → Text → ℕ → W → W × Option Text
  unfolding write_temp
  write_atomic path text mode w =
      let (next, answer) = fs.create_temp path w in
      elim answer [
        | err e ↦ (next, some (txt "failed to create temp file: " ++ e))
        | ok tmp ↦ write_temp path text mode tmp next
      ]

  update_text : Text → Text → Records → W → W × Option Text
  unfolding write_atomic
  update_text path content r w = elim (update_content content r) [
    | none ↦ (w, none)
    | some text ↦
        let mode : ℕ = elim (fs.mode_of path w) [ none ↦ 420 | some m ↦ m ] in
        write_atomic path text mode w
  ]

  -- `UpdateHostsFile`
  unfoldable pub update_hosts_file : Text → Records → W → W × Option Text
  unfolding update_text
  update_hosts_file path r w = elim (fs.read path w) [
    | unreadable e ↦ (w, some (txt "failed to read hosts file: " ++ e))
    | no_file ↦ update_text path [] r w
    | hosts_text content ↦ update_text path content r w
  ]
