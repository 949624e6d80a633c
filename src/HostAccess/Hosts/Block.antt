-- ===== src/HostAccess/Hosts/Block.antt =====
-- The text around the managed block of the hosts file.
use hydrascale.Common.{
  ℕ, ◌+◌, ◌-◌, Bool, true, false, not, ◌||◌, ◌≡◌, refl, sym, ap, ◌∙◌, none, some, [], ◌∷◌, ◌++◌,
  append_assoc, Text, txt, text_eq, same_text, ◌==◌, eqb, eqb_iff, ltb, if◌then◌else◌, length,
  length-append, all, has_prefix, contains, index_of, take, drop, arith,
}
use hydrascale.HostAccess.Records.{Records}
use hydrascale.HostAccess.Hosts.{
  begin_marker, end_marker, host_lines, record_names, build_managed_block, new_block, block_end,
  replace_block, update_content,
}

-- No character is a number sign, with which each marker begins.
abbrev pub no_hash : Text → Bool
no_hash s = all (λ c. not (eqb c 35)) s

has_prefix-append : (m rest : Text) → has_prefix (m ++ rest) m ≡ true
unfolding has_prefix
has_prefix-append [] rest = ground arith
has_prefix-append (p ∷ m) rest = ground (arith, has_prefix-append m rest, eqb_iff p p)

-- A marker that begins at the number sign does not begin before it.
has_prefix-hash :
    (before after m : Text)
    → no_hash m ≡ true
    → has_prefix (before ++ 35 ∷ after) m ≡ has_prefix before m
unfolding has_prefix
has_prefix-hash [] after [] h = refl
has_prefix-hash [] after (p ∷ m) h = ground (arith, h, eqb_iff 35 p, eqb_iff p 35)
has_prefix-hash (c ∷ before) after [] h = refl
has_prefix-hash (c ∷ before) after (p ∷ m) h = ground (arith, has_prefix-hash before after m, h)

index_of-append :
    (before m after : Text)
    → no_hash m ≡ true
    → contains before (35 ∷ m) ≡ false
    → index_of (before ++ 35 ∷ (m ++ after)) (35 ∷ m) ≡ some (length before)
unfolding index_of contains has_prefix
index_of-append [] m after h absent = ground (arith, has_prefix-append m after)
index_of-append (c ∷ before) m after h absent =
    let rest = index_of-append before m after h (ground (arith, absent)) in
    ground (arith, absent, rest, has_prefix-hash before (m ++ after) m h)

contains-hash :
    (before m after : Text)
    → no_hash m ≡ true
    → contains (before ++ 35 ∷ after) (35 ∷ m)
      ≡ (contains before (35 ∷ m) || contains (35 ∷ after) (35 ∷ m))
unfolding contains has_prefix same_text
contains-hash [] m after h = refl
contains-hash (c ∷ before) m after h =
    ground (arith, contains-hash before m after h, has_prefix-hash before after m h)

contains-no_hash : (s m : Text) → no_hash s ≡ true → contains s (35 ∷ m) ≡ false
unfolding contains has_prefix same_text
contains-no_hash [] m h = refl
contains-no_hash (c ∷ s) m h = ground (arith, h, contains-no_hash s m)

drop-append : (before after : Text) → drop (length before) (before ++ after) ≡ after
unfolding drop
drop-append [] after = refl
drop-append (c ∷ before) after = drop-append before after

take-append : (before after : Text) → take (length before) (before ++ after) ≡ before
unfolding take
take-append [] after = refl
take-append (c ∷ before) after = ap (λ (rest : Text). c ∷ rest) (take-append before after)

no_hash-append : (a b : Text) → no_hash a ≡ true → no_hash b ≡ true → no_hash (a ++ b) ≡ true
no_hash-append [] b h k = k
no_hash-append (c ∷ a) b h k = ground (arith, h, no_hash-append a b)

-- The markers without their number sign.
abbrev begin_rest : Text
begin_rest = txt " BEGIN HYDRASCALE MANAGED BLOCK - DO NOT EDIT"

abbrev end_rest : Text
end_rest = txt " END HYDRASCALE MANAGED BLOCK"

-- The block of a hosts file, up to its end marker.
abbrev block_head : Records → Text
block_head r = begin_marker ++ (10 ∷ host_lines r (record_names r))

-- A hosts file with a block between two texts.
abbrev pub around : Text → Records → Text → Text
around before r after = before ++ (build_managed_block r ++ after)

block_end_lem :
    (content : Text) (at past : ℕ) (after : Text)
    → at + length end_marker ≡ past
    → drop past content ≡ 10 ∷ after
    → block_end content at ≡ past + 1
unfolding block_end
block_end_lem content at past after sum rest =
    let here : drop (at + length end_marker) content ≡ 10 ∷ after = rw sum rest in
    rw (here, block_end) (omega (arith, sum))

module _ (before after : Text) (r : Records) (no_begin : contains before begin_marker ≡ false)
    (no_end : contains before end_marker ≡ false)
    (lines : no_hash (host_lines r (record_names r)) ≡ true) where
  begin_at : index_of (around before r after) begin_marker ≡ some (length before)
  unfolding build_managed_block
  begin_at =
      index_of-append before begin_rest
        ((10 ∷ (host_lines r (record_names r) ++ (end_marker ++ 10 ∷ []))) ++ after) refl no_begin

  head_free : contains (before ++ block_head r) end_marker ≡ false
  unfolding contains has_prefix
  head_free =
      let body = no_hash-append begin_rest (10 ∷ host_lines r (record_names r)) refl lines in
      contains-hash before end_rest (begin_rest ++ (10 ∷ host_lines r (record_names r))) refl
      ∙ ground (
        arith,
        no_end,
        contains-no_hash (begin_rest ++ (10 ∷ host_lines r (record_names r))) end_rest body,
      )

  regroup : around before r after ≡ (before ++ block_head r) ++ (end_marker ++ (10 ∷ after))
  unfolding build_managed_block
  regroup = simp append_assoc refl

  end_at : index_of (around before r after) end_marker ≡ some (length (before ++ block_head r))
  end_at =
      rw regroup (index_of-append (before ++ block_head r) end_rest (10 ∷ after) refl head_free)

  block_length : length (build_managed_block r) ≡ length (block_head r) + length end_marker + 1
  unfolding build_managed_block
  block_length =
      let parts : build_managed_block r ≡ (block_head r ++ end_marker) ++ (10 ∷ []) =
        simp append_assoc refl in
      ap (λ (x : Text). length x) parts
      ∙ omega (
        arith,
        length-append (block_head r ++ end_marker) (10 ∷ []),
        length-append (block_head r) end_marker,
      )

  block_end_at :
      block_end (around before r after) (length (before ++ block_head r))
      ≡ length before + length (build_managed_block r)
  block_end_at =
      let front = (before ++ block_head r) ++ end_marker in
      let parts : around before r after ≡ front ++ (10 ∷ after) =
        regroup ∙ simp append_assoc refl in
      let past : length (before ++ block_head r) + length end_marker ≡ length front =
        sym (length-append (before ++ block_head r) end_marker) in
      let rest : drop (length front) (around before r after) ≡ 10 ∷ after =
        rw parts (drop-append front (10 ∷ after)) in
      block_end_lem (around before r after) (length (before ++ block_head r)) (length front) after
        past rest
      ∙ omega (arith, block_length, past, length-append before (block_head r))

  replace_around :
      (block : Text) (at : ℕ)
      → block_end (around before r after) at ≡ length before + length (build_managed_block r)
      → replace_block (around before r after) block (length before) at
        ≡ (if block == build_managed_block r then none else some (before ++ (block ++ after)))
  unfolding replace_block
  replace_around block at past =
      let old = build_managed_block r in
      let front : drop (length before) (around before r after) ≡ old ++ after =
        drop-append before (old ++ after) in
      let size : length before + length old - length before ≡ length old = omega arith in
      let rest : drop (length before + length old) (around before r after) ≡ after =
        rw (← append_assoc before old after)
          (rw (← length-append before old) (drop-append (before ++ old) after)) in
      rw (past, front, size, take-append old after, take-append before (old ++ after), rest) refl

  -- In a hosts file with a managed block, UpdateHostsFile replaces that block and nothing else: it writes
  -- the same text before it and after it, and it writes nothing where the block does not change. The
  -- text before the block holds no marker, and the names and the addresses in it hold no number sign.
  pub update_content-around :
      (s : Records)
      → update_content (around before r after) s ≡ (
          if new_block s == build_managed_block r
          then none
          else some (before ++ (new_block s ++ after)))
  unfolding update_content
  update_content-around s =
      let later : ltb (length before) (length (before ++ block_head r)) ≡ true =
        ground (arith, length-append before (block_head r)) in
      rw (begin_at, update_content)
        (rw (end_at, later)
          (replace_around (new_block s) (length (before ++ block_head r)) block_end_at))
