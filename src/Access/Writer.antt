-- ===== src/Access/Writer.antt =====
-- internal/access/writer.go: the chains of the daemon on the host.
pub mod Commands
pub mod Positions
mod Examples
use hydrascale.Common.{
  ℕ, ◌+◌, Bool, true, false, not, ◌&&◌, ◌||◌, ◌≡◌, refl, Option, none, some, Answer, List, [], ◌∷◌,
  ◌++◌, Text, txt, text_eq, same_text, ◌==◌, eqb, is_some, if◌then◌else◌, any, length, fields,
  split_lines, has_prefix, contains, join, Result, ok, err, Map, lookup, or_default, put,
}
use hydrascale.Access.Compile.{Args, Compiled, chain_forward, chain_out, any_device}

-- The command runner on a host `W`, and the hexadecimal text of a SHA-256 digest.
pub record Host (W : Type 0) : Type 0 where
  pub run : List Text → W → W × Answer
  pub run_input : Text → List Text → W → W × Answer
  pub sha256_hex : Text → Text

pub record Jump : Type 0 where
  pub parent : Text
  pub chain : Text

abbrev pub forward_jump : Jump
forward_jump = record { parent = txt "FORWARD"; chain = chain_forward }

abbrev pub input_jump : Jump
input_jump = record { parent = txt "INPUT"; chain = chain_out }

pub record Placement : Type 0 where
  pub parent : Text
  pub position : ℕ
  pub above : List Text

abbrev pub marker_prefix : Text
marker_prefix = txt "hydrascale:"

-- `targetOf`: the word after the last -j or -g, and none where there is no such word.
last_target : Text → List Text → Text
last_target found [] = found
last_target found (f ∷ []) = found
last_target found (f ∷ g ∷ fs) =
    last_target (if f == txt "-j" || f == txt "-g" then g else found) (g ∷ fs)

unfoldable pub target_of : List Text → Text
unfolding last_target
target_of words = last_target (txt "none") words

-- Whether the words are a rule of the parent chain.
abbrev is_rule : Jump → List Text → Bool
is_rule j [] = false
is_rule j (a ∷ []) = false
is_rule j (a ∷ b ∷ more) = a == txt "-A" && b == j.parent

-- Whether the words are the jump rule of the daemon.
abbrev is_jump : Jump → List Text → Bool
is_jump j (a ∷ b ∷ c ∷ d ∷ []) = c == txt "-j" && d == j.chain
is_jump j words = false

-- The loop of `placementOf`.
place : Jump → ℕ → List Text → List Text → Placement
unfolding target_of
place j position above [] = record { parent = j.parent; position = 0; above = [] }
place j position above (line ∷ lines) =
    let words = fields line in
    let skipped = place j position above lines in
    let passed = place j (position + 1) (above ++ target_of words ∷ []) lines in
    if not (is_rule j words)
    then skipped
    else if is_jump j words
    then record { parent = j.parent; position = position + 1; above = above }
    else passed

-- `placementOf`
unfoldable pub placement_of : Text → Jump → Placement
unfolding place
placement_of output j = place j 0 [] (split_lines output)

-- strings.Trim(field, "\\"")
trim_quote : Text → Text
trim_quote [] = []
trim_quote (c ∷ s) = let rest = trim_quote s in if eqb c 34 then rest else c ∷ s

trim_quote_end : Text → Text
trim_quote_end [] = []
trim_quote_end (c ∷ s) =
    let rest = trim_quote_end s in if rest == [] && eqb c 34 then [] else c ∷ rest

-- strings.CutPrefix
cut_prefix : Text → Text → Option Text
cut_prefix [] s = some s
cut_prefix (p ∷ prefix) [] = none
cut_prefix (p ∷ prefix) (c ∷ s) = let rest = cut_prefix prefix s in if eqb p c then rest else none

marker_field : List Text → Option Text
unfolding cut_prefix trim_quote trim_quote_end
marker_field [] = none
marker_field (f ∷ fs) =
    let rest = marker_field fs in
    elim (cut_prefix marker_prefix (trim_quote_end (trim_quote f))) [
      | some mark ↦ some mark
      | none ↦ rest
    ]

marker_line : List Text → Text
unfolding marker_field
marker_line [] = []
marker_line (line ∷ lines) =
    let rest = marker_line lines in
    elim (marker_field (fields line)) [ some mark ↦ mark | none ↦ rest ]

-- `markerOf`
unfoldable pub marker_of : Text → Text
unfolding marker_line
marker_of output = marker_line (split_lines output)

-- `absent`
unfoldable pub absent : Text → Bool
absent output =
    contains output (txt "does a matching rule exist")
    || contains output (txt "No chain/target/match by that name")
    || contains output (txt "does not exist")
    || contains output (txt "is incompatible, use 'nft' tool")

rule_bytes : Args → Text
rule_bytes [] = 10 ∷ []
rule_bytes (arg ∷ args) = arg ++ 0 ∷ rule_bytes args

rules_bytes : List Args → Text
unfolding rule_bytes
rules_bytes [] = []
rules_bytes (r ∷ rules) = rule_bytes r ++ rules_bytes rules

take_16 : ℕ → Text → Text
take_16 n [] = []
take_16 n (c ∷ s) = let rest = take_16 (n + 1) s in if eqb n 16 then [] else c ∷ rest

-- `fingerprint`
unfoldable pub fingerprint : (Text → Text) → Compiled → Text
unfolding rules_bytes take_16
fingerprint sha256_hex c =
    take_16 0 (sha256_hex (rules_bytes c.forward ++ (rules_bytes c.out ++ rules_bytes c.guard)))

abbrev needs_quotes : Text → Bool
needs_quotes arg = any (λ b. eqb b 32 || eqb b 9 || eqb b 34) arg

escape : Text → Text
escape [] = []
escape (c ∷ s) = let rest = escape s in if eqb c 34 then 92 ∷ 34 ∷ rest else c ∷ rest

quote_all : Args → Args
unfolding escape
quote_all [] = []
quote_all (arg ∷ args) =
    (if needs_quotes arg then 34 ∷ (escape arg ++ 34 ∷ []) else arg) ∷ quote_all args

-- `ruleLine`
unfoldable pub rule_line : Args → Text
unfolding quote_all
rule_line args = join (quote_all args) (txt " ")

rule_lines : List Args → Text
unfolding rule_line
rule_lines [] = []
rule_lines (r ∷ rules) = rule_line r ++ txt "\n" ++ rule_lines rules

-- `restoreFile`
unfoldable pub restore_file : Compiled → Text → Text
unfolding rule_lines
restore_file c mark =
    let marker = λ (chain : Text).
      txt "-A " ++ chain ++ txt " -m comment --comment " ++ marker_prefix ++ mark ++ txt "\n" in
    txt "*filter\n"
    ++ txt ":"
    ++ chain_forward
    ++ txt " - [0:0]\n"
    ++ txt ":"
    ++ chain_out
    ++ txt " - [0:0]\n"
    ++ txt "-F "
    ++ chain_forward
    ++ txt "\n"
    ++ txt "-F "
    ++ chain_out
    ++ txt "\n"
    ++ marker chain_forward
    ++ marker chain_out
    ++ rule_lines c.guard
    ++ txt "-A "
    ++ chain_forward
    ++ txt " ! -i "
    ++ any_device
    ++ txt " ! -o "
    ++ any_device
    ++ txt " -j RETURN\n"
    ++ rule_lines c.forward
    ++ rule_lines c.out
    ++ txt "COMMIT\n"
