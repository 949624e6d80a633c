-- ===== src/Common/Strings.antt =====
-- The functions of the Go package strings that the parsers call, on ASCII texts.
use Prim.Native.Nat.{ℕ}
use mathlib.Core.Path.{◌≡◌, refl}
use mathlib.Core.Bool.{Bool, true, false, ◌&&◌, ◌||◌}
use mathlib.Core.List.{List, [], ◌∷◌, ◌++◌}
use hydrascale.Common.Tests.{◌==◌, leb, eqb, if◌then◌else◌}
use hydrascale.Common.Codes.{Text, txt, text_eq, same_text}

abbrev is_space : ℕ → Bool
is_space c = eqb c 32 || (leb 9 c && leb c 13)

abbrev word_first : ℕ → List Text → List Text
word_first c [] = (c ∷ []) ∷ []
word_first c (w ∷ ws) = (c ∷ w) ∷ ws

-- The words of a text; `inside` tells whether the text before it ends in a word, whose rest then is
-- the first element.
words : Bool → Text → List Text
words true [] = [] ∷ []
words false [] = []
words inside (c ∷ s) =
    let ended = words false s in
    let going = words true s in
    if is_space c then (if inside then [] ∷ ended else ended) else word_first c going

-- strings.Fields
unfoldable pub fields : Text → List Text
unfolding words
fields s = words false s

-- strings.Split(s, "\\n")
unfoldable pub split_lines : Text → List Text
split_lines [] = [] ∷ []
split_lines (c ∷ s) = let rest = split_lines s in if eqb c 10 then [] ∷ rest else word_first c rest

trim_front : Text → Text
trim_front [] = []
trim_front (c ∷ s) = let rest = trim_front s in if is_space c then rest else c ∷ s

trim_back : Text → Text
trim_back [] = []
trim_back (c ∷ s) = let rest = trim_back s in if rest == [] && is_space c then [] else c ∷ rest

-- strings.TrimSpace
unfoldable pub trim_space : Text → Text
unfolding trim_front trim_back
trim_space s = trim_back (trim_front s)

-- strings.HasPrefix(s, prefix)
unfoldable pub has_prefix : Text → Text → Bool
has_prefix s [] = true
has_prefix [] (p ∷ prefix) = false
has_prefix (c ∷ s) (p ∷ prefix) = eqb c p && has_prefix s prefix

-- strings.Contains(s, part)
unfoldable pub contains : Text → Text → Bool
unfolding has_prefix
contains [] part = part == []
contains (c ∷ s) part = has_prefix (c ∷ s) part || contains s part

-- strings.Join(texts, separator)
unfoldable pub join : List Text → Text → Text
join [] separator = []
join (t ∷ []) separator = t
join (t ∷ u ∷ ts) separator = t ++ separator ++ join (u ∷ ts) separator

strings_tests :
    (fields (txt " a  bc\td ") ≡ txt "a" ∷ txt "bc" ∷ txt "d" ∷ [])
    × (split_lines (txt "a\n\nb") ≡ txt "a" ∷ [] ∷ txt "b" ∷ [])
    × (trim_space (txt "\n a b \t") ≡ txt "a b")
    × (contains (txt "a dev vh1 x") (txt "dev vh1") ≡ true)
    × (contains (txt "a dev vh") (txt "dev vh1") ≡ false)
unfolding fields split_lines trim_space contains same_text
strings_tests = (refl, refl, refl, refl, refl)
