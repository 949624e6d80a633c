-- ===== src/Common/Cuts.antt =====
-- The functions of the Go package strings that cut a text, and slices by a position.
use Prim.Native.Nat.{ℕ, zero, suc}
use mathlib.Core.Path.{◌≡◌, refl}
use mathlib.Core.Bool.{Bool, true, ◌||◌}
use mathlib.Core.Option.{Option, none, some}
use mathlib.Core.List.{List, [], ◌∷◌}
use hydrascale.Common.Tests.{◌==◌, eqb, if◌then◌else◌}
use hydrascale.Common.Lists.{length}
use hydrascale.Common.Codes.{Text, txt, text_eq, same_text}
use hydrascale.Common.Strings.{has_prefix}

-- xs[:n]
unfoldable pub take {ℓ} : {A : Type ℓ} → ℕ → List A → List A
take zero xs = []
take (suc n) [] = []
take (suc n) (x ∷ xs) = x ∷ take n xs

-- xs[n:]
unfoldable pub drop {ℓ} : {A : Type ℓ} → ℕ → List A → List A
drop zero xs = xs
drop (suc n) [] = []
drop (suc n) (x ∷ xs) = drop n xs

abbrev one_more : Option ℕ → Option ℕ
one_more none = none
one_more (some n) = some (suc n)

-- strings.Index(s, part); none stands for -1.
unfoldable pub index_of : Text → Text → Option ℕ
index_of [] part = if part == [] then some 0 else none
index_of (c ∷ s) part =
    let rest = index_of s part in if has_prefix (c ∷ s) part then some 0 else one_more rest

-- strings.HasSuffix(s, suffix)
unfoldable pub has_suffix : Text → Text → Bool
has_suffix [] suffix = suffix == []
has_suffix (c ∷ s) suffix = (c ∷ s) == suffix || has_suffix s suffix

-- strings.TrimPrefix(s, prefix)
unfoldable pub trim_prefix : Text → Text → Text
trim_prefix s prefix = if has_prefix s prefix then drop (length prefix) s else s

-- strings.TrimSuffix(s, suffix)
unfoldable pub trim_suffix : Text → Text → Text
trim_suffix [] suffix = []
trim_suffix (c ∷ s) suffix =
    let rest = trim_suffix s suffix in if (c ∷ s) == suffix then [] else c ∷ rest

abbrev before_first : ℕ → List Text → List Text
before_first c [] = (c ∷ []) ∷ []
before_first c (w ∷ ws) = (c ∷ w) ∷ ws

-- strings.Split(s, string(mark))
unfoldable pub split_on : ℕ → Text → List Text
split_on mark [] = [] ∷ []
split_on mark (c ∷ s) =
    let rest = split_on mark s in if eqb c mark then [] ∷ rest else before_first c rest

-- The text before the last mark, and the text after it.
unfoldable pub cut_last : ℕ → Text → Option (Text × Text)
cut_last mark [] = none
cut_last mark (c ∷ s) = elim (cut_last mark s) [
  | some (before, after) ↦ some (c ∷ before, after)
  | none ↦ if eqb c mark then some ([], s) else none
]

-- The text before the first mark, or the whole text.
unfoldable pub before_mark : ℕ → Text → Text
before_mark mark [] = []
before_mark mark (c ∷ s) = let rest = before_mark mark s in if eqb c mark then [] else c ∷ rest

cuts_tests :
    (index_of (txt "a##b") (txt "#b") ≡ some 2)
    × (has_suffix (txt "x.ts") (txt ".ts") ≡ true)
    × (trim_suffix (txt "a.b.") (txt ".") ≡ txt "a.b")
    × (trim_prefix (txt "svc:x") (txt "svc:") ≡ txt "x")
    × (split_on 46 (txt "a..b") ≡ txt "a" ∷ [] ∷ txt "b" ∷ [])
    × (cut_last 58 (txt "a:b:c") ≡ some (txt "a:b", txt "c"))
unfolding index_of has_suffix trim_suffix trim_prefix split_on cut_last same_text drop has_prefix
cuts_tests = (refl, refl, refl, refl, refl, refl)
