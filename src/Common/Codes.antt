-- ===== src/Common/Codes.antt =====
-- Text as its list of code points, and the decimal text of a number.
use Prim.Native.Nat.{ℕ, zero, suc, ◌+◌, ◌-◌, ◌*◌, ◌/◌, ◌%◌, ◌<◌, ◌≤◌}
use Prim.Native.Char.{code}
use Prim.Native.String.{String}
use mathlib.Core.Path.{◌≡◌, refl, ◌∙◌}
use mathlib.Core.Logic.{◌↔◌, inl, inr}
use mathlib.Core.Bool.{Bool, true, false, ◌&&◌}
use mathlib.Core.List.{List, [], ◌∷◌, ◌++◌}
use native.Mathlib.Omega.{arith}
use hydrascale.Common.Tests.{HasEq, ltb, leb, eqb, if◌then◌else◌, Bool-cases}
use hydrascale.Common.Lists.{All, All-append, length, length-append}

abbrev pub Text : Type 0
Text = List ℕ

-- The code points of a literal.
abbrev pub txt : String → Text
txt String.[] = []
txt (String.◌∷◌ c s) = code c ∷ txt s

unfoldable pub same_text : Text → Text → Bool
same_text [] [] = true
same_text [] (d ∷ t) = false
same_text (c ∷ s) [] = false
same_text (c ∷ s) (d ∷ t) = eqb c d && same_text s t

pub same_text_iff : (s t : Text) → (same_text s t ≡ true) ↔ (s ≡ t)
unfolding same_text
same_text_iff [] [] = (λ _. refl, λ _. refl)
same_text_iff [] (d ∷ t) = (λ h. cc, λ h. cc)
same_text_iff (c ∷ s) [] = (λ h. cc, λ h. cc)
same_text_iff (c ∷ s) (d ∷ t) =
    (λ h. ground (arith, same_text_iff s t), λ h. ground (arith, same_text_iff s t))

instance abbrev pub text_eq : HasEq Text
text_eq = record { same = same_text; same_iff = same_text_iff }

-- The order of two texts, as a test: the first is not above the second.
unfoldable pub text_leb : Text → Text → Bool
text_leb [] t = true
text_leb (c ∷ s) [] = false
text_leb (c ∷ s) (d ∷ t) =
    let rest = text_leb s t in if ltb c d then true else if ltb d c then false else rest

abbrev pub is_digit : ℕ → Bool
is_digit c = leb b'0' c && leb c b'9'

-- The decimal digits of a number; the fuel is at least the number.
unfoldable pub digits : ℕ → ℕ → Text
digits zero n = (b'0' + n) ∷ []
digits (suc fuel) n =
    let rest = digits fuel (n / 10) in
    if ltb n 10 then (b'0' + n) ∷ [] else rest ++ (b'0' + n % 10) ∷ []

-- strconv.Itoa of a number that is not negative.
unfoldable pub itoa : ℕ → Text
unfolding digits
itoa n = digits n n

-- The number that a text of digits stands for.
unfoldable pub value : Text → ℕ → ℕ
value [] acc = acc
value (c ∷ s) acc = value s (acc * 10 + (c - b'0'))

value-append : (s : Text) (c acc : ℕ) → value (s ++ c ∷ []) acc ≡ value s acc * 10 + (c - b'0')
unfolding value
value-append [] c acc = refl
value-append (d ∷ s) c acc = value-append s c (acc * 10 + (d - b'0'))

value-digits : (fuel n : ℕ) → n ≤ fuel → value (digits fuel n) 0 ≡ n
unfolding digits
value-digits zero n h = unfold value in omega arith
value-digits (suc fuel) n h = elim (Bool-cases (ltb n 10)) [
  | inl small ↦ rw small (unfold value in omega arith)
  | inr large ↦
      let below : n / 10 ≤ fuel = ground arith in
      rw large (
        value-append (digits fuel (n / 10)) (b'0' + n % 10) 0
        ∙ omega (arith, value-digits fuel (n / 10) below))
]

-- Reading the decimal text of a number gives the number.
pub value-itoa : (n : ℕ) → value (itoa n) 0 ≡ n
unfolding itoa
value-itoa n = value-digits n n (omega arith)

abbrev pub IsDigit : ℕ → Type 0
IsDigit c = (b'0' ≤ c) × (c ≤ b'9')

digits-IsDigit : (fuel n : ℕ) → n ≤ fuel → All IsDigit (digits fuel n)
unfolding digits
digits-IsDigit zero n h = ((omega arith, omega arith), tt)
digits-IsDigit (suc fuel) n h = elim (Bool-cases (ltb n 10)) [
  | inl small ↦ rw small ((omega arith, ground arith), tt)
  | inr large ↦ rw large (
      All-append IsDigit (digits fuel (n / 10)) ((b'0' + n % 10) ∷ [])
        (digits-IsDigit fuel (n / 10) (ground arith)) ((omega arith, omega arith), tt))
]

pub itoa-IsDigit : (n : ℕ) → All IsDigit (itoa n)
unfolding itoa
itoa-IsDigit n = digits-IsDigit n n (omega arith)

-- The number of texts of k digits.
abbrev pub numerals : ℕ → ℕ
numerals zero = 1
numerals (suc k) = 10 * numerals k

length-digits : (fuel n k : ℕ) → n < numerals (suc k) → length (digits fuel n) ≤ suc k
unfolding digits
length-digits zero n k h = omega arith
length-digits (suc fuel) n zero h = ground arith
length-digits (suc fuel) n (suc k) h = elim (Bool-cases (ltb n 10)) [
  | inl small ↦ rw small (omega arith)
  | inr large ↦ rw large (
      omega (
        arith,
        length-append {0} (digits fuel (n / 10)) ((b'0' + n % 10) ∷ []),
        length-digits fuel (n / 10) k (omega arith),
      ))
]

digits-pos : (fuel n : ℕ) → 1 ≤ length (digits fuel n)
unfolding digits
digits-pos zero n = omega arith
digits-pos (suc fuel) n = elim (Bool-cases (ltb n 10)) [
  | inl small ↦ rw small (omega arith)
  | inr large ↦
      rw large (omega (arith, length-append {0} (digits fuel (n / 10)) ((b'0' + n % 10) ∷ [])))
]

-- The decimal text of a number below 100000 has one to five digits.
pub length-itoa : (n : ℕ) → n < 100000 → (1 ≤ length (itoa n)) × (length (itoa n) ≤ 5)
unfolding itoa
length-itoa n h = (digits-pos n n, length-digits n n 4 h)
