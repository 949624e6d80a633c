-- ===== src/Common/Results.antt =====
-- The result of code that may fail, with the error as a value.
use mathlib.Core.Path.{◌≡◌, refl}
use mathlib.Core.Logic.{◌⊎◌, inl, inr}
use mathlib.Core.Bool.{Bool, true, false}
use mathlib.Core.Option.{Option}
use hydrascale.Common.Codes.{Text}

pub data Result {ℓ κ} (E : Type ℓ) (A : Type κ) : Type (ℓ ⊔ κ) where
  ok : A → Result E A
  err : E → Result E A

infixl 5 ◌>>=◌ ◌>>◌
abbrev pub ◌>>=◌ {ℓ κ μ} :
    {E : Type ℓ} {A : Type κ} {B : Type μ} → Result E A → (A → Result E B) → Result E B
ok found >>= next = next found
err failure >>= next = err failure

abbrev pub ◌>>◌ {ℓ κ} : {E : Type ℓ} {B : Type κ} → Result E (Unit {0}) → Result E B → Result E B
check >> next = check >>= λ _. next

-- Refuses with an error where the test is true.
abbrev pub refuse_if {ℓ} : {E : Type ℓ} → Bool → E → Result E (Unit {0})
refuse_if true e = err e
refuse_if false e = ok tt

-- The two steps of a bind that succeeded.
pub bind_parts {ℓ κ μ} :
    {E : Type ℓ} {A : Type κ} {B : Type μ} {result : B} (first : Result E A)
    (second : A → Result E B)
    → (first >>= second) ≡ ok result
    → (found : A) × (first ≡ ok found) × (second found ≡ ok result)
bind_parts (ok found) second done = (found, refl, done)
bind_parts (err failure) second done = cc

pub Result-cases {ℓ κ} :
    {E : Type ℓ} {A : Type κ} (m : Result E A) → ((a : A) × (m ≡ ok a)) ⊎ ((e : E) × (m ≡ err e))
Result-cases (ok a) = inl (a, refl)
Result-cases (err e) = inr (e, refl)

-- What a command on the host answers: its output, and its error where it failed.
pub record Answer : Type 0 where
  pub output : Text
  pub failed : Option Text
