-- ===== src/Common/Lists.antt =====
-- Lists over the native numbers, and predicates on lists.
use Prim.Native.Nat.{ℕ, suc, ◌+◌}
use mathlib.Core.Path.{◌≡◌, refl, ap}
use mathlib.Core.Logic.{◌⊎◌, inl, inr}
use mathlib.Core.Bool.{Bool, true, false, ◌&&◌, ◌||◌}
use mathlib.Core.List.{List, [], ◌∷◌, ◌++◌}
use native.Mathlib.Omega.{arith}
use hydrascale.Common.Tests.{HasEq, ◌==◌, ==_iff, ==_refl, if◌then◌else◌, Bool-cases}

module _ {ℓ} {A : Type ℓ} where
  abbrev pub length : List A → ℕ
  length [] = 0
  length (x ∷ xs) = suc (length xs)

  pub length-append : (xs ys : List A) → length (xs ++ ys) ≡ length xs + length ys
  length-append [] ys = omega arith
  length-append (x ∷ xs) ys = omega (arith, length-append xs ys)

  abbrev pub any : (A → Bool) → List A → Bool
  any p [] = false
  any p (x ∷ xs) = p x || any p xs

  abbrev pub all : (A → Bool) → List A → Bool
  all p [] = true
  all p (x ∷ xs) = p x && all p xs

  -- The elements that pass a test, in order.
  abbrev pub keep : (A → Bool) → List A → List A
  keep p [] = []
  keep p (x ∷ xs) = let rest = keep p xs in if p x then x ∷ rest else rest

  pub any-append : (p : A → Bool) (xs ys : List A) → any p (xs ++ ys) ≡ (any p xs || any p ys)
  any-append p [] ys = refl
  any-append p (x ∷ xs) ys = ground (arith, any-append p xs ys)

module _ {ℓ κ} {A : Type ℓ} (P : A → Type κ) where
  abbrev pub All : List A → Type κ
  All [] = Unit
  All (x ∷ xs) = P x × All xs

  pub All-append : (xs ys : List A) → All xs → All ys → All (xs ++ ys)
  All-append [] ys h k = k
  All-append (x ∷ xs) ys (p, h) k = (p, All-append xs ys h k)

module _ {ℓ κ} {A : Type ℓ} (P Q : A → Type κ) where
  pub All-both : (xs : List A) → All P xs → All Q xs → All (λ x. P x × Q x) xs
  All-both [] h k = tt
  All-both (x ∷ xs) (p, h) (q, k) = ((p, q), All-both xs h k)

module _ {ℓ κ} {A : Type ℓ} {P Q : A → Type κ} (imp : (a : A) → P a → Q a) where
  pub All-mono : (xs : List A) → All P xs → All Q xs
  All-mono [] h = tt
  All-mono (x ∷ xs) (p, h) = (imp x p, All-mono xs h)

module _ {ℓ} {A : Type ℓ} ⦃e : HasEq A⦄ where
  -- Membership as a test.
  abbrev pub mem : A → List A → Bool
  mem a [] = false
  mem a (x ∷ xs) = x == a || mem a xs

  pub mem-append : (a : A) (xs ys : List A) → mem a (xs ++ ys) ≡ (mem a xs || mem a ys)
  mem-append a [] ys = refl
  mem-append a (x ∷ xs) ys = ground (arith, mem-append a xs ys)

  pub mem-keep : (p : A → Bool) (a : A) (xs : List A) → mem a (keep p xs) ≡ (mem a xs && p a)
  mem-keep p a [] = refl
  mem-keep p a (x ∷ xs) = elim (Bool-cases (x == a)) [
    | inl same ↦
        let e : x ≡ a = (==_iff x a).0 same in
        let px : p x ≡ p a = ap p e in ground (arith, mem-keep p a xs)
    | inr other ↦ ground (arith, mem-keep p a xs)
  ]

  -- Every element of a list is one of its members.
  pub All-mem_self : (xs : List A) → All (λ x. mem x xs ≡ true) xs
  All-mem_self [] = tt
  All-mem_self (x ∷ xs) =
      (ground (arith, ==_refl x), All-mono (λ a m. ground (arith, m)) xs (All-mem_self xs))

  -- No element stands twice.
  abbrev pub nodup : List A → Bool
  nodup [] = true
  nodup (x ∷ xs) = if mem x xs then false else nodup xs

  pub nodup-snoc :
      (a : A) (xs : List A) → nodup xs ≡ true → mem a xs ≡ false → nodup (xs ++ a ∷ []) ≡ true
  nodup-snoc a [] h k = ground arith
  nodup-snoc a (x ∷ xs) h k =
      ground (arith, h, k, nodup-snoc a xs, mem-append x xs (a ∷ []), ==_iff x a, ==_iff a x)

module _ {ℓ κ} {A : Type ℓ} ⦃e : HasEq A⦄ (P : A → Type κ) where
  pub All-mem : (xs : List A) → All P xs → (a : A) → mem a xs ≡ true → P a
  All-mem [] h a m = absurd (ground arith)
  All-mem (x ∷ xs) (p, h) a m = elim (Bool-cases (x == a)) [
    | inl same ↦ mathlib.Core.Path.subst P ((==_iff x a).0 same) p
    | inr other ↦ All-mem xs h a (ground arith)
  ]

pub List-cases {ℓ} :
    {A : Type ℓ} (xs : List A) → (xs ≡ []) ⊎ ((x : A) × (rest : List A) × (xs ≡ x ∷ rest))
List-cases [] = inl refl
List-cases (x ∷ xs) = inr (x, xs, refl)

-- Two lists of which nothing is appended are empty.
pub nil_parts {ℓ} : {A : Type ℓ} (xs ys : List A) → xs ++ ys ≡ [] → (xs ≡ []) × (ys ≡ [])
nil_parts [] ys h = (refl, h)
nil_parts (x ∷ xs) ys h = absurd (ground (arith, h))
