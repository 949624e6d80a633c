-- ===== src/Common/Maps.antt =====
-- A map as an association list. The order of the list stands for the order in which the source
-- ranges over its map.
use mathlib.Core.Path.{◌≡◌, refl}
use mathlib.Core.Bool.{Bool, true, false, not, ◌&&◌}
use mathlib.Core.Option.{Option, none, some}
use mathlib.Core.List.{List, [], ◌∷◌}
use native.Mathlib.Omega.{arith}
use hydrascale.Common.Tests.{HasEq, ◌==◌, ==_iff, ==_refl, if◌then◌else◌}
use hydrascale.Common.Lists.{mem, nodup}

abbrev pub Map {ℓ κ} : Type ℓ → Type κ → Type (ℓ ⊔ κ)
Map K V = List (K × V)

abbrev pub is_some {ℓ} : {A : Type ℓ} → Option A → Bool
is_some none = false
is_some (some a) = true

-- What an absent key reads as.
abbrev pub or_default {ℓ} : {A : Type ℓ} → Option A → A → A
or_default none d = d
or_default (some a) d = a

module _ {ℓ κ} {K : Type ℓ} {V : Type κ} where
  abbrev pub keys : Map K V → List K
  keys [] = []
  keys ((k, v) ∷ m) = k ∷ keys m

module _ {ℓ κ} {K : Type ℓ} {V : Type κ} ⦃e : HasEq K⦄ where
  unfoldable pub lookup : K → Map K V → Option V
  lookup k [] = none
  lookup k ((j, v) ∷ m) = if j == k then some v else lookup k m

  unfoldable pub delete : K → Map K V → Map K V
  delete k [] = []
  delete k ((j, v) ∷ m) = let rest = delete k m in if j == k then rest else (j, v) ∷ rest

  unfoldable pub put : K → V → Map K V → Map K V
  unfolding delete
  put k v m = (k, v) ∷ delete k m

  pub lookup-delete :
      (k j : K) (m : Map K V) → lookup j (delete k m) ≡ (if k == j then none else lookup j m)
  unfolding lookup delete
  lookup-delete k j [] = ground arith
  lookup-delete k j ((i, v) ∷ m) =
      ground (arith, lookup-delete k j m, ==_iff i k, ==_iff i j, ==_iff k j)

  pub lookup-put :
      (k j : K) (v : V) (m : Map K V)
      → lookup j (put k v m) ≡ (if k == j then some v else lookup j m)
  unfolding lookup put
  lookup-put k j v m = ground (arith, lookup-delete k j m)

  -- A key is listed exactly when a lookup finds it.
  pub mem-keys : (k : K) (m : Map K V) → mem k (keys m) ≡ is_some (lookup k m)
  unfolding lookup
  mem-keys k [] = refl
  mem-keys k ((j, v) ∷ m) = ground (arith, mem-keys k m)

  mem-keys-delete :
      (k j : K) (m : Map K V) → mem j (keys (delete k m)) ≡ (mem j (keys m) && not (k == j))
  unfolding delete
  mem-keys-delete k j [] = refl
  mem-keys-delete k j ((i, v) ∷ m) =
      ground (arith, mem-keys-delete k j m, ==_iff i k, ==_iff i j, ==_iff k j)

  nodup-keys-delete :
      (k : K) (m : Map K V) → nodup (keys m) ≡ true → nodup (keys (delete k m)) ≡ true
  unfolding delete
  nodup-keys-delete k [] h = h
  nodup-keys-delete k ((i, v) ∷ m) h =
      let rest = nodup-keys-delete k m (ground (arith, h)) in
      ground (arith, h, rest, mem-keys-delete k i m)

  -- An insertion keeps the keys distinct.
  pub nodup-keys-put :
      (k : K) (v : V) (m : Map K V) → nodup (keys m) ≡ true → nodup (keys (put k v m)) ≡ true
  unfolding put
  nodup-keys-put k v m h =
      ground (arith, nodup-keys-delete k m h, mem-keys-delete k k m, ==_iff k k, ==_refl k)

pub ruleset map_laws = (lookup-delete, lookup-put)
