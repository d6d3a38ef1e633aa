-- ===== src/Prelude/Maps.antt =====
-- Association lists with numbers for keys: the kernel's radix trees, as a map from an index to an item.
use Prim.Native.Nat.{ℕ}
use mathlib.Core.Path.{◌≡◌, refl}
use mathlib.Core.List.{List, [], ◌∷◌}
use mathlib.Core.Option.{Option, none, some}
use mathlib.Core.Option
use native.Mathlib.Omega.{arith}
use motorola_external_greybu.Prelude.{◌==◌, if◌then◌else◌}

module _ {ℓ} {A : Type ℓ} where
  unfoldable pub lookup : ℕ → List (ℕ × A) → Option A
  lookup k [] = none
  lookup k ((j, a) ∷ m) = if j == k then some a else lookup k m

  unfoldable pub insert : ℕ → A → List (ℕ × A) → List (ℕ × A)
  insert k a [] = (k, a) ∷ []
  insert k a ((j, b) ∷ m) = if j == k then (k, a) ∷ m else (j, b) ∷ insert k a m

  unfoldable pub erase : ℕ → List (ℕ × A) → List (ℕ × A)
  erase k [] = []
  erase k ((j, b) ∷ m) = let rest = erase k m in if j == k then rest else (j, b) ∷ rest

  unfoldable pub map_values : (A → A) → List (ℕ × A) → List (ℕ × A)
  map_values f [] = []
  map_values f ((j, b) ∷ m) = (j, f b) ∷ map_values f m

  pub lookup-insert :
      (k j : ℕ) (a : A) (m : List (ℕ × A))
      → lookup j (insert k a m) ≡ (if k == j then some a else lookup j m)
  unfolding lookup insert
  lookup-insert k j a [] = refl
  lookup-insert k j a ((i, b) ∷ m) = ground (arith, lookup-insert k j a m)

  pub lookup-erase :
      (k j : ℕ) (m : List (ℕ × A)) → lookup j (erase k m) ≡ (if k == j then none else lookup j m)
  unfolding lookup erase
  lookup-erase k j [] = ground arith
  lookup-erase k j ((i, b) ∷ m) = ground (arith, lookup-erase k j m)

  pub lookup-map_values :
      (f : A → A) (j : ℕ) (m : List (ℕ × A)) → lookup j (map_values f m) ≡ Option.map f (lookup j m)
  unfolding lookup map_values
  lookup-map_values f j [] = refl
  lookup-map_values f j ((i, b) ∷ m) = ground (arith, lookup-map_values f j m)
