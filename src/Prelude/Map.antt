-- ===== src/Prelude/Map.antt =====
-- `HashMap`, `LookupMap` and `IterableMap`, keyed by numbers: an association list.
use Prim.Native.Nat.{ℕ, ◌+◌, ◌≤◌}
use mathlib.Core.Path.{◌≡◌, refl}
use mathlib.Core.Logic.{◌⊎◌}
use mathlib.Core.Option.{Option, none, some}
use mathlib.Core.List.{List, [], ◌∷◌}
use native.Mathlib.Omega.{arith}
use contract_new_project_tem.Prelude.Tests.{◌==◌, if◌then◌else◌}

abbrev pub Map {ℓ} : Type ℓ → Type ℓ
Map V = List (ℕ × V)

module _ {ℓ} {V : Type ℓ} where
  unfoldable pub lookup : ℕ → Map V → Option V
  lookup k [] = none
  lookup k ((j, v) ∷ m) = if k == j then some v else lookup k m

  unfoldable pub insert : ℕ → V → Map V → Map V
  insert k v [] = (k, v) ∷ []
  insert k v ((j, w) ∷ m) = if k == j then (k, v) ∷ m else (j, w) ∷ insert k v m

  unfoldable pub remove : ℕ → Map V → Map V
  remove k [] = []
  remove k ((j, w) ∷ m) = let rest = remove k m in if k == j then rest else (j, w) ∷ rest

  pub lookup-insert :
      (j k : ℕ) (v : V) (m : Map V)
      → lookup j (insert k v m) ≡ (if j == k then some v else lookup j m)
  unfolding lookup insert
  lookup-insert j k v [] = refl
  lookup-insert j k v ((i, w) ∷ m) = ground (arith, lookup-insert j k v m)

  pub insert-cases :
      (j k : ℕ) (v w : V) (m : Map V)
      → lookup j (insert k v m) ≡ some w
      → ((j ≡ k) × (v ≡ w)) ⊎ (lookup j m ≡ some w)
  insert-cases j k v w m h = ground (arith, lookup-insert j k v m)

  pub lookup-remove :
      (j k : ℕ) (m : Map V) → lookup j (remove k m) ≡ (if j == k then none else lookup j m)
  unfolding lookup remove
  lookup-remove j k [] = ground arith
  lookup-remove j k ((i, w) ∷ m) = ground (arith, lookup-remove j k m)

-- No key is listed twice, as in every real map.
module _ {ℓ} {V : Type ℓ} where
  abbrev pub IsMap : Map V → Type ℓ
  IsMap [] = Unit
  IsMap ((k, v) ∷ m) = (lookup k m ≡ none) × IsMap m

  pub insert-IsMap : (k : ℕ) (v : V) (m : Map V) → IsMap m → IsMap (insert k v m)
  unfolding lookup insert
  insert-IsMap k v [] h = (refl, tt)
  insert-IsMap k v ((j, w) ∷ m) h = ground (arith, insert-IsMap k v m h.1, lookup-insert j k v m)

  pub remove-IsMap : (k : ℕ) (m : Map V) → IsMap m → IsMap (remove k m)
  unfolding lookup remove
  remove-IsMap k [] h = tt
  remove-IsMap k ((j, w) ∷ m) h = ground (arith, remove-IsMap k m h.1, lookup-remove j k m)

-- The sum of a number read off each value.
module _ {V : Type 0} (f : V → ℕ) where
  unfoldable pub sum : Map V → ℕ
  sum [] = 0
  sum ((k, v) ∷ m) = f v + sum m

  -- What the entry at a key adds to the sum.
  abbrev pub at_key : Option V → ℕ
  at_key none = 0
  at_key (some v) = f v

  pub sum-insert :
      (k : ℕ) (v : V) (m : Map V) → sum (insert k v m) + at_key (lookup k m) ≡ sum m + f v
  unfolding sum insert lookup
  sum-insert k v [] = omega arith
  sum-insert k v ((j, w) ∷ m) = ground (arith, sum-insert k v m)

  remove_missing : (k : ℕ) (m : Map V) → lookup k m ≡ none → sum (remove k m) ≡ sum m
  unfolding sum remove lookup
  remove_missing k [] h = refl
  remove_missing k ((j, w) ∷ m) h = ground (arith, remove_missing k m)

  pub sum-remove : (k : ℕ) (m : Map V) → IsMap m → sum (remove k m) + at_key (lookup k m) ≡ sum m
  unfolding sum remove lookup
  sum-remove k [] h = refl
  sum-remove k ((j, w) ∷ m) h = ground (arith, sum-remove k m h.1, remove_missing k m)

  pub at_key-le-sum : (k : ℕ) (m : Map V) → at_key (lookup k m) ≤ sum m
  unfolding sum lookup
  at_key-le-sum k [] = omega arith
  at_key-le-sum k ((j, w) ∷ m) = ground (arith, at_key-le-sum k m)
