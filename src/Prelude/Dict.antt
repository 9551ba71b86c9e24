-- ===== src/Prelude/Dict.antt =====
-- `UnorderedMap` and JSON maps keyed by texts: an association list.
use Prim.Native.Char.{code}
use Prim.Native.String.{String}
use text.Mathlib.Text.{◌==◌}
use text.Mathlib.TextEquality.{eq_iff}
use mathlib.Core.Bool.{Bool, true}
use Prim.Native.Nat.{ℕ}
use mathlib.Core.Logic.{◌⊎◌}
use mathlib.Core.Path.{◌≡◌, refl}
use mathlib.Core.Option.{Option, none, some}
use mathlib.Core.List.{List, [], ◌∷◌}
use native.Mathlib.Omega.{arith}
use contract_new_project_tem.Prelude.Tests.{if◌then◌else◌}

abbrev pub Dict {ℓ} : Type ℓ → Type ℓ
Dict V = List (String × V)

abbrev pub same : String → String → Bool
same a b = a == b

pub same_refl : (a : String) → same a a ≡ true
same_refl a = ground (arith, eq_iff a a)

pub eq_of_same : (a b : String) → same a b ≡ true → a ≡ b
eq_of_same a b h = ground (arith, eq_iff a b)

-- The bytes of an ASCII text.
abbrev pub codes : String → List ℕ
codes String.[] = []
codes (String.◌∷◌ c s) = code c ∷ codes s

module _ {ℓ} {V : Type ℓ} where
  unfoldable pub find : String → Dict V → Option V
  find k [] = none
  find k ((j, v) ∷ m) = if j == k then some v else find k m

  unfoldable pub put : String → V → Dict V → Dict V
  put k v [] = (k, v) ∷ []
  put k v ((j, w) ∷ m) = if j == k then (k, v) ∷ m else (j, w) ∷ put k v m

  pub find-put :
      (k j : String) (v : V) (m : Dict V)
      → find j (put k v m) ≡ (if k == j then some v else find j m)
  unfolding find put
  find-put k j v [] = refl
  find-put k j v ((i, w) ∷ m) = ground (arith, eq_iff k j, eq_iff i k, eq_iff i j, find-put k j v m)

module _ {V : Type 0} where
  -- The value lies under some key.
  abbrev pub In : V → Dict V → Type 0
  In v [] = ⊥
  In v ((j, w) ∷ m) = (v ≡ w) ⊎ In v m

  pub find-In : (k : String) (v : V) (m : Dict V) → find k m ≡ some v → In v m
  unfolding find
  find-In k v [] h = cc
  find-In k v ((j, w) ∷ m) h = ground (arith, find-In k v m)

  pub put-In : (k : String) (v w : V) (m : Dict V) → In w (put k v m) → (w ≡ v) ⊎ In w m
  unfolding put
  put-In k v w [] h = ground arith
  put-In k v w ((j, x) ∷ m) h = ground (arith, put-In k v w m)
