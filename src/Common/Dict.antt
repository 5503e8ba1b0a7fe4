-- ===== src/Common/Dict.antt =====
-- Go maps as association lists, each key once. The order of the list stands for the order in which
-- a `range` happens to visit the map; statements about a `range` do not depend on it.
use distributed_framework.Common.Tests.{if◌then◌else◌}
use distributed_framework.Common.Keys.{Comparable, ◌==◌, ==_iff}
use distributed_framework.Common.Lists.{length}
use Prim.Native.Nat.{◌+◌}
use mathlib.Core.Path.{◌≡◌, refl}
use mathlib.Core.Bool.{Bool, true, false}
use mathlib.Core.Option.{Option, none, some}
use mathlib.Core.List.{List, [], ◌∷◌, map}
use native.Mathlib.Omega.{arith}

abbrev pub Dict {ℓ κ} : Type ℓ → Type κ → Type (ℓ ⊔ κ)
Dict K V = List (K × V)

module _ {ℓ κ} {K : Type ℓ} {V : Type κ} where
  abbrev pub keys : Dict K V → List K
  keys = map λ e. e.0

  abbrev pub values : Dict K V → List V
  values = map λ e. e.1

module _ {ℓ κ} {K : Type ℓ} {V : Type κ} ⦃e : Comparable K⦄ where
  -- `v, ok := m[k]`
  unfoldable pub lookup : K → Dict K V → Option V
  lookup k [] = none
  lookup k ((at, v) ∷ rest) = if at == k then some v else lookup k rest

  -- `_, ok := m[k]`
  unfoldable pub has : K → Dict K V → Bool
  has k [] = false
  has k ((j, v) ∷ m) = if j == k then true else has k m

  -- `m[k] = v`
  unfoldable pub insert : K → V → Dict K V → Dict K V
  insert k v [] = (k, v) ∷ []
  insert k v ((at, old) ∷ rest) = if at == k then (k, v) ∷ rest else (at, old) ∷ insert k v rest

  -- `delete(m, k)`
  unfoldable pub delete : K → Dict K V → Dict K V
  delete k [] = []
  delete k ((j, w) ∷ m) = if j == k then delete k m else (j, w) ∷ delete k m

  -- Each key stands once, as in a Go map.
  abbrev pub Unique : Dict K V → Type 0
  Unique [] = Unit
  Unique ((k, v) ∷ m) = (has k m ≡ false) × Unique m

  pub lookup-insert :
      (k j : K) (v : V) (m : Dict K V)
      → lookup j (insert k v m) ≡ (if k == j then some v else lookup j m)
  unfolding lookup insert
  lookup-insert k j v [] = refl
  lookup-insert k j v ((at, old) ∷ rest) =
      ground (arith, lookup-insert k j v rest, ==_iff at j, ==_iff at k, ==_iff k j)

  pub lookup-delete :
      (k j : K) (m : Dict K V) → lookup j (delete k m) ≡ (if k == j then none else lookup j m)
  unfolding lookup delete
  lookup-delete k j [] = ground arith
  lookup-delete k j ((i, w) ∷ m) =
      ground (arith, ==_iff k j, ==_iff i k, ==_iff i j, lookup-delete k j m)

  pub has-insert :
      (k j : K) (v : V) (m : Dict K V) → has j (insert k v m) ≡ (if k == j then true else has j m)
  unfolding has insert
  has-insert k j v [] = refl
  has-insert k j v ((i, w) ∷ m) =
      ground (arith, ==_iff k j, ==_iff i k, ==_iff i j, has-insert k j v m)

  pub has-delete :
      (k j : K) (m : Dict K V) → has j (delete k m) ≡ (if k == j then false else has j m)
  unfolding has delete
  has-delete k j [] = ground arith
  has-delete k j ((i, w) ∷ m) = ground (arith, ==_iff k j, ==_iff i k, ==_iff i j, has-delete k j m)

  pub insert-Unique : (k : K) (v : V) (m : Dict K V) → Unique m → Unique (insert k v m)
  unfolding insert has
  insert-Unique k v [] u = (refl, tt)
  insert-Unique k v ((i, w) ∷ m) u =
      ground (arith, ==_iff i k, ==_iff k i, has-insert k i v m, insert-Unique k v m u.1)

  pub delete-Unique : (k : K) (m : Dict K V) → Unique m → Unique (delete k m)
  unfolding delete has
  delete-Unique k [] u = tt
  delete-Unique k ((i, w) ∷ m) u =
      ground (arith, ==_iff i k, has-delete k i m, delete-Unique k m u.1)

  -- A key is there exactly when it has a value.
  pub has-lookup : (k : K) (m : Dict K V) → has k m ≡ false → lookup k m ≡ none
  unfolding has lookup
  has-lookup k [] h = refl
  has-lookup k ((i, w) ∷ m) h = ground (arith, has-lookup k m)

  pub lookup-has : (k : K) (m : Dict K V) (v : V) → lookup k m ≡ some v → has k m ≡ true
  unfolding has lookup
  lookup-has k [] v h = cc
  lookup-has k ((i, w) ∷ m) v h = ground (arith, lookup-has k m v)

  -- A delete of a key that is not there changes nothing.
  pub delete_absent : (k : K) (m : Dict K V) → has k m ≡ false → delete k m ≡ m
  unfolding has delete
  delete_absent k [] h = refl
  delete_absent k ((i, w) ∷ m) h = ground (arith, delete_absent k m)

  -- An insert makes the map at most one entry longer: `len(m)`.
  pub length-insert :
      (k : K) (v : V) (m : Dict K V)
      → length (insert k v m) ≡ (if has k m then length m else length m + 1)
  unfolding insert has
  length-insert k v [] = omega arith
  length-insert k v ((i, w) ∷ m) = ground (arith, length-insert k v m)

  -- A delete takes out one entry at most: the keys are distinct.
  pub length-delete :
      (k : K) (m : Dict K V)
      → Unique m
      → length m ≡ (if has k m then length (delete k m) + 1 else length (delete k m))
  unfolding delete has
  length-delete k [] u = refl
  length-delete k ((i, w) ∷ m) u =
      ground (arith, ==_iff i k, length-delete k m u.1, delete_absent k m)

  pub has_of_lookup_none : (k : K) (m : Dict K V) → lookup k m ≡ none → has k m ≡ false
  unfolding has lookup
  has_of_lookup_none k [] h = refl
  has_of_lookup_none k ((i, w) ∷ m) h = ground (arith, has_of_lookup_none k m)
