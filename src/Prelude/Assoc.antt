-- ===== src/Prelude/Assoc.antt =====
-- Go maps as association lists, over keys with an equality test. An iteration over a map visits
-- the entries in the order of the list.
use mathlib.Core.Path.{◌≡◌, refl}
use mathlib.Core.Bool.{Bool, false, not, ◌&&◌, ◌||◌}
use mathlib.Core.Option.{Option, none, some}
use mathlib.Core.List.{List, [], ◌∷◌}
use native.Mathlib.Omega.{arith}
use brisedb.Prelude.Tests.{Eq, ◌==◌, ==_iff, if◌then◌else◌}

abbrev pub Assoc {ℓ} : Type ℓ → Type ℓ → Type ℓ
Assoc K V = List (K × V)

module _ {ℓ} {K V : Type ℓ} ⦃e : Eq K⦄ where
  -- `v, ok := m[k]`
  unfoldable pub lookup : K → Assoc K V → Option V
  lookup k [] = none
  lookup k ((j, v) ∷ m) = if j == k then some v else lookup k m

  -- `m[k] = v`
  unfoldable pub insert : K → V → Assoc K V → Assoc K V
  insert k v [] = (k, v) ∷ []
  insert k v ((j, w) ∷ m) = if j == k then (k, v) ∷ m else (j, w) ∷ insert k v m

  -- `delete(m, k)`
  unfoldable pub delete : K → Assoc K V → Assoc K V
  delete k [] = []
  delete k ((j, w) ∷ m) = let rest = delete k m in if j == k then rest else (j, w) ∷ rest

  pub lookup-insert :
      (key other : K) (val : V) (map : Assoc K V)
      → lookup other (insert key val map) ≡ (if key == other then some val else lookup other map)
  unfolding lookup insert
  lookup-insert key other val [] = refl
  lookup-insert key other val ((i, w) ∷ map) =
      ground
        (arith, ==_iff i key, ==_iff key other, ==_iff i other, lookup-insert key other val map)

  pub lookup-delete :
      (k j : K) (m : Assoc K V) → lookup j (delete k m) ≡ (if k == j then none else lookup j m)
  unfolding lookup delete
  lookup-delete k j [] = ground arith
  lookup-delete k j ((i, w) ∷ m) =
      ground (arith, ==_iff k j, ==_iff i k, ==_iff i j, lookup-delete k j m)

  -- Each key once, as in a Go map.
  abbrev pub Unique : Assoc K V → Type ℓ
  Unique [] = Unit
  Unique ((k, v) ∷ m) = (lookup k m ≡ none) × Unique m

  pub insert-Unique : (k : K) (v : V) (m : Assoc K V) → Unique m → Unique (insert k v m)
  unfolding insert lookup
  insert-Unique k v [] u = (refl, tt)
  insert-Unique k v ((j, w) ∷ m) u =
      ground
        (arith, insert-Unique k v m u.1, lookup-insert k j v m, u.0, u.1, ==_iff j k, ==_iff k j)

  pub delete-Unique : (k : K) (m : Assoc K V) → Unique m → Unique (delete k m)
  unfolding delete lookup
  delete-Unique k [] u = u
  delete-Unique k ((j, w) ∷ m) u =
      ground (arith, delete-Unique k m u.1, lookup-delete k j m, u.0, u.1)

-- Sets, as the keys of a map.
module _ {ℓ} {K : Type ℓ} ⦃e : Eq K⦄ where
  unfoldable pub mem : K → List K → Bool
  mem k [] = false
  mem k (j ∷ js) = j == k || mem k js

  -- `delete(m, k)`
  unfoldable pub discard : K → List K → List K
  discard k [] = []
  discard k (j ∷ js) = let rest = discard k js in if j == k then rest else j ∷ rest

  pub mem-discard : (k j : K) (l : List K) → mem k (discard j l) ≡ (mem k l && not (j == k))
  unfolding mem discard
  mem-discard k j [] = refl
  mem-discard k j (i ∷ l) = ground (arith, mem-discard k j l, ==_iff i j, ==_iff i k, ==_iff j k)
