-- ===== src/Base/Sql.antt =====
-- SQL statements on a table with a primary key, held as a map: UPDATE … WHERE, and
-- INSERT … ON CONFLICT(key) DO UPDATE or DO NOTHING.
use mathlib.Core.Path.{◌≡◌, refl}
use mathlib.Core.List.{[], ◌∷◌}
use mathlib.Core.Option.{Option, none, some}
use native.Mathlib.Omega.{arith}
use magic_webb.Base.Tests.{if◌then◌else◌}
use magic_webb.Base.Equality.{Comparable, ◌==◌}
use magic_webb.Base.Maps.{GoMap, lookup, insert, lookup-insert}

abbrev pub map_some : {A B : Type 0} → (A → B) → Option A → Option B
map_some f none = none
map_some f (some a) = some (f a)

-- What an upsert leaves of the row that was there.
abbrev pub merged : {V : Type 0} → V → (V → V) → Option V → V
merged fresh merge none = fresh
merged fresh merge (some old) = merge old

module _ {K V : Type 0} ⦃e : Comparable K⦄ where
  -- Every row by its key: a row that the condition does not select keeps its value.
  unfoldable pub update_rows : (K → V → V) → GoMap K V → GoMap K V
  update_rows f [] = []
  update_rows f ((k, v) ∷ m) = (k, f k v) ∷ update_rows f m

  unfoldable pub upsert : K → V → (V → V) → GoMap K V → GoMap K V
  unfolding lookup insert
  upsert k fresh merge m = insert k (merged fresh merge (lookup k m)) m

  pub lookup-update_rows :
      (f : K → V → V) (k : K) (m : GoMap K V)
      → lookup k (update_rows f m) ≡ map_some (f k) (lookup k m)
  unfolding lookup update_rows
  lookup-update_rows f k [] = refl
  lookup-update_rows f k ((j, w) ∷ m) = ground (arith, e.equals_iff j k, lookup-update_rows f k m)

  pub lookup-upsert :
      (k j : K) (fresh : V) (merge : V → V) (m : GoMap K V)
      → lookup j (upsert k fresh merge m)
        ≡ (if k == j then some (merged fresh merge (lookup k m)) else lookup j m)
  unfolding upsert
  lookup-upsert k j fresh merge m = lookup-insert k j (merged fresh merge (lookup k m)) m
