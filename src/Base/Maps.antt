-- ===== src/Base/Maps.antt =====
-- Go's `map[K]V` as an association list with one entry for each key: reads, writes, `delete`, and
-- deleting during iteration.
use mathlib.Core.Path.{◌≡◌, ◌∙◌, refl, sym, ap, subst}
use mathlib.Core.Logic.{inl, inr}
use mathlib.Core.Bool.{Bool, true, false}
use mathlib.Core.List.{List, [], ◌∷◌}
use mathlib.Core.Option.{Option, none, some}
use Prim.Native.Nat.{◌+◌, ◌≤◌}
use native.Mathlib.Omega.{arith}
use magic_webb.Base.Tests.{if◌then◌else◌, Bool-cases}
use magic_webb.Base.Lists.{length, All}
use magic_webb.Base.Equality.{Comparable, ◌==◌}

abbrev pub GoMap : Type 0 → Type 0 → Type 0
GoMap K V = List (K × V)

module _ {K V : Type 0} ⦃e : Comparable K⦄ where
  unfoldable pub lookup : K → GoMap K V → Option V
  lookup key [] = none
  lookup key ((i, w) ∷ rest) = if i == key then some w else lookup key rest

  unfoldable pub insert : K → V → GoMap K V → GoMap K V
  insert key new [] = (key, new) ∷ []
  insert key new ((i, w) ∷ rest) =
      if i == key then (key, new) ∷ rest else (i, w) ∷ insert key new rest

  unfoldable pub delete : K → GoMap K V → GoMap K V
  delete k [] = []
  delete k ((j, w) ∷ m) = if j == k then delete k m else (j, w) ∷ delete k m

  -- `for k, v := range m { if p(k, v) { delete(m, k) } }`
  unfoldable pub delete_where : (K → V → Bool) → GoMap K V → GoMap K V
  delete_where p [] = []
  delete_where p ((j, w) ∷ m) = if p j w then delete_where p m else (j, w) ∷ delete_where p m

  -- No key stands twice.
  abbrev pub Unique : GoMap K V → Type 0
  Unique [] = Unit
  Unique ((k, v) ∷ m) = (lookup k m ≡ none) × Unique m

  pub lookup-insert :
      (key other : K) (new : V) (m : GoMap K V)
      → lookup other (insert key new m) ≡ (if key == other then some new else lookup other m)
  unfolding insert lookup
  lookup-insert key other new [] = refl
  lookup-insert key other new ((i, w) ∷ rest) = ground (
    arith,
    lookup-insert key other new rest,
    e.equals_iff i key,
    e.equals_iff i other,
    e.equals_iff key other,
  )

  pub lookup-delete :
      (k j : K) (m : GoMap K V) → lookup j (delete k m) ≡ (if k == j then none else lookup j m)
  unfolding lookup delete
  lookup-delete k j [] = ground arith
  lookup-delete k j ((i, w) ∷ m) =
      ground (arith, e.equals_iff k j, e.equals_iff i k, e.equals_iff i j, lookup-delete k j m)

  -- What is left of an entry after the entries that pass `p` are deleted.
  abbrev pub unless : (K → V → Bool) → K → Option V → Option V
  unless p k none = none
  unless p k (some v) = if p k v then none else some v

  pub lookup-delete_where :
      (p : K → V → Bool) (k : K) (m : GoMap K V)
      → Unique m
      → lookup k (delete_where p m) ≡ unless p k (lookup k m)
  unfolding lookup delete_where
  lookup-delete_where p k [] u = refl
  lookup-delete_where p k ((j, w) ∷ m) (h, u) =
      ground (
        arith,
        e.equals_iff j k,
        ap (λ i. lookup i m),
        ap (λ i. p i w),
        lookup-delete_where p k m u,
      )

  pub insert-Unique : (k : K) (v : V) (m : GoMap K V) → Unique m → Unique (insert k v m)
  unfolding insert lookup
  insert-Unique k v [] u = (refl, tt)
  insert-Unique k v ((j, w) ∷ m) (h, u) =
      ground
        (arith, e.equals_iff j k, e.equals_iff k j, lookup-insert k j v m, insert-Unique k v m u)

  pub delete-Unique : (k : K) (m : GoMap K V) → Unique m → Unique (delete k m)
  unfolding delete
  delete-Unique k [] u = tt
  delete-Unique k ((j, w) ∷ m) (h, u) =
      ground (arith, e.equals_iff j k, lookup-delete k j m, delete-Unique k m u)

  pub delete_where-Unique :
      (p : K → V → Bool) (m : GoMap K V) → Unique m → Unique (delete_where p m)
  unfolding delete_where
  delete_where-Unique p [] u = tt
  delete_where-Unique p ((j, w) ∷ m) (h, u) =
      ground (arith, lookup-delete_where p j m u, delete_where-Unique p m u)

  pub length-insert-le : (k : K) (v : V) (m : GoMap K V) → length (insert k v m) ≤ length m + 1
  unfolding insert
  length-insert-le k v [] = omega arith
  length-insert-le k v ((j, w) ∷ m) = ground (arith, length-insert-le k v m)

  pub length-delete-le : (k : K) (m : GoMap K V) → length (delete k m) ≤ length m
  unfolding delete
  length-delete-le k [] = omega arith
  length-delete-le k ((j, w) ∷ m) = ground (arith, length-delete-le k m)

  -- Deleting an entry that is there.
  pub length-delete_present :
      (k : K) (v : V) (m : GoMap K V) → lookup k m ≡ some v → length (delete k m) + 1 ≤ length m
  unfolding lookup delete
  length-delete_present k v [] h = absurd (cc)
  length-delete_present k v ((j, w) ∷ m) h =
      ground (arith, length-delete_present k v m, length-delete-le k m)

  -- Writing an existing entry adds none.
  pub length-insert_present :
      (k : K) (v w : V) (m : GoMap K V) → lookup k m ≡ some w → length (insert k v m) ≡ length m
  unfolding insert lookup
  length-insert_present k v w [] h = absurd (cc)
  length-insert_present k v w ((j, x) ∷ m) h = ground (arith, h, length-insert_present k v w m)

-- What every entry of a map satisfies.
module _ {K V : Type 0} ⦃e : Comparable K⦄ (P : K × V → Type 0) where
  pub All-insert : (k : K) (v : V) (m : GoMap K V) → P (k, v) → All P m → All P (insert k v m)
  unfolding insert
  All-insert k v [] p h = (p, tt)
  All-insert k v ((j, w) ∷ m) p (q, h) = elim (Bool-cases (j == k)) [
    | inl t ↦ subst (All P) (sym (insert-here k v j w m t)) (p, h)
    | inr f ↦ subst (All P) (sym (insert-later k v j w m f)) (q, All-insert k v m p h)
  ]
    where
      insert-here :
          (k : K) (v : V) (j : K) (w : V) (m : GoMap K V)
          → (j == k) ≡ true
          → insert k v ((j, w) ∷ m) ≡ (k, v) ∷ m
      insert-here k v j w m t = rw t

      insert-later :
          (k : K) (v : V) (j : K) (w : V) (m : GoMap K V)
          → (j == k) ≡ false
          → insert k v ((j, w) ∷ m) ≡ (j, w) ∷ insert k v m
      insert-later k v j w m f = rw f

  pub All-delete : (k : K) (m : GoMap K V) → All P m → All P (delete k m)
  unfolding delete
  All-delete k [] h = h
  All-delete k ((j, w) ∷ m) (q, h) = elim (Bool-cases (j == k)) [
    | inl t ↦ subst (All P) (sym (delete-here t)) (All-delete k m h)
    | inr f ↦ subst (All P) (sym (delete-later f)) (q, All-delete k m h)
  ]
    where
      delete-here : (j == k) ≡ true → delete k ((j, w) ∷ m) ≡ delete k m
      delete-here t = rw t

      delete-later : (j == k) ≡ false → delete k ((j, w) ∷ m) ≡ (j, w) ∷ delete k m
      delete-later f = rw f

  pub All-lookup : (k : K) (v : V) (m : GoMap K V) → All P m → lookup k m ≡ some v → P (k, v)
  unfolding lookup
  All-lookup k v [] h e = grind arith
  All-lookup k v ((j, w) ∷ m) (q, h) eq = elim (Bool-cases (j == k)) [
    | inl t ↦ subst P (ap (λ i. (i, w)) (key t) ∙ ap (λ u. (k, u)) (value t)) q
    | inr f ↦ All-lookup k v m h (ground arith)
  ]
    where
      key : (j == k) ≡ true → j ≡ k
      key t = (e.equals_iff j k).0 t

      value : (j == k) ≡ true → w ≡ v
      value t = ground arith

  pub All-delete_where : (p : K → V → Bool) (m : GoMap K V) → All P m → All P (delete_where p m)
  unfolding delete_where
  All-delete_where p [] h = h
  All-delete_where p ((j, w) ∷ m) (q, h) = elim (Bool-cases (p j w)) [
    | inl t ↦ rw t (All-delete_where p m h)
    | inr f ↦ rw f (q, All-delete_where p m h)
  ]
