-- ===== src/RpcPool/Cursor.antt =====
-- Where a cycle of healthLoop of backend/internal/rpcpool/pool.go leaves the cursor.
use native.Mathlib.Nat.{zero-add, add-zero}
use magic_webb.Base.{
  ℕ, zero, suc, ◌+◌, ◌<◌, ◌≡◌, refl, ◌∙◌, Bool, true, false, some, List, [], ◌∷◌, arith, nat_eq,
  GoMap, get_elem?,
}
use magic_webb.RpcPool.{Pool}
use magic_webb.RpcPool.Health.{count_healthy, Pass, visit, second_pass, health_cycle}

-- Once an endpoint is promoted the pass leaves the cursor.
second_pass-promoted :
    (has_cb : Bool) (n total idx : ℕ) (healthy : List Bool) (s : Pass)
    → s.promoted ≡ true
    → (second_pass has_cb n total idx healthy s).cur ≡ s.cur
unfolding second_pass visit
second_pass-promoted has_cb n total idx [] s h = refl
second_pass-promoted has_cb n total idx (b ∷ healthy) s h =
    second_pass-promoted has_cb n total (idx + 1) healthy (visit has_cb n total idx b s)
      (ground arith)
    ∙ ground arith

-- The first healthy endpoint, where there is one.
abbrev pub IsFirst : ℕ → List Bool → Type 0
IsFirst x healthy =
    (get_elem? healthy x ≡ some true) × ((y : ℕ) → y < x → get_elem? healthy y ≡ some false)

second_pass-cur :
    (has_cb : Bool) (n total idx x : ℕ) (healthy : List Bool) (s : Pass)
    → s.promoted ≡ false
    → IsFirst x healthy
    → (second_pass has_cb n total idx healthy s).cur ≡ idx + x
unfolding second_pass visit
second_pass-cur has_cb n total idx x [] s h (at, before) = grind arith
second_pass-cur has_cb n total idx zero (b ∷ healthy) s h (at, before) =
    second_pass-promoted has_cb n total (idx + 1) healthy (visit has_cb n total idx b s)
      (ground arith)
    ∙ ground (arith, add-zero idx)
second_pass-cur has_cb n total idx (suc x) (b ∷ healthy) s h (at, before) =
    second_pass-cur has_cb n total (idx + 1) x healthy (visit has_cb n total idx b s)
      (ground (arith, before 0 (omega arith))) (at, λ y lt. before (suc y) (omega arith))
    ∙ omega arith

second_pass-none :
    (has_cb : Bool) (n total idx : ℕ) (healthy : List Bool) (s : Pass)
    → count_healthy healthy ≡ 0
    → (second_pass has_cb n total idx healthy s).cur ≡ s.cur
unfolding second_pass visit count_healthy
second_pass-none has_cb n total idx [] s h = refl
second_pass-none has_cb n total idx (true ∷ healthy) s h = absurd (omega arith)
second_pass-none has_cb n total idx (false ∷ healthy) s h =
    second_pass-none has_cb n total (idx + 1) healthy (visit has_cb n total idx false s) h

first-counted :
    (healthy : List Bool) (x : ℕ) → get_elem? healthy x ≡ some true → 0 < count_healthy healthy
unfolding count_healthy
first-counted [] x h = grind arith
first-counted (true ∷ healthy) x h = omega arith
first-counted (false ∷ healthy) zero h = grind arith
first-counted (false ∷ healthy) (suc x) h = first-counted healthy x h

-- After a cycle the cursor is at the first healthy endpoint, where there is one; where there is
-- none it stays, and only then the count of degraded cycles grows.
pub health_cycle-cur :
    (has_cb : Bool) (healthy : List Bool) (prev : GoMap ℕ Bool) (p : Pool)
    → ((x : ℕ)
        → IsFirst x healthy
        → ((health_cycle has_cb healthy prev p).0.cur ≡ x)
          × ((health_cycle has_cb healthy prev p).0.degraded_count ≡ 0))
      × (count_healthy healthy ≡ 0
          → ((health_cycle has_cb healthy prev p).0.cur ≡ p.cur)
            × ((health_cycle has_cb healthy prev p).0.degraded_count ≡ p.degraded_count + 1))
unfolding health_cycle
health_cycle-cur has_cb healthy prev p =
    let start : Pass = record { prev = prev; cur = p.cur; promoted = false; changes = [] } in
    let total = count_healthy healthy in
    (
      λ x (at, before). (
        second_pass-cur has_cb p.nodes total 0 x healthy start refl (at, before) ∙ zero-add x,
        ground (arith, first-counted healthy x at),
      ),
      λ none_healthy.
          (second_pass-none has_cb p.nodes total 0 healthy start none_healthy, ground arith),
    )
