-- ===== src/RpcPool/Health.antt =====
-- healthLoop of backend/internal/rpcpool/pool.go: a cycle on the results of its
-- probes.
use magic_webb.Base.{
  ℕ, ◌+◌, Bool, true, false, not, ◌&&◌, Option, none, some, List, [], ◌∷◌, ◌++◌, if◌then◌else◌,
  nat_eqb, nat_eq, GoMap, lookup, insert,
}
use magic_webb.RpcPool.{Pool}

-- What HealthCallback receives.
pub record Change : Type 0 where
  pub endpoint_idx : ℕ
  pub healthy : Bool
  pub endpoint_count : ℕ
  pub healthy_count : ℕ

-- A read of prevHealthy: a missing key is false.
abbrev pub or_false : Option Bool → Bool
or_false none = false
or_false (some b) = b

unfoldable pub was_healthy : ℕ → GoMap ℕ Bool → Bool
was_healthy idx prev = or_false (lookup idx prev)

-- The first pass: healthyThisCycle.
unfoldable pub count_healthy : List Bool → ℕ
count_healthy [] = 0
count_healthy (h ∷ healthy) = if h then 1 + count_healthy healthy else count_healthy healthy

-- The variables of the second pass, and the callbacks made.
pub record Pass : Type 0 where
  pub prev : GoMap ℕ Bool
  pub cur : ℕ
  pub promoted : Bool
  pub changes : List Change

unfoldable pub differ : Bool → Bool → Bool
differ true b = not b
differ false b = b

-- The second pass's body at `idx`. Nobody else moves the cursor between its read and the swap.
unfoldable pub visit : Bool → ℕ → ℕ → ℕ → Bool → Pass → Pass
unfolding was_healthy differ
visit has_cb n total idx is_healthy s =
    let change : Change = record {
      endpoint_idx = idx;
      healthy = is_healthy;
      endpoint_count = n;
      healthy_count = total;
    } in
    let first = is_healthy && not s.promoted in
    record {
      prev = insert idx is_healthy s.prev;
      cur = if first then idx else s.cur;
      promoted = if first then true else s.promoted;
      changes =
          if differ is_healthy (was_healthy idx s.prev) && has_cb
          then s.changes ++ change ∷ []
          else s.changes;
    }

unfoldable pub second_pass : Bool → ℕ → ℕ → ℕ → List Bool → Pass → Pass
unfolding visit
second_pass has_cb n total idx [] s = s
second_pass has_cb n total idx (h ∷ healthy) s =
    second_pass has_cb n total (idx + 1) healthy (visit has_cb n total idx h s)

-- A cycle, on what the probes found and the previous cycle's map: the pool, the map and the
-- callbacks made.
unfoldable pub health_cycle :
    Bool → List Bool → GoMap ℕ Bool → Pool → Pool × (GoMap ℕ Bool × List Change)
unfolding second_pass count_healthy
health_cycle has_cb healthy prev p =
    let total = count_healthy healthy in
    let start : Pass = record { prev = prev; cur = p.cur; promoted = false; changes = [] } in
    let s = second_pass has_cb p.nodes total 0 healthy start in
    let q : Pool = record p {
      cur = s.cur;
      healthy_count = total;
      degraded_count = if nat_eqb total 0 then p.degraded_count + 1 else 0;
    } in
    (q, (s.prev, s.changes))
