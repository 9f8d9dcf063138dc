-- ===== src/RpcPool/Examples.antt =====
-- Runs of the endpoint pool.
use magic_webb.Base.{
  ℕ, ◌+◌, ◌<◌, ◌≡◌, ◌↔◌, refl, inl, Bool, true, false, some, List, [], ◌∷◌, arith, bytes, lookup,
  All, length, get_elem?,
}
use magic_webb.RpcPool.{Pool, new_pool_with_nodes, is_rate_limited, Reply, value, error, ok, call}
use magic_webb.RpcPool.Failover.{call-reaches}
use magic_webb.RpcPool.Agreement.{
  Arrival, logs, failed, concurrent_filter_logs, Agreed, concurrent_filter_logs_iff,
}
use magic_webb.RpcPool.Health.{was_healthy, or_false, count_healthy, health_cycle}
use magic_webb.RpcPool.Listener.{learn, Agree, HasCount, health_cycle-Agree}

abbrev two : Pool
two = new_pool_with_nodes 2

-- The first endpoint is throttled, the second answers.
abbrev throttled_first : ℕ → Reply ℕ
throttled_first ℕ.zero = error (bytes "429")
throttled_first (ℕ.suc n) = value 12

abbrev never : ℕ → Bool
never i = false

abbrev late : ℕ → ℕ
late i = i + 100

two-cur : two.cur < two.nodes
unfolding new_pool_with_nodes
two-cur = omega arith

two-second : 1 < two.nodes
unfolding new_pool_with_nodes
two-second = omega arith

two-unlimited : is_rate_limited 100 1 two ≡ false
unfolding new_pool_with_nodes is_rate_limited lookup
two-unlimited = refl

call-reaches_example :
    (y : ℕ) × (w : ℕ) × (throttled_first y ≡ value w)
    × ((call throttled_first never late late 100 two).1 ≡ ok w)
    × ((call throttled_first never late late 100 two).0.cur ≡ y)
call-reaches_example =
    call-reaches throttled_first never late late 100 (λ j. refl) (λ j. omega arith) two 1 12 two-cur
      two-second refl (inl two-unlimited)

abbrev own_hash : ℕ → ℕ
own_hash n = n

abbrev arrivals : List (Arrival ℕ)
arrivals = failed ∷ logs (4 ∷ 5 ∷ []) ∷ logs (4 ∷ 5 ∷ []) ∷ []

concurrent_filter_logs_iff_example :
    (concurrent_filter_logs own_hash 3 arrivals ≡ some (4 ∷ 5 ∷ []))
    ↔ Agreed own_hash 3 arrivals (4 ∷ 5 ∷ [])
concurrent_filter_logs_iff_example = concurrent_filter_logs_iff own_hash 3 arrivals (4 ∷ 5 ∷ [])

abbrev probes : List Bool
probes = false ∷ true ∷ []

health_cycle-Agree_example :
    let (q, (after, changes)) = health_cycle true probes [] two in
    Agree (learn changes []) after
    × ((i : ℕ)
        → i < length probes
        → was_healthy i (learn changes []) ≡ or_false (get_elem? probes i))
    × All (HasCount (count_healthy probes)) changes
health_cycle-Agree_example = health_cycle-Agree probes [] [] two (λ i. refl)
