-- ===== src/Cache/Counters.antt =====
-- The counters of backend/internal/cache/cache.go over a history of operations.
use magic_webb.Base.{
  ℕ, suc, ◌+◌, ◌≤◌, ◌≡◌, Option, none, some, List, [], ◌∷◌, arith, Bytes, bytes_eq, lookup,
}
use magic_webb.Cache.{Cache, Lookup, absent, stale, fresh, look, finish_get, get, put, clear, warm}
use magic_webb.Cache.Eviction.{Request, gets, puts, clears, warms, serve}

module _ {D : Type 0} where
  abbrev pub answered : List (Option D) → ℕ
  answered [] = 0
  answered (none ∷ xs) = answered xs
  answered (some d ∷ xs) = suc (answered xs)

  abbrev pub unanswered : List (Option D) → ℕ
  unanswered [] = 0
  unanswered (none ∷ xs) = suc (unanswered xs)
  unanswered (some d ∷ xs) = unanswered xs

  abbrev pub writes : List (Request D) → ℕ
  writes [] = 0
  writes (gets key now ∷ rs) = writes rs
  writes (puts key d now ∷ rs) = suc (writes rs)
  writes (clears ∷ rs) = writes rs
  writes (warms items now ∷ rs) = writes rs

  -- The counters have grown from those of `c` by what the answers and requests tell.
  abbrev pub Tallied : List (Request D) → Cache D → List (Option D) × Cache D → Type 0
  Tallied rs c (xs, c') =
      (c'.hits ≡ c.hits + answered xs)
      × ((c'.misses ≡ c.misses + unanswered xs)
          × ((c'.sets ≡ c.sets + writes rs)
              × ((c.evictions ≤ c'.evictions) × (c'.evictions ≤ c.evictions + unanswered xs))))

  finish_get-Tallied :
      (rs : List (Request D)) (key : Bytes) (now : ℕ) (l : Lookup D) (c : Cache D)
      (r : List (Option D) × Cache D)
      → Tallied rs (finish_get key l c).0 r
      → Tallied (gets key now ∷ rs) c ((finish_get key l c).1 ∷ r.0, r.1)
  finish_get-Tallied rs key now absent c (xs, c') h = ground arith
  finish_get-Tallied rs key now stale c (xs, c') h = ground arith
  finish_get-Tallied rs key now (fresh d) c (xs, c') h = ground arith

  -- Over any history of operations on any cache, Hits grows by the number of gets that are answered,
  -- Misses by that of the gets that are not, Sets by the number of Sets (Warm counts none), and
  -- Evictions by no more than Misses does.
  pub serve-Tallied : (rs : List (Request D)) (c : Cache D) → Tallied rs c (serve rs c)
  unfolding serve get put clear warm
  serve-Tallied [] c = ground arith
  serve-Tallied (gets key now ∷ rs) c =
      let l = look now (lookup key c.items) in
      finish_get-Tallied rs key now l c (serve rs (finish_get key l c).0)
        (serve-Tallied rs (finish_get key l c).0)
  serve-Tallied (puts key d now ∷ rs) c = let h = serve-Tallied rs (put key d now c) in ground arith
  serve-Tallied (clears ∷ rs) c = serve-Tallied rs (clear c)
  serve-Tallied (warms items now ∷ rs) c = serve-Tallied rs (warm items now c)
