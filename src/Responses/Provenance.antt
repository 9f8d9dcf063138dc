-- ===== src/Responses/Provenance.antt =====
-- Whose answer an operation is served by the cache of backend/internal/graphql/response_cache.go.
use magic_webb.Base.{
  ℕ, ◌+◌, ◌<◌, ◌≡◌, refl, subst, ◌⊎◌, inl, inr, arith, true, Option, none, some, List, [], ◌∷◌,
  Bytes, bytes_eq, GoMap, ltb, leb, nat_eqb, Bool-cases, Option-cases, lookup, length, All,
  All-insert, All-delete_where, All-lookup,
}
use magic_webb.Responses.{
  OperationContext, CachedResponse, ResponseCache, Response, new_response_cache, evict_one, evict,
  checked, intercept, store_response, store_answer, cached_at, finish, cache_key, is_cacheable,
  operation_ttl, max_cache_entries,
}
use magic_webb.Responses.Bounds.{
  CacheStep, arrives, ends, sweeps, cache_step, cache_after, evict_one-All,
}

module _ (sha : Bytes → Bytes) where
  -- A step that ended an operation of the key with these data, without an error, and from which
  -- they may be served until `expires_at`.
  abbrev pub Gives : CacheStep → Bytes → Bytes → ℕ → Type 0
  Gives (arrives oc now touched) key b expires_at = ⊥
  Gives (ends oc none at) key b expires_at = ⊥
  Gives (ends oc (some r) at) key b expires_at =
      (is_cacheable oc ≡ true)
      × (cache_key sha oc ≡ key)
      × (r.errors ≡ 0)
      × (r.payload ≡ some b)
      × (at + operation_ttl oc ≡ expires_at)
  Gives (sweeps now) key b expires_at = ⊥

  abbrev pub GivesBefore : List CacheStep → Bytes → Bytes → ℕ → Type 0
  GivesBefore [] key b expires_at = ⊥
  GivesBefore (e ∷ past) key b expires_at =
      Gives e key b expires_at ⊎ GivesBefore past key b expires_at

  abbrev IsSourced : List CacheStep → Bytes × CachedResponse → Type 0
  IsSourced past (k, v) = GivesBefore past k v.payload v.expires_at

  later-IsSourced :
      (e : CacheStep) (past : List CacheStep) (m : GoMap Bytes CachedResponse)
      → All (IsSourced past) m
      → All (IsSourced (e ∷ past)) m
  later-IsSourced e past [] h = tt
  later-IsSourced e past ((k, v) ∷ m) (p, h) = (inr p, later-IsSourced e past m h)

  checked-IsSourced :
      (past : List CacheStep) (k : Bytes) (now touched : ℕ) (c : ResponseCache)
      → All (IsSourced past) c.store
      → All (IsSourced past) (checked k now touched (lookup k c.store) c).0.store
  checked-IsSourced past k now touched c h = elim (Option-cases (lookup k c.store)) [
    | inl e ↦ rw e h
    | inr (v, e) ↦ elim (Bool-cases (ltb now v.expires_at)) [
      | inr f ↦ rw (e, f) h
      | inl t ↦
          rw (e, t)
            (All-insert (IsSourced past) k (record v { last_accessed = touched }) c.store
              (All-lookup (IsSourced past) k v c.store h e) h)
    ]
  ]

  intercept-IsSourced :
      (past : List CacheStep) (oc : OperationContext) (now touched : ℕ) (c : ResponseCache)
      → All (IsSourced past) c.store
      → All (IsSourced past) (intercept sha oc now touched c).0.store
  unfolding intercept
  intercept-IsSourced past oc now touched c h = elim (Bool-cases (is_cacheable oc)) [
    | inr f ↦ rw f h
    | inl t ↦ rw t (checked-IsSourced past (cache_key sha oc) now touched c h)
  ]

  store_response-IsSourced :
      (past : List CacheStep) (k : Bytes) (v : CachedResponse) (c : ResponseCache)
      → IsSourced past (k, v)
      → All (IsSourced past) c.store
      → All (IsSourced past) (store_response k v c).store
  store_response-IsSourced past k v c p h =
      elim (Bool-cases (leb max_cache_entries (length c.store))) [
        | inl t ↦ rw t (
            All-insert (IsSourced past) k v (evict_one c.store) p
              (evict_one-All (IsSourced past) c.store h))
        | inr f ↦ rw f (All-insert (IsSourced past) k v c.store p h)
      ]

  store_answer-IsSourced :
      (past : List CacheStep) (oc : OperationContext) (at n : ℕ) (o : Option Bytes)
      (c : ResponseCache)
      → ((b : Bytes) → n ≡ 0 → o ≡ some b → IsSourced past (cache_key sha oc, cached_at oc at b))
      → All (IsSourced past) c.store
      → All (IsSourced past) (store_answer sha oc at n o c).store
  store_answer-IsSourced past oc at n none c p h = h
  store_answer-IsSourced past oc at n (some b) c p h = elim (Bool-cases (nat_eqb n 0)) [
    | inr f ↦ rw f h
    | inl z ↦ rw z (
        store_response-IsSourced past (cache_key sha oc) (cached_at oc at b) c
          (p b (ground (arith, z)) refl) h)
  ]

  finish-IsSourced :
      (past : List CacheStep) (oc : OperationContext) (r : Option Response) (at : ℕ)
      (c : ResponseCache)
      → All (IsSourced past) c.store
      → All (IsSourced (ends oc r at ∷ past)) (finish sha oc r at c).store
  unfolding finish
  finish-IsSourced past oc none at c h = later-IsSourced (ends oc none at) past c.store h
  finish-IsSourced past oc (some r) at c h =
      let e = ends oc (some r) at in
      let kept = later-IsSourced e past c.store h in
      elim (Bool-cases (is_cacheable oc)) [
        | inr f ↦ rw f kept
        | inl t ↦ rw t (
            store_answer-IsSourced (e ∷ past) oc at r.errors r.payload c
              (λ b z p. inl (t, refl, z, p, refl)) kept)
      ]

  cache_after-IsSourced :
      (past : List CacheStep) → All (IsSourced past) (cache_after sha past).store
  unfolding cache_after cache_step new_response_cache evict
  cache_after-IsSourced [] = tt
  cache_after-IsSourced (arrives oc now touched ∷ past) =
      let c = cache_after sha past in
      later-IsSourced (arrives oc now touched) past (intercept sha oc now touched c).0.store
        (intercept-IsSourced past oc now touched c (cache_after-IsSourced past))
  cache_after-IsSourced (ends oc r at ∷ past) =
      finish-IsSourced past oc r at (cache_after sha past) (cache_after-IsSourced past)
  cache_after-IsSourced (sweeps now ∷ past) =
      let c = cache_after sha past in
      later-IsSourced (sweeps now) past (evict now c).store (
        All-delete_where (IsSourced past) (λ k v. ltb v.expires_at now) c.store
          (cache_after-IsSourced past))

  -- What a check finds is stored under the key, and not yet stale.
  checked-served :
      (k : Bytes) (now touched : ℕ) (o : Option CachedResponse) (c : ResponseCache) (b : Bytes)
      → (checked k now touched o c).1 ≡ some b
      → (v : CachedResponse) × (o ≡ some v) × (v.payload ≡ b) × (now < v.expires_at)
  checked-served k now touched none c b h = absurd (cc h)
  checked-served k now touched (some v) c b h = elim (Bool-cases (ltb now v.expires_at)) [
    | inl t ↦ let same = rw t at h in (v, refl, cc same, ground (arith, t))
    | inr f ↦ let other = rw f at h in absurd (cc other)
  ]

  -- After any history, interleaved in any way and with any clock, an operation is served from the cache
  -- only what an earlier operation of the same key gave, without an error, less than its own time to live
  -- ago; both are queries that select no notifications, no saved searches and no fragment at
  -- the top.
  pub intercept-GivesBefore :
      (past : List CacheStep) (oc : OperationContext) (now touched : ℕ) (b : Bytes)
      → (intercept sha oc now touched (cache_after sha past)).1 ≡ some b
      → (expires_at : ℕ) × (is_cacheable oc ≡ true)
        × GivesBefore past (cache_key sha oc) b expires_at
        × (now < expires_at)
  unfolding intercept
  intercept-GivesBefore past oc now touched b h = elim (Bool-cases (is_cacheable oc)) [
    | inr f ↦ let other = rw f at h in absurd (cc other)
    | inl t ↦
        let k = cache_key sha oc in
        let c = cache_after sha past in
        let hit : (checked k now touched (lookup k c.store) c).1 ≡ some b = rw t at h in
        let (v, there, same, fresh) = checked-served k now touched (lookup k c.store) c b hit in
        (
          v.expires_at,
          t,
          subst (λ x. GivesBefore past k x v.expires_at) same
              (All-lookup (IsSourced past) k v c.store (cache_after-IsSourced past) there),
          fresh,
        )
  ]
