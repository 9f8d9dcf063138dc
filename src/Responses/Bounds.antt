-- ===== src/Responses/Bounds.antt =====
-- The size of the cache of backend/internal/graphql/response_cache.go, and its histories.
use magic_webb.Base.{
  ℕ, ◌+◌, ◌≤◌, ◌≡◌, refl, sym, ◌∙◌, subst, ◌⊎◌, inl, inr, arith, Bool, false, ◌||◌, Option, none,
  some, List, [], ◌∷◌, Bytes, bytes_eq, bytes_eqb, bytes_eqb_iff, hex, GoMap, ltb, leb, nat_eqb,
  Bool-cases, Option-cases, lookup, delete_where, length, All, All-insert, All-delete,
  All-delete_where, All-lookup, length-insert-le, length-insert_present, length-delete_present,
}
use magic_webb.Responses.{
  OperationContext, CachedResponse, ResponseCache, Response, new_response_cache, older_key,
  oldest_key, evict_one, evict, checked, intercept, store_response, cached_at, finish, cache_key,
  is_cacheable, max_cache_entries,
}

-- A step of the cache: an operation arrives, an operation that was not found ends with its
-- response, or the background eviction runs. Each has its readings of the clock.
pub data CacheStep : Type 0 where
  arrives : OperationContext → ℕ → ℕ → CacheStep
  ends : OperationContext → Option Response → ℕ → CacheStep
  sweeps : ℕ → CacheStep

unfoldable pub cache_step : (Bytes → Bytes) → CacheStep → ResponseCache → ResponseCache
unfolding intercept finish evict
cache_step sha (arrives oc now touched) c = (intercept sha oc now touched c).0
cache_step sha (ends oc r now) c = finish sha oc r now c
cache_step sha (sweeps now) c = evict now c

-- The cache after a history, whose latest step is its first.
unfoldable pub cache_after : (Bytes → Bytes) → List CacheStep → ResponseCache
unfolding cache_step new_response_cache
cache_after sha [] = new_response_cache
cache_after sha (e ∷ past) = cache_step sha e (cache_after sha past)

-- No key is empty, as the hexadecimal digits of a sum are not.
abbrev pub IsNamed : Bytes × CachedResponse → Type 0
IsNamed (k, v) = bytes_eqb k [] ≡ false

pub hex_named : (b : Bytes) → 1 ≤ length b → bytes_eqb (hex b) [] ≡ false
unfolding bytes_eqb
hex_named [] h = absurd (omega (arith, h))
hex_named (a ∷ b) h = refl

abbrev IsKey : GoMap Bytes CachedResponse → Bytes → Type 0
IsKey m k = (v : CachedResponse) × (lookup k m ≡ some v)

IsKey-tail :
    (k : Bytes) (j : Bytes) (w : CachedResponse) (m : GoMap Bytes CachedResponse)
    → IsKey m k
    → IsKey ((j, w) ∷ m) k
unfolding lookup
IsKey-tail k j w m (v, h) = elim (Bool-cases (bytes_eqb j k)) [
  | inl e ↦ (w, rw e)
  | inr e ↦ (v, rw e h)
]

IsKey-head :
    (j : Bytes) (w : CachedResponse) (m : GoMap Bytes CachedResponse) → IsKey ((j, w) ∷ m) j
unfolding lookup
IsKey-head j w m = (w, rw ((bytes_eqb_iff j j).1 refl))

older_key_either :
    (best : Bytes × ℕ) (j : Bytes) (w : CachedResponse)
    → ((older_key best j w).0 ≡ j) ⊎ ((older_key best j w).0 ≡ best.0)
older_key_either (k, n) j w = elim (Bool-cases (bytes_eqb k [] || ltb w.last_accessed n)) [
  | inl t ↦ inl (rw t)
  | inr f ↦ inr (rw f)
]

-- The search keeps the key that it has, or finds one of the map.
oldest_key-found :
    (m : GoMap Bytes CachedResponse) (best : Bytes × ℕ)
    → ((oldest_key m best).0 ≡ best.0) ⊎ IsKey m (oldest_key m best).0
unfolding oldest_key
oldest_key-found [] best = inl refl
oldest_key-found ((j, w) ∷ m) best = elim (oldest_key-found m (older_key best j w)) [
  | inr h ↦ inr (IsKey-tail _ j w m h)
  | inl e ↦ elim (older_key_either best j w) [
    | inl e' ↦ inr (subst (IsKey ((j, w) ∷ m)) (sym (e ∙ e')) (IsKey-head j w m))
    | inr e' ↦ inl (e ∙ e')
  ]
]

-- In a map that is not empty it finds one.
oldest_key-IsKey :
    (j : Bytes) (w : CachedResponse) (m : GoMap Bytes CachedResponse)
    → IsKey ((j, w) ∷ m) (oldest_key ((j, w) ∷ m) ([], 0)).0
unfolding oldest_key bytes_eqb
oldest_key-IsKey j w m = elim (oldest_key-found m (j, w.last_accessed)) [
  | inl e ↦ subst (IsKey ((j, w) ∷ m)) (sym e) (IsKey-head j w m)
  | inr h ↦ IsKey-tail _ j w m h
]

-- Evicting one from a map with named keys leaves fewer than its entries.
length-evict_one-lt :
    (m : GoMap Bytes CachedResponse)
    → All IsNamed m
    → 1 ≤ length m
    → length (evict_one m) + 1 ≤ length m
unfolding evict_one
length-evict_one-lt [] named h = absurd (omega (arith, h))
length-evict_one-lt ((j, w) ∷ m) named h =
    let store = (j, w) ∷ m in
    let k = (oldest_key store ([], 0)).0 in
    let (v, there) = oldest_key-IsKey j w m in
    rw (All-lookup IsNamed k v store named there) (length-delete_present k v store there)

pub evict_one-All :
    (P : Bytes × CachedResponse → Type 0) (m : GoMap Bytes CachedResponse)
    → All P m
    → All P (evict_one m)
unfolding evict_one
evict_one-All P m h = elim (Bool-cases (bytes_eqb (oldest_key m ([], 0)).0 [])) [
  | inl t ↦ rw t h
  | inr f ↦ rw f (All-delete P (oldest_key m ([], 0)).0 m h)
]

pub length-delete_where-le :
    (p : Bytes → CachedResponse → Bool) (m : GoMap Bytes CachedResponse)
    → length (delete_where p m) ≤ length m
unfolding delete_where
length-delete_where-le p [] = omega arith
length-delete_where-le p ((j, w) ∷ m) = ground (arith, length-delete_where-le p m)

abbrev IsBounded : GoMap Bytes CachedResponse → Type 0
IsBounded m = (length m ≤ max_cache_entries) × All IsNamed m

store_response-IsBounded :
    (k : Bytes) (v : CachedResponse) (c : ResponseCache)
    → bytes_eqb k [] ≡ false
    → IsBounded c.store
    → IsBounded (store_response k v c).store
store_response-IsBounded k v c named (h, all) =
    elim (Bool-cases (leb max_cache_entries (length c.store))) [
      | inl full ↦
          let rest = evict_one c.store in
          let fewer = length-evict_one-lt c.store all (ground (arith, full)) in
          rw full (
            omega (arith, length-insert-le k v rest, fewer, h),
            All-insert IsNamed k v rest named (evict_one-All IsNamed c.store all),
          )
      | inr room ↦
          let few : length c.store + 1 ≤ max_cache_entries = ground (arith, room) in
          rw room (
            omega (arith, length-insert-le k v c.store, few),
            All-insert IsNamed k v c.store named all,
          )
    ]

checked-IsBounded :
    (k : Bytes) (now touched : ℕ) (c : ResponseCache)
    → bytes_eqb k [] ≡ false
    → IsBounded c.store
    → IsBounded (checked k now touched (lookup k c.store) c).0.store
checked-IsBounded k now touched c named (h, all) = elim (Option-cases (lookup k c.store)) [
  | inl e ↦ rw e (h, all)
  | inr (v, e) ↦ elim (Bool-cases (ltb now v.expires_at)) [
    | inr f ↦ rw (e, f) (h, all)
    | inl t ↦
        let w = record v { last_accessed = touched } in
        rw (e, t)
          (
            omega (arith, h, length-insert_present k w v c.store e),
            All-insert IsNamed k w c.store named all,
          )
  ]
]

module _ (sha : Bytes → Bytes) (sum_size : (b : Bytes) → length (sha b) ≡ 32) where
  cache_key_named : (oc : OperationContext) → bytes_eqb (cache_key sha oc) [] ≡ false
  unfolding cache_key
  cache_key_named oc = hex_named _ (omega (arith, sum_size _))

  finish-IsBounded :
      (oc : OperationContext) (r : Option Response) (now : ℕ) (c : ResponseCache)
      → IsBounded c.store
      → IsBounded (finish sha oc r now c).store
  unfolding finish
  finish-IsBounded oc none now c h = h
  finish-IsBounded oc (some r) now c h = elim (Bool-cases (is_cacheable oc)) [
    | inr f ↦ rw f h
    | inl t ↦ elim (Option-cases r.payload) [
      | inl e ↦ rw (t, e) h
      | inr (b, e) ↦ elim (Bool-cases (nat_eqb r.errors 0)) [
        | inr f ↦ rw (t, e, f) h
        | inl z ↦
            rw (t, e, z)
              (store_response-IsBounded (cache_key sha oc) (cached_at oc now b) c
                (cache_key_named oc) h)
      ]
    ]
  ]

  intercept-IsBounded :
      (oc : OperationContext) (now touched : ℕ) (c : ResponseCache)
      → IsBounded c.store
      → IsBounded (intercept sha oc now touched c).0.store
  unfolding intercept
  intercept-IsBounded oc now touched c h = elim (Bool-cases (is_cacheable oc)) [
    | inr f ↦ rw f h
    | inl t ↦ rw t (checked-IsBounded (cache_key sha oc) now touched c (cache_key_named oc) h)
  ]

  cache_step-IsBounded :
      (e : CacheStep) (c : ResponseCache) → IsBounded c.store → IsBounded (cache_step sha e c).store
  unfolding cache_step evict
  cache_step-IsBounded (arrives oc now touched) c h = intercept-IsBounded oc now touched c h
  cache_step-IsBounded (ends oc r now) c h = finish-IsBounded oc r now c h
  cache_step-IsBounded (sweeps now) c (h, all) = (
    omega (arith, h, length-delete_where-le (λ k v. ltb v.expires_at now) c.store),
    All-delete_where IsNamed (λ k v. ltb v.expires_at now) c.store all,
  )

  cache_after-IsBounded : (past : List CacheStep) → IsBounded (cache_after sha past).store
  unfolding cache_after new_response_cache
  cache_after-IsBounded [] = (omega arith, tt)
  cache_after-IsBounded (e ∷ past) =
      cache_step-IsBounded e (cache_after sha past) (cache_after-IsBounded past)

  -- Where the sums have the 32 bytes of SHA-256: after any history of arriving operations, ending
  -- operations and sweeps, interleaved in any way and with any clock, at most 500 responses are stored.
  pub cache_after-bounded : (past : List CacheStep) → length (cache_after sha past).store ≤ 500
  cache_after-bounded past = (cache_after-IsBounded past).0
