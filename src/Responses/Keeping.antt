-- ===== src/Responses/Keeping.antt =====
-- How long the cache of backend/internal/graphql/response_cache.go keeps a response, whatever other
-- operations do in the meantime.
use magic_webb.Base.{
  ℕ, ◌+◌, ◌≤◌, ◌≡◌, refl, sym, ap, ◌∙◌, subst, ◌⊎◌, inl, inr, arith, Bool, false, Option, none,
  some, List, [], ◌∷◌, Bytes, bytes_eq, bytes_eqb, bytes_eqb_iff, GoMap, ltb, leb, nat_eqb,
  Bool-cases, Option-cases, lookup, delete_where, length, lookup-insert, length-insert-le,
  length-insert_present, eqb_refl, All,
}
use magic_webb.Responses.{
  OperationContext, CachedResponse, ResponseCache, Response, evict, checked, intercept,
  store_response, cached_at, finish, cache_key, is_cacheable, max_cache_entries,
}
use magic_webb.Responses.Bounds.{
  CacheStep, arrives, ends, sweeps, cache_step, length-delete_where-le,
}

lookup-delete_where_kept :
    (p : Bytes → CachedResponse → Bool) (k : Bytes) (v : CachedResponse)
    (m : GoMap Bytes CachedResponse)
    → lookup k m ≡ some v
    → p k v ≡ false
    → lookup k (delete_where p m) ≡ some v
unfolding lookup delete_where
lookup-delete_where_kept p k v [] e h = absurd (cc e)
lookup-delete_where_kept p k v ((j, w) ∷ m) e h =
    ground (arith, bytes_eqb_iff j k, ap (λ i. p i w), lookup-delete_where_kept p k v m)

-- The key holds these data, until this time.
abbrev pub IsHeld : Bytes → Bytes → ℕ → ResponseCache → Type 0
IsHeld k b until c =
    (v : CachedResponse) × (lookup k c.store ≡ some v) × (v.payload ≡ b) × (v.expires_at ≡ until)

module _ (k b : Bytes) (until : ℕ) where
  checked_own :
      (now touched : ℕ) (c : ResponseCache)
      → IsHeld k b until c
      → IsHeld k b until (checked k now touched (lookup k c.store) c).0
  checked_own now touched c (v, e, p, x) = elim (Bool-cases (ltb now v.expires_at)) [
    | inr f ↦ rw (e, f) (v, e, p, x)
    | inl t ↦
        let w = record v { last_accessed = touched } in
        rw (e, t) (w, lookup-insert k k w c.store ∙ rw (eqb_refl k) refl, p, x)
  ]

  checked_other :
      (key : Bytes) (now touched : ℕ) (o : Option CachedResponse) (c : ResponseCache)
      → bytes_eqb key k ≡ false
      → IsHeld k b until c
      → IsHeld k b until (checked key now touched o c).0
  checked_other key now touched none c other h = h
  checked_other key now touched (some w) c other (v, e, p, x) =
      elim (Bool-cases (ltb now w.expires_at)) [
        | inr f ↦ rw f (v, e, p, x)
        | inl t ↦
            let new = record w { last_accessed = touched } in
            rw t (v, lookup-insert key k new c.store ∙ rw other e, p, x)
      ]

  checked-IsHeld :
      (key : Bytes) (now touched : ℕ) (c : ResponseCache)
      → IsHeld k b until c
      → IsHeld k b until (checked key now touched (lookup key c.store) c).0
  checked-IsHeld key now touched c h = elim (Bool-cases (bytes_eqb key k)) [
    | inr other ↦ checked_other key now touched (lookup key c.store) c other h
    | inl same ↦
        subst (λ i. IsHeld k b until (checked i now touched (lookup i c.store) c).0)
          (sym ((bytes_eqb_iff key k).0 same)) (checked_own now touched c h)
  ]

  store_response-IsHeld :
      (key : Bytes) (w : CachedResponse) (c : ResponseCache)
      → bytes_eqb key k ≡ false
      → leb max_cache_entries (length c.store) ≡ false
      → IsHeld k b until c
      → IsHeld k b until (store_response key w c)
  store_response-IsHeld key w c other room (v, e, p, x) =
      rw room (v, lookup-insert key k w c.store ∙ rw other e, p, x)

length-checked :
    (key : Bytes) (now touched : ℕ) (c : ResponseCache)
    → length (checked key now touched (lookup key c.store) c).0.store ≤ length c.store
length-checked key now touched c = elim (Option-cases (lookup key c.store)) [
  | inl e ↦ rw e (omega arith)
  | inr (v, e) ↦ elim (Bool-cases (ltb now v.expires_at)) [
    | inr f ↦ rw (e, f) (omega arith)
    | inl t ↦
        let w = record v { last_accessed = touched } in
        rw (e, t) (omega (arith, length-insert_present key w v c.store e))
  ]
]

module _ (sha : Bytes → Bytes) where
  -- The rest of the handler stores a response at the operation's key, or nothing.
  finish-cases :
      (oc : OperationContext) (r : Option Response) (now : ℕ) (c : ResponseCache)
      → (finish sha oc r now c ≡ c)
        ⊎ ((w : CachedResponse) × (finish sha oc r now c ≡ store_response (cache_key sha oc) w c))
  unfolding finish
  finish-cases oc none now c = inl refl
  finish-cases oc (some r) now c = elim (Bool-cases (is_cacheable oc)) [
    | inr f ↦ inl (rw f refl)
    | inl t ↦ elim (Option-cases r.payload) [
      | inl e ↦ inl (rw (t, e) refl)
      | inr (b, e) ↦ elim (Bool-cases (nat_eqb r.errors 0)) [
        | inr f ↦ inl (rw (t, e, f) refl)
        | inl z ↦ inr (cached_at oc now b, rw (t, e, z) refl)
      ]
    ]
  ]

  intercept-IsHeld :
      (k b : Bytes) (until : ℕ) (oc : OperationContext) (now touched : ℕ) (c : ResponseCache)
      → IsHeld k b until c
      → IsHeld k b until (intercept sha oc now touched c).0
        × (length (intercept sha oc now touched c).0.store ≤ length c.store)
  unfolding intercept
  intercept-IsHeld k b until oc now touched c h = elim (Bool-cases (is_cacheable oc)) [
    | inr f ↦ rw f (h, omega arith)
    | inl t ↦ rw t (
      checked-IsHeld k b until (cache_key sha oc) now touched c h,
      length-checked (cache_key sha oc) now touched c,
    )
  ]

  -- The cache after a history, whose latest step is its first, from a cache.
  unfoldable pub cache_from : List CacheStep → ResponseCache → ResponseCache
  unfolding cache_step
  cache_from [] c = c
  cache_from (e ∷ past) c = cache_step sha e (cache_from past c)

  abbrev pub count_ends : List CacheStep → ℕ
  count_ends [] = 0
  count_ends (arrives oc now touched ∷ past) = count_ends past
  count_ends (ends oc r now ∷ past) = count_ends past + 1
  count_ends (sweeps now ∷ past) = count_ends past

  -- No operation ends that has this key, and no sweep runs after this time.
  abbrev pub IsQuiet : Bytes → ℕ → CacheStep → Type 0
  IsQuiet k until (arrives oc now touched) = Unit
  IsQuiet k until (ends oc r now) = bytes_eqb (cache_key sha oc) k ≡ false
  IsQuiet k until (sweeps now) = now ≤ until

  -- What is held stays held, and the store has grown by at most one entry for an operation's end.
  pub cache_from-IsHeld :
      (k b : Bytes) (until : ℕ) (past : List CacheStep) (c : ResponseCache)
      → All (IsQuiet k until) past
      → length c.store + count_ends past ≤ max_cache_entries
      → IsHeld k b until c
      → IsHeld k b until (cache_from past c)
        × (length (cache_from past c).store ≤ length c.store + count_ends past)
  unfolding cache_from evict
  cache_from-IsHeld k b until [] c q room h = (h, omega arith)
  cache_from-IsHeld k b until (arrives oc now touched ∷ past) c (q, qs) room h =
      let now_c = cache_from past c in
      let (held, few) = cache_from-IsHeld k b until past c qs (omega arith) h in
      let (still, no_more) = intercept-IsHeld k b until oc now touched now_c held in
      (still, omega (arith, no_more, few))
  cache_from-IsHeld k b until (ends oc r now ∷ past) c (q, qs) room h =
      let now_c = cache_from past c in
      let (held, few) = cache_from-IsHeld k b until past c qs (omega arith) h in
      let not_full : leb max_cache_entries (length now_c.store) ≡ false = ground (arith, few) in
      elim (finish-cases oc r now now_c) [
        | inl e ↦ rw e (held, omega (arith, few))
        | inr (w, e) ↦ rw e (
          store_response-IsHeld k b until (cache_key sha oc) w now_c q not_full held,
          rw not_full (omega (arith, length-insert-le (cache_key sha oc) w now_c.store, few)),
        )
      ]
  cache_from-IsHeld k b until (sweeps now ∷ past) c (q, qs) room h =
      let now_c = cache_from past c in
      let ((v, e, p, x), few) = cache_from-IsHeld k b until past c qs (omega arith) h in
      let old : Bytes → CachedResponse → Bool = λ j w. ltb w.expires_at now in
      (
        (v, lookup-delete_where_kept old k v now_c.store e (ground (arith, x, q)), p, x),
        omega (arith, length-delete_where-le old now_c.store, few),
      )
