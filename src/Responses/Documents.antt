-- ===== src/Responses/Documents.antt =====
-- Which documents share a key of the cache of backend/internal/graphql/response_cache.go: cacheKey
-- takes a document's words.
use magic_webb.Base.{
  List, refl, ◌≤◌, All, ℕ, ◌+◌, ◌<◌, ◌≡◌, sym, ap, ◌∙◌, arith, true, some, ◌∷◌, ◌++◌, Bytes,
  bytes_eq, ltb, leb, Bool-cases, inl, inr, lookup, length, lookup-insert, eqb_refl, hex,
}
use magic_webb.Responses.Bounds.{CacheStep}
use magic_webb.Responses.Keeping.{IsHeld, cache_from, count_ends, IsQuiet, cache_from-IsHeld}
use magic_webb.Responses.{
  OperationContext, CachedResponse, ResponseCache, evict_one, intercept, store_response, cached_at,
  finish, cache_key, is_cacheable, operation_ttl, max_cache_entries, fields, join,
}

lookup-store_response :
    (k : Bytes) (v : CachedResponse) (c : ResponseCache)
    → lookup k (store_response k v c).store ≡ some v
lookup-store_response k v c = elim (Bool-cases (leb max_cache_entries (length c.store))) [
  | inl t ↦ rw t (lookup-insert k k v (evict_one c.store) ∙ rw (eqb_refl k))
  | inr f ↦ rw f (lookup-insert k k v c.store ∙ rw (eqb_refl k))
]

cache_key_words :
    (sha : Bytes → Bytes) (oc oc' : OperationContext)
    → fields oc.raw_query ≡ fields oc'.raw_query
    → oc.operation_name ≡ oc'.operation_name
    → oc.variables ≡ oc'.variables
    → cache_key sha oc ≡ cache_key sha oc'
unfolding cache_key
cache_key_words sha oc oc' words name vars =
    ap (λ ws. hex (sha (join ws ++ 0 ∷ (oc.operation_name ++ oc.variables)))) words
    ∙ ap (λ n. hex (sha (join (fields oc'.raw_query) ++ 0 ∷ (n ++ oc.variables)))) name
    ∙ ap (λ n. hex (sha (join (fields oc'.raw_query) ++ 0 ∷ (oc'.operation_name ++ n)))) vars

-- After an operation has ended without an error, its response is what the cache serves to any
-- operation with the same name and the same variables whose document has the same words, for the time
-- to live of the first: whatever has happened in between, if no other operation with this key has
-- ended, no sweep has run after that time, and the entries then stored and the operations that have
-- ended since are at most 500, so that none is evicted. So a document that differs only in the white
-- space inside of a string, or in the line that ends a comment, is served the other's response.
pub intercept-finish :
    (sha : Bytes → Bytes) (oc oc' : OperationContext) (b : Bytes) (at now touched : ℕ)
    (before : ResponseCache) (since : List CacheStep)
    → is_cacheable oc ≡ true
    → is_cacheable oc' ≡ true
    → fields oc.raw_query ≡ fields oc'.raw_query
    → oc.operation_name ≡ oc'.operation_name
    → oc.variables ≡ oc'.variables
    → let stored = finish sha oc (some (record { errors = 0; payload = some b })) at before in
      length stored.store + count_ends sha since ≤ 500
      → All (IsQuiet sha (cache_key sha oc) (at + operation_ttl oc)) since
      → now < at + operation_ttl oc
      → (intercept sha oc' now touched (cache_from sha since stored)).1 ≡ some b
unfolding intercept finish
intercept-finish sha oc oc' b at now touched before since ok ok' words name vars room quiet soon =
    let k = cache_key sha oc in
    let until = at + operation_ttl oc in
    let v = cached_at oc at b in
    let stored = finish sha oc (some (record { errors = 0; payload = some b })) at before in
    let held : IsHeld k b until stored = rw ok (v, lookup-store_response k v before, refl, refl) in
    let ((w, e, p, x), few) = cache_from-IsHeld sha k b until since stored quiet room held in
    let fresh : ltb now w.expires_at ≡ true = ground (arith, soon, x) in
    rw (ok', sym (cache_key_words sha oc oc' words name vars), e, fresh) (ap some p)
