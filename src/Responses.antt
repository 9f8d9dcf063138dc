-- ===== src/Responses.antt =====
-- The cache of GraphQL answers: backend/internal/graphql/response_cache.go. Times are nanoseconds, the
-- text of a document is ASCII, and `sha` stands for the sum of crypto/sha256. Variables are the JSON
-- that json.Marshal gives, or nothing where there are none.
use magic_webb.Base.{
  ℕ, ◌+◌, ◌*◌, Bool, true, false, not, ◌&&◌, ◌||◌, Option, none, some, List, [], ◌∷◌, ◌++◌, Bytes,
  bytes, bytes_eq, bytes_eqb, hex, GoMap, ltb, leb, nat_eqb, if◌then◌else◌, lookup, insert, delete,
  delete_where, length,
}
pub mod Bounds
pub mod Keeping
pub mod Provenance
pub mod Documents
mod Examples

-- A selection of an operation: a field with its name, or a fragment.
pub data Selection : Type 0 where
  field : Bytes → Selection
  fragment : Selection

-- ast.Operation of gqlparser.
pub data Kind : Type 0 where
  query mutation subscription : Kind

pub record Operation : Type 0 where
  pub kind : Kind
  pub selection_set : List Selection

pub record OperationContext : Type 0 where
  pub raw_query : Bytes
  pub operation_name : Bytes
  pub variables : Bytes
  pub operation : Option Operation

abbrev pub second : ℕ
second = 1000000000

abbrev pub ttl_slow : ℕ
ttl_slow = 60 * second

abbrev pub ttl_medium : ℕ
ttl_medium = 30 * second

abbrev pub ttl_fast : ℕ
ttl_fast = 15 * second

abbrev pub ttl_default : ℕ
ttl_default = 15 * second

abbrev pub max_cache_entries : ℕ
max_cache_entries = 500

abbrev pub is_one_of : List Bytes → Bytes → Bool
is_one_of [] name = false
is_one_of (b ∷ bs) name = bytes_eqb b name || is_one_of bs name

unfoldable pub ttl_for_field : Bytes → ℕ
ttl_for_field name =
    if is_one_of (bytes "metrics" ∷ bytes "collectionStats" ∷ bytes "collection" ∷ []) name
    then ttl_slow
    else if is_one_of (bytes "collections" ∷ bytes "trending" ∷ []) name
    then ttl_medium
    else if is_one_of
        (bytes "listings"
          ∷ bytes "listing"
          ∷ bytes "auctions"
          ∷ bytes "auction"
          ∷ bytes "activity"
          ∷ bytes "search"
          ∷ [])
        name
    then ttl_fast
    else ttl_default

-- The loop over the selections, from the shortest time so far.
unfoldable pub min_ttl : List Selection → ℕ → ℕ
unfolding ttl_for_field
min_ttl [] least = least
min_ttl (fragment ∷ sels) least = min_ttl sels least
min_ttl (field name ∷ sels) least =
    let ttl = ttl_for_field name in min_ttl sels (if ltb ttl least then ttl else least)

unfoldable pub operation_ttl : OperationContext → ℕ
unfolding min_ttl
operation_ttl oc = elim oc.operation [
  | none ↦ ttl_default
  | some op ↦ min_ttl op.selection_set ttl_slow
]

unfoldable pub has_user_scoped_field : List Selection → Bool
has_user_scoped_field [] = false
has_user_scoped_field (fragment ∷ sels) = true
has_user_scoped_field (field name ∷ sels) =
    is_one_of (bytes "notifications" ∷ bytes "savedSearches" ∷ []) name
    || has_user_scoped_field sels

abbrev pub is_query_kind : Kind → Bool
is_query_kind query = true
is_query_kind mutation = false
is_query_kind subscription = false

-- The guards of InterceptOperation: an operation that passes none of them does not touch the cache.
unfoldable pub is_cacheable : OperationContext → Bool
unfolding has_user_scoped_field
is_cacheable oc = elim oc.operation [
  | none ↦ false
  | some op ↦ is_query_kind op.kind && not (has_user_scoped_field op.selection_set)
]

-- unicode.IsSpace of ASCII.
abbrev pub is_space : ℕ → Bool
is_space b = nat_eqb b 32 || (leb 9 b && leb b 13)

abbrev pub push_byte : ℕ → List Bytes → List Bytes
push_byte b [] = (b ∷ []) ∷ []
push_byte b (w ∷ ws) = (b ∷ w) ∷ ws

-- Whether a word begins here.
abbrev pub begins_word : Bytes → Bool
begins_word [] = false
begins_word (b ∷ s) = not (is_space b)

-- strings.Fields
unfoldable pub fields : Bytes → List Bytes
fields [] = []
fields (b ∷ s) =
    let rest = fields s in
    if is_space b then rest else if begins_word s then push_byte b rest else (b ∷ []) ∷ rest

-- strings.Join with a space.
abbrev pub join : List Bytes → Bytes
join [] = []
join (w ∷ []) = w
join (w ∷ v ∷ ws) = w ++ 32 ∷ join (v ∷ ws)

unfoldable pub cache_key : (Bytes → Bytes) → OperationContext → Bytes
unfolding fields
cache_key sha oc = hex (sha (join (fields oc.raw_query) ++ 0 ∷ (oc.operation_name ++ oc.variables)))

-- `cacheEntry` of response_cache.go.
pub record CachedResponse : Type 0 where
  pub payload : Bytes
  pub expires_at : ℕ
  pub last_accessed : ℕ

pub record ResponseCache : Type 0 where
  pub store : GoMap Bytes CachedResponse
  pub hits : ℕ
  pub misses : ℕ
  pub sets : ℕ
  pub evictions : ℕ

-- graphql.Response: the number of its errors, and its data.
pub record Response : Type 0 where
  pub errors : ℕ
  pub payload : Option Bytes

unfoldable pub new_response_cache : ResponseCache
new_response_cache = record { store = []; hits = 0; misses = 0; sets = 0; evictions = 0 }

-- The body of the loop of evictOneLocked; the empty key is none.
abbrev pub older_key : Bytes × ℕ → Bytes → CachedResponse → Bytes × ℕ
older_key (k, n) j v =
    if bytes_eqb k [] || ltb v.last_accessed n then (j, v.last_accessed) else (k, n)

unfoldable pub oldest_key : GoMap Bytes CachedResponse → Bytes × ℕ → Bytes × ℕ
oldest_key [] best = best
oldest_key ((j, v) ∷ m) best = oldest_key m (older_key best j v)

unfoldable pub evict_one : GoMap Bytes CachedResponse → GoMap Bytes CachedResponse
unfolding oldest_key delete
evict_one m = let k = (oldest_key m ([], 0)).0 in if bytes_eqb k [] then m else delete k m

-- The background eviction.
unfoldable pub evict : ℕ → ResponseCache → ResponseCache
unfolding delete_where
evict now c = record c { store = delete_where (λ k v. ltb v.expires_at now) c.store }

-- What the check of the cache finds.
abbrev pub checked :
    Bytes → ℕ → ℕ → Option CachedResponse → ResponseCache → ResponseCache × Option Bytes
checked key now touched none c = (record c { misses = c.misses + 1 }, none)
checked key now touched (some v) c =
    if ltb now v.expires_at
    then (
      record c {
        store = insert key (record v { last_accessed = touched }) c.store;
        hits = c.hits + 1;
      },
      some v.payload,
    )
    else (record c { misses = c.misses + 1 }, none)

-- InterceptOperation up to its answer: the data of a hit, or `none` where the operation is run.
-- `now` and `touched` are the two readings of the clock.
unfoldable pub intercept :
    (Bytes → Bytes) → OperationContext → ℕ → ℕ → ResponseCache → ResponseCache × Option Bytes
unfolding is_cacheable cache_key lookup insert
intercept sha oc now touched c =
    let key = cache_key sha oc in
    if is_cacheable oc then checked key now touched (lookup key c.store) c else (c, none)

-- Of the handler that is returned on a miss: data without an error are stored.
abbrev pub store_response : Bytes → CachedResponse → ResponseCache → ResponseCache
store_response key v c =
    let full = leb max_cache_entries (length c.store) in
    record c {
      store = insert key v (if full then evict_one c.store else c.store);
      sets = c.sets + 1;
      evictions = if full then c.evictions + 1 else c.evictions;
    }

abbrev pub cached_at : OperationContext → ℕ → Bytes → CachedResponse
cached_at oc now b = record {
  payload = b;
  expires_at = now + operation_ttl oc;
  last_accessed = now;
}

-- The rest of that handler, with what the operation's own handler answers.
abbrev pub store_answer :
    (Bytes → Bytes) → OperationContext → ℕ → ℕ → Option Bytes → ResponseCache → ResponseCache
store_answer sha oc now n none c = c
store_answer sha oc now n (some b) c =
    if nat_eqb n 0 then store_response (cache_key sha oc) (cached_at oc now b) c else c

unfoldable pub finish :
    (Bytes → Bytes) → OperationContext → Option Response → ℕ → ResponseCache → ResponseCache
unfolding is_cacheable cache_key operation_ttl evict_one insert
finish sha oc none now c = c
finish sha oc (some r) now c =
    if is_cacheable oc then store_answer sha oc now r.errors r.payload c else c
