-- ===== src/Cache.antt =====
-- The in-memory cache of API answers: backend/internal/cache/cache.go. `D` is the type of the data;
-- the operations run one after another.
use magic_webb.Base.{
  ℕ, ◌+◌, Bool, true, false, Option, none, some, List, [], ◌∷◌, Bytes, bytes_eq, GoMap, ltb,
  if◌then◌else◌, lookup, insert, delete, length,
}
pub mod Counters
pub mod Eviction
mod Examples

-- `entry` of cache.go.
pub record CacheEntry (D : Type 0) : Type 0 where
  pub payload : D
  pub expires_at : ℕ

pub record Cache (D : Type 0) : Type 0 where
  pub items : GoMap Bytes (CacheEntry D)
  pub ttl : ℕ
  pub hits : ℕ
  pub misses : ℕ
  pub sets : ℕ
  pub evictions : ℕ

-- What the read and the test of the deadline find.
pub data Lookup (D : Type 0) : Type 0 where
  absent : Lookup D
  stale : Lookup D
  fresh : D → Lookup D

module _ {D : Type 0} where
  abbrev pub look : ℕ → Option (CacheEntry D) → Lookup D
  look now none = absent
  look now (some e) = if ltb e.expires_at now then stale else fresh e.payload

  unfoldable pub new : ℕ → Cache D
  new ttl = record { items = []; ttl = ttl; hits = 0; misses = 0; sets = 0; evictions = 0 }

  abbrev pub finish_get : Bytes → Lookup D → Cache D → Cache D × Option D
  finish_get key absent c = (record c { misses = c.misses + 1 }, none)
  finish_get key stale c = (
    record c { items = delete key c.items; misses = c.misses + 1; evictions = c.evictions + 1 },
    none,
  )
  finish_get key (fresh d) c = (record c { hits = c.hits + 1 }, some d)

  unfoldable pub get : Bytes → ℕ → Cache D → Cache D × Option D
  unfolding lookup delete
  get key now c = finish_get key (look now (lookup key c.items)) c

  unfoldable pub put : Bytes → D → ℕ → Cache D → Cache D
  unfolding insert
  put key d now c = record c {
    items = insert key (record { payload = d; expires_at = now + c.ttl }) c.items;
    sets = c.sets + 1;
  }

  unfoldable pub clear : Cache D → Cache D
  clear c = record c { items = [] }

  unfoldable pub count : Cache D → ℕ
  count c = length c.items

  -- The loop of Warm. The order of the items is that of the range over the map.
  unfoldable pub put_all :
      List (Bytes × D) → ℕ → GoMap Bytes (CacheEntry D) → GoMap Bytes (CacheEntry D)
  unfolding insert
  put_all [] expiry m = m
  put_all ((k, v) ∷ items) expiry m =
      put_all items expiry (insert k (record { payload = v; expires_at = expiry }) m)

  unfoldable pub warm : List (Bytes × D) → ℕ → Cache D → Cache D
  unfolding put_all
  warm items now c = record c { items = put_all items (now + c.ttl) c.items }
