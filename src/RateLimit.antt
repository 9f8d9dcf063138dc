-- ===== src/RateLimit.antt =====
-- The rate limiter: backend/internal/ratelimit/memory.go. The in-memory sliding window, and the
-- shared fixed window over the table rate_limits. Instants and durations are microseconds; limits
-- and windows are not negative. Each reading of the clock is an argument of its own.
use magic_webb.Base.{
  ℕ, ◌+◌, ◌-◌, ◌*◌, ◌%◌, Bool, true, false, Option, none, some, List, [], ◌∷◌, ◌++◌, Bytes,
  bytes_eq, bytes_nat_eq, GoMap, ltb, leb, if◌then◌else◌, lookup, insert, delete_where, length,
  keep,
}
pub mod Calls
pub mod Tracking
pub mod Sliding
pub mod Fixed
pub mod Middleware
mod Examples

-- l.windows: the timestamps of each key's admitted requests.
abbrev pub Windows : Type 0
Windows = GoMap Bytes (List ℕ)

abbrev pub timestamps : Option (List ℕ) → List ℕ
timestamps none = []
timestamps (some ts) = ts

-- `ts >= cutoff`, where cutoff is `now - window`; the sum keeps it exact below the epoch.
abbrev pub in_window : ℕ → ℕ → ℕ → Bool
in_window now window ts = leb now (ts + window)

-- `now` is the reading that is recorded, `now'` the one that the cutoff is taken from.
unfoldable pub allow_mem : Windows → Bytes → ℕ → ℕ → ℕ → ℕ → Windows × Bool
allow_mem l key limit window now now' =
    let fresh = keep (in_window now' window) (timestamps (lookup key l)) in
    if leb limit (length fresh)
    then (insert key fresh l, false)
    else (insert key (fresh ++ now ∷ []) l, true)

-- `limit - n`, and 0 where that is negative.
unfoldable pub remaining_mem : Windows → Bytes → ℕ → ℕ → ℕ → ℕ
remaining_mem l key limit window now = elim (lookup key l) [
  | none ↦ limit
  | some ts ↦ limit - length (keep (in_window now window) ts)
]

-- time.Now().Add(-5 * time.Minute)
abbrev pub idle_after : ℕ
idle_after = 5 * 60 * 1000000

abbrev pub last_before : ℕ → List ℕ → Bool
last_before now [] = true
last_before now (t ∷ []) = ltb (t + idle_after) now
last_before now (t ∷ u ∷ ts) = last_before now (u ∷ ts)

unfoldable pub cleanup : Windows → ℕ → Windows
cleanup l now = delete_where (λ _ ts. last_before now ts) l

-- The table rate_limits: a counter for each pair of a key and a window start.
abbrev pub Counters : Type 0
Counters = GoMap (Bytes × ℕ) ℕ

-- time.Now().Truncate(window)
unfoldable pub window_start : ℕ → ℕ → ℕ
window_start now window = if leb window 0 then now else now - now % window

abbrev pub count_or_zero : Option ℕ → ℕ
count_or_zero none = 0
count_or_zero (some n) = n

-- The upsert returns the new count; a failed query refuses the request and counts nothing.
unfoldable pub allow_pg : Bool → Counters → Bytes → ℕ → ℕ → ℕ → Counters × Bool
allow_pg query_fails t key limit window now =
    let row : Bytes × ℕ = (key, window_start now window) in
    let count = count_or_zero (lookup row t) + 1 in
    if query_fails then (t, false) else (insert row count t, leb count limit)

unfoldable pub remaining_pg : Bool → Counters → Bytes → ℕ → ℕ → ℕ → ℕ
remaining_pg query_fails t key limit window now =
    if query_fails then 0 else elim (lookup (key, window_start now window) t) [
      | none ↦ limit
      | some count ↦ limit - count
    ]

-- DELETE FROM rate_limits WHERE window_start < now() - interval '1 hour'
unfoldable pub sweep_pg : Bool → Counters → ℕ → Counters
sweep_pg query_fails t now =
    if query_fails then t else delete_where (λ row _. ltb (row.1 + 60 * 60 * 1000000) now) t
