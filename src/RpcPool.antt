-- ===== src/RpcPool.antt =====
-- The failover pool of RPC endpoints: backend/internal/rpcpool/pool.go. An endpoint is its index;
-- what the endpoints answer is an argument. Instants are milliseconds. Other callers of the pool
-- do not run in the middle of a call.
use magic_webb.Base.{
  ℕ, zero, suc, ◌+◌, ◌%◌, Bool, true, false, not, ◌&&◌, ◌||◌, Option, none, some, List, [], ◌∷◌,
  Bytes, bytes, bytes_eqb, contains, nat_eq, nat_eqb, GoMap, lookup, insert, ltb, leb,
  if◌then◌else◌, length,
}
pub mod Rounds
pub mod Failover
pub mod Health
pub mod Listener
pub mod Cursor
pub mod Agreement
mod Examples

pub record Pool : Type 0 where
  pub nodes : ℕ
  pub cur : ℕ
  pub rate_limited : GoMap ℕ ℕ
  pub healthy_count : ℕ
  pub degraded_count : ℕ

abbrev pub rate_limit_backoff : ℕ
rate_limit_backoff = 30000

unfoldable pub new_pool_with_nodes : ℕ → Pool
new_pool_with_nodes n = record {
  nodes = n;
  cur = 0;
  rate_limited = [];
  healthy_count = 0;
  degraded_count = 0;
}

-- `ok && time.Now().Before(until)`
abbrev pub before : ℕ → Option ℕ → Bool
before now none = false
before now (some until) = ltb now until

unfoldable pub is_rate_limited : ℕ → ℕ → Pool → Bool
is_rate_limited now idx p = before now (lookup idx p.rate_limited)

-- `!ok || time.Now().After(until)`
abbrev pub free_after : ℕ → Option ℕ → Bool
free_after now none = true
free_after now (some until) = ltb until now

-- The loop of allRateLimited over the first `n` endpoints.
unfoldable pub all_limited_below : ℕ → ℕ → Pool → Bool
all_limited_below now zero p = true
all_limited_below now (suc n) p =
    all_limited_below now n p && not (free_after now (lookup n p.rate_limited))

unfoldable pub all_rate_limited : ℕ → Pool → Bool
unfolding all_limited_below
all_rate_limited now p = all_limited_below now p.nodes p

unfoldable pub clear_rate_limits : Pool → Pool
clear_rate_limits p = record p { rate_limited = [] }

unfoldable pub mark_rate_limited : ℕ → ℕ → Pool → Pool
mark_rate_limited now idx p = record p {
  rate_limited = insert idx (now + rate_limit_backoff) p.rate_limited;
}

unfoldable pub is_rate_limit_error : Bytes → Bool
unfolding contains
is_rate_limit_error s =
    contains s (bytes "429")
    || (contains s (bytes "rate limit")
        || (contains s (bytes "too many requests") || contains s (bytes "limit exceeded")))

unfoldable pub is_already_broadcast : Bytes → Bool
unfolding contains
is_already_broadcast s = contains s (bytes "already known") || contains s (bytes "already exists")

-- What an endpoint answers: a value, or an error with its text.
pub data Reply (T : Type 0) : Type 0 where
  value : T → Reply T
  error : Bytes → Reply T

-- What `call` returns: a value, the context's error, or "failed on all endpoints" with the last
-- error (`none` where no endpoint was tried).
pub data Result (T : Type 0) : Type 0 where
  ok : T → Result T
  cancelled : Result T
  exhausted : Option Bytes → Result T

-- p.cur.CompareAndSwap(start, idx), from the second endpoint on.
unfoldable pub promote : ℕ → ℕ → ℕ → Pool → Pool
promote start i idx p = if ltb 0 i && nat_eqb p.cur start then record p { cur = idx } else p

-- `fn` is the call at an endpoint, `done i` whether ctx is done at the i-th round, `clock i` the
-- i-th round's clock reading and `marks i` the one of its backoff.
module _ {T : Type 0} (fn : ℕ → Reply T) (done : ℕ → Bool) (clock marks : ℕ → ℕ) where
  unfoldable pub after_error : ℕ → ℕ → Bytes → Pool → Pool
  unfolding mark_rate_limited
  after_error i idx e p = if is_rate_limit_error e then mark_rate_limited (marks i) idx p else p

  -- The loop of `call`: `k` rounds are left of `n`, and `i` is the counter.
  unfoldable pub call_from : ℕ → ℕ → ℕ → ℕ → Option Bytes → Pool → Pool × Result T
  unfolding promote
  call_from n start zero i last p = (p, exhausted last)
  call_from n start (suc k) i last p =
      let idx = (start + i) % n in
      let skipped = call_from n start k (i + 1) last p in
      if done i
      then (p, cancelled)
      else if is_rate_limited (clock i) idx p
      then skipped
      else elim (fn idx) [
        | value v ↦ (promote start i idx p, ok v)
        | error e ↦ call_from n start k (i + 1) (some e) (after_error i idx e p)
      ]

  -- The check before the loop reads the clock at `now`.
  unfoldable pub call : ℕ → Pool → Pool × Result T
  unfolding all_rate_limited clear_rate_limits
  call now p =
      let q = if all_rate_limited now p then clear_rate_limits p else p in
      call_from p.nodes p.cur p.nodes 0 none q

-- The reply of SendTransaction's closure: a transaction that is already known counts as sent.
unfoldable pub send_reply : Reply (Unit {0}) → Reply (Unit {0})
send_reply (value v) = value v
send_reply (error e) = if is_already_broadcast e then value tt else error e

unfoldable pub send_transaction :
    (ℕ → Reply (Unit {0})) → (ℕ → Bool) → (ℕ → ℕ) → (ℕ → ℕ) → ℕ → Pool → Pool × Result (Unit {0})
unfolding call send_reply
send_transaction fn done clock marks now p =
    call (λ idx. send_reply (fn idx)) done clock marks now p
