-- ===== src/Nonce.antt =====
-- The single-use sign-in nonce stores: backend/internal/nonce/store.go (MemStore), pg_store.go
-- (PgStore), and the handler of backend/cmd/server/main.go that issues a nonce.
-- Times are instants on one clock; each reading of the clock is an argument of its own. The
-- mutex of MemStore makes each operation one step.
use magic_webb.Base.{
  ℕ, ◌+◌, Bool, true, false, not, Option, none, some, Bytes, GoMap, ltb, leb, if◌then◌else◌, lookup,
  insert, delete, delete_where, bytes_eq,
}
pub mod SingleUse
pub mod Cleanup
pub mod Postgres
mod Examples

-- `record` of store.go.
pub record Entry : Type 0 where
  pub value : Bytes
  pub expires_at : ℕ

-- The map of a MemStore, and the rows of the table siwe_nonces.
abbrev pub Entries : Type 0
Entries = GoMap Bytes Entry

-- `time.Now().Before(ex.expiresAt)`
abbrev pub is_live : ℕ → Option Entry → Bool
is_live now none = false
is_live now (some r) = ltb now r.expires_at

-- The first clock reading is the test's, the second the new expiry's.
unfoldable pub set_if_free : Entries → Bytes → Bytes → ℕ → ℕ → ℕ → Entries × Bool
set_if_free m address nonce ttl now now' =
    if is_live now (lookup address m)
    then (m, false)
    else (insert address (record { value = nonce; expires_at = now' + ttl }) m, true)

abbrev pub value_if_live : ℕ → Option Entry → Option Bytes
value_if_live now none = none
value_if_live now (some r) = if ltb now r.expires_at then some r.value else none

-- Both branches delete the entry.
unfoldable pub get_del : Entries → Bytes → ℕ → Entries × Option Bytes
get_del m address now = (delete address m, value_if_live now (lookup address m))

unfoldable pub cleanup : Entries → ℕ → Entries
cleanup m now = delete_where (λ _ r. not (ltb now r.expires_at)) m

-- How Commit ends: the server commits, or it rolls back, or it commits and the answer is lost (the
-- deadline passes), which Commit reports as an error too.
pub data CommitResult : Type 0 where
  commits rolls_back loses_answer : CommitResult

-- Where the statements of PgStore's transaction may fail.
pub record TxFaults : Type 0 where
  pub begin_fails : Bool
  pub delete_fails : Bool
  pub insert_fails : Bool
  pub commit_result : CommitResult

abbrev pub no_faults : TxFaults
no_faults = record {
  begin_fails = false;
  delete_fails = false;
  insert_fails = false;
  commit_result = commits;
}

-- DELETE FROM siwe_nonces WHERE address=$1 AND expires_at <= now()
unfoldable pub delete_expired_row : Entries → Bytes → ℕ → Entries
delete_expired_row m address db_now = elim (lookup address m) [
  | none ↦ m
  | some r ↦ if leb r.expires_at db_now then delete address m else m
]

-- INSERT ... ON CONFLICT(address) DO NOTHING RETURNING true: `none` is pgx.ErrNoRows.
unfoldable pub insert_row : Entries → Bytes → Entry → Option Entries
insert_row m address r = elim (lookup address m) [
  | none ↦ some (insert address r m)
  | some _ ↦ none
]

-- The answer of PgStore.SetIfFree after Commit, with the table before the transaction and in it.
abbrev pub after_commit : CommitResult → Entries → Entries → Entries × Bool
after_commit commits m m' = (m', true)
after_commit rolls_back m m' = (m, false)
after_commit loses_answer m m' = (m', false)

-- The transaction of PgStore.SetIfFree. Where it returns before Commit, the deferred rollback, or the
-- end of the connection, leaves the table as it was.
unfoldable pub pg_set_if_free : TxFaults → Entries → Bytes → Bytes → ℕ → ℕ → ℕ → Entries × Bool
unfolding delete_expired_row insert_row
pg_set_if_free f m address nonce ttl db_now now =
    if f.begin_fails
    then (m, false)
    else if f.delete_fails
    then (m, false)
    else if f.insert_fails
    then (m, false)
    else elim (insert_row (delete_expired_row m address db_now) address
        (record { value = nonce; expires_at = now + ttl })) [
          | none ↦ (m, false)
          | some m' ↦ after_commit f.commit_result m m'
        ]

-- DELETE ... WHERE address=$1 AND expires_at > now() RETURNING nonce
unfoldable pub pg_get_del : Bool → Entries → Bytes → ℕ → Entries × Option Bytes
pg_get_del query_fails m address db_now =
    if query_fails then (m, none) else elim (lookup address m) [
      | none ↦ (m, none)
      | some r ↦ if ltb db_now r.expires_at then (delete address m, some r.value) else (m, none)
    ]

-- DELETE FROM siwe_nonces WHERE expires_at <= now()
unfoldable pub pg_cleanup : Bool → Entries → ℕ → Entries
pg_cleanup query_fails m db_now =
    if query_fails then m else delete_where (λ _ r. leb r.expires_at db_now) m

pub data NonceResponse : Type 0 where
  issued : Bytes → NonceResponse
  contention : NonceResponse

-- nonceHandler's last step: on a live nonce it consumes that one and claims the freed slot.
-- `clock i` is the i-th reading of the clock.
unfoldable pub issue_nonce : Entries → Bytes → Bytes → ℕ → (ℕ → ℕ) → Entries × NonceResponse
issue_nonce m address n ttl clock =
    let (m₁, free) = set_if_free m address n ttl (clock 0) (clock 1) in
    if free
    then (m₁, issued n)
    else let m₂ = (get_del m₁ address (clock 2)).0 in
      let (m₃, taken) = set_if_free m₂ address n ttl (clock 3) (clock 4) in
      (m₃, if taken then issued n else contention)
