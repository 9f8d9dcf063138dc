-- ===== src/Market/Handling.antt =====
-- What the log handlers share: backend/internal/indexer/handlers.go. A handler turns a store into
-- another and an outcome. Each call of the database that it makes may fail, as `fails` says, and a
-- call that fails leaves the tables as they were.
use magic_webb.Base.{ℕ, Bool, false, List, [], ◌∷◌, ◌++◌, Bytes, bytes_eqb, if◌then◌else◌}
use magic_webb.Watcher.{Outcome, applied, malformed, retriable}
use magic_webb.Market.Abi.{Event, Log, Standard}
use magic_webb.Market.Tables.{Notification, Published, Message, Link}
use magic_webb.Market.Queries.{Db, ensure_collection, ensure_tracked}
use magic_webb.Market.Ownership.{lower}

-- The database, the events handed to the broadcaster, oldest first, the notifications stored, and
-- the governance events counted.
pub record Store : Type 0 where
  pub db : Db
  pub published : List Published
  pub notifications : List Notification
  pub counted : List Event

-- The calls of the database that a handler makes: the write it is about, with the number of the
-- batch's item, and the others.
pub data Call : Type 0 where
  write : ℕ → Call
  mint : ℕ → Call
  ensure : Call
  track : Call
  notice : ℕ → Call
  seed : Call
  owner_read : Call
  recipients : Call

abbrev pub no_fault : Call → Bool
no_fault c = false

abbrev pub Handler : Type 0
Handler = (Call → Bool) → Log → Store → Store × Outcome

-- A call that may fail and whose error is not returned.
abbrev pub attempt : Bool → (Db → Db) → Store → Store
attempt failed f s = if failed then s else record s { db = f s.db }

unfoldable pub publish : Published → Store → Store
publish e s = record s { published = s.published ++ e ∷ [] }

abbrev pub notice_to : Bytes → Message → Link → Notification
notice_to who message link = record { user_addr = who; message = message; link = link }

-- The row holds the address in lower case.
unfoldable pub notify : Bool → Notification → Store → Store
unfolding lower publish
notify failed n s =
    if bytes_eqb n.user_addr []
    then s
    else if failed
    then s
    else publish (Published.notified n) (record s {
      notifications = s.notifications ++ record n { user_addr = lower n.user_addr } ∷ [];
    })

-- EnsureCollection, whose error is dropped: its second statement runs where the first succeeds.
abbrev pub ensured : (Call → Bool) → Bytes → Standard → ℕ → Store → Store
ensured fails coll std block s =
    if fails ensure
    then s
    else attempt (fails track) (ensure_tracked coll std block)
        (record s { db = ensure_collection coll std block s.db })

-- What a handler does with a log: it refuses the log as malformed, it writes nothing that it
-- depends on, or it makes the write it is about, in the case of `registered` after
-- EnsureCollection, and what follows where the write succeeds.
pub data Plan : Type 0 where
  reject : Plan
  only : ((Call → Bool) → Store → Store) → Plan
  write_then : (Db → Db) → ((Call → Bool) → Store → Store) → Plan
  registered : Bytes → Standard → ℕ → (Db → Db) → ((Call → Bool) → Store → Store) → Plan

abbrev pub commit :
    (Call → Bool) → (Db → Db) → ((Call → Bool) → Store → Store) → Store → Store × Outcome
commit fails f after s =
    if fails (write 0) then (s, retriable) else (after fails (record s { db = f s.db }), applied)

unfoldable pub run_plan : Plan → (Call → Bool) → Store → Store × Outcome
run_plan reject fails s = (s, malformed)
run_plan (only after) fails s = (after fails s, applied)
run_plan (write_then f after) fails s = commit fails f after s
run_plan (registered coll std block f after) fails s =
    commit fails f after (ensured fails coll std block s)
