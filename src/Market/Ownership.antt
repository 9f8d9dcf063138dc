-- ===== src/Market/Ownership.antt =====
-- The methods of db.Q on holdings and tokens: backend/internal/db/queries_rework.go and badge.go.
use magic_webb.Base.{
  ℕ, ◌+◌, Bool, true, false, not, ◌&&◌, Option, none, some, [], ◌∷◌, map, Bytes, bytes_eq,
  bytes_eqb, leb, if◌then◌else◌, ◌==◌, GoMap, lookup, insert, delete_where, update_rows, upsert, ℤ,
  pos, ◌+ℤ◌, ◌-ℤ◌, ltb_ℤ, greatest,
}
use magic_webb.Market.Abi.{erc721, erc1155, zero_addr}
use magic_webb.Market.Tables.{TokenKey, HolderKey, token_key_eq, holder_key_eq, Listing, Holding}
use magic_webb.Market.Queries.{Db, is_of}

abbrev pub lower_byte : ℕ → ℕ
lower_byte c = if leb 65 c && leb c 90 then c + 32 else c

-- lower() of SQL and strings.ToLower, of ASCII.
unfoldable pub lower : Bytes → Bytes
lower = map lower_byte

abbrev pub holder : Bytes → ℕ → Bytes → HolderKey
holder coll id who = record { collection = coll; token_id = id; holder = who }

abbrev pub token_of : Bytes → ℕ → TokenKey
token_of coll id = record { collection = coll; token_id = id }

abbrev pub orphan : Listing → Listing
orphan row = record row { orphaned = true; active = false }

-- UPDATE listings SET orphaned=true, active=false of ApplyTransfer721.
abbrev pub orphan_unless : Bytes → ℕ → Bytes → HolderKey → Listing → Listing
orphan_unless coll id to k row =
    if is_of coll id k && (not (bytes_eqb (lower k.holder) (lower to)) && row.active)
    then orphan row
    else row

unfoldable pub apply_transfer_721 : Bytes → ℕ → Bytes → Db → Db
unfolding insert delete_where upsert update_rows lower
apply_transfer_721 coll id to db =
    let cleared = delete_where (λ k row. is_of coll id k) db.holdings in
    record db {
      holdings =
          if bytes_eqb to zero_addr
          then cleared
          else insert (holder coll id to) (record { units = pos 1; standard = erc721 }) cleared;
      tokens =
          upsert (token_of coll id) (record { owner = some to; minter = none })
            (λ old. record old { owner = some to }) db.tokens;
      listings = update_rows (orphan_unless coll id to) db.listings;
    }

abbrev pub credit : HolderKey → ℕ → GoMap HolderKey Holding → GoMap HolderKey Holding
credit k units holdings =
    upsert k (record { units = pos units; standard = erc1155 })
      (λ old. record old { units = old.units +ℤ pos units }) holdings

abbrev pub less : ℕ → Holding → Holding
less units row = record row { units = greatest (row.units -ℤ pos units) (pos 0) }

abbrev pub debit : HolderKey → ℕ → GoMap HolderKey Holding → GoMap HolderKey Holding
debit k units holdings = update_rows (λ j row. if j == k then less units row else row) holdings

-- EXISTS of a holding with units > 0.
abbrev pub has_units : Option Holding → Bool
has_units none = false
has_units (some row) = ltb_ℤ (pos 0) row.units

abbrev pub orphan_at : HolderKey → Bool → HolderKey → Listing → Listing
orphan_at k holds j row = if (j == k) && (row.active && not holds) then orphan row else row

-- The debit of ApplyTransfer1155 and the orphaning after it.
abbrev pub debit_and_orphan : HolderKey → ℕ → Db → Db
debit_and_orphan k units db =
    let holdings = debit k units db.holdings in
    record db {
      holdings = holdings;
      listings = update_rows (orphan_at k (has_units (lookup k holdings))) db.listings;
    }

unfoldable pub apply_transfer_1155 : Bytes → ℕ → Bytes → Bytes → ℕ → Db → Db
unfolding lookup insert upsert update_rows ◌+ℤ◌ ◌-ℤ◌
apply_transfer_1155 coll id from to units db =
    let credited =
      if bytes_eqb to zero_addr
      then db
      else record db { holdings = credit (holder coll id to) units db.holdings } in
    if bytes_eqb from zero_addr
    then credited
    else debit_and_orphan (holder coll id from) units credited

abbrev pub or_else : Option Bytes → Bytes → Option Bytes
or_else none m = some m
or_else (some first) m = some first

-- COALESCE keeps the first minter.
unfoldable pub set_token_minter : Bytes → ℕ → Bytes → Db → Db
unfolding upsert lower
set_token_minter coll id minter db = record db {
  tokens =
      upsert (token_of (lower coll) id) (record { owner = none; minter = some (lower minter) })
        (λ old. record old { minter = or_else old.minter (lower minter) }) db.tokens;
}

abbrev pub richer : Option (Bytes × ℤ) → Bytes → ℤ → Option (Bytes × ℤ)
richer none who units = some (who, units)
richer (some (best, most)) who units =
    if ltb_ℤ most units then some (who, units) else some (best, most)

-- units > 0, ORDER BY units DESC LIMIT 1; of equal holders the database may give any.
unfoldable pub get_token_owner : Bytes → ℕ → GoMap HolderKey Holding → Option (Bytes × ℤ)
get_token_owner coll id [] = none
get_token_owner coll id ((k, row) ∷ rows) =
    let rest = get_token_owner coll id rows in
    if is_of coll id k && ltb_ℤ (pos 0) row.units then richer rest k.holder row.units else rest
