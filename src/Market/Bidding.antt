-- ===== src/Market/Bidding.antt =====
-- The methods of db.Q on auctions and bids: backend/internal/db/queries.go, with the view
-- effective_bids of migrations/007_effective_bids.sql.
use magic_webb.Base.{
  ℕ, ◌+◌, Bool, true, false, ◌&&◌, Option, none, some, [], ◌∷◌, Bytes, bytes_eq, bytes_eqb, ltb,
  if◌then◌else◌, ◌==◌, GoMap, update_rows, upsert, ℤ, int_eq,
}
use magic_webb.Market.Tables.{AuctionStatus, Auction, Bid}
use magic_webb.Market.Queries.{Db}

abbrev pub upsert_auction : ℤ → Auction → Db → Db
upsert_auction id r db = record db {
  auctions =
      upsert id r
        (λ old. record old {
          highest_bid_wei = r.highest_bid_wei;
          highest_bidder = r.highest_bidder;
          ends_at = r.ends_at;
          status = r.status;
        })
        db.auctions;
}

abbrev pub with_auction_status : AuctionStatus → Auction → Auction
with_auction_status status row = record row { status = status }

abbrev pub set_auction_status : ℤ → AuctionStatus → Db → Db
set_auction_status id status db = record db {
  auctions =
      update_rows (λ j row. if j == id then with_auction_status status row else row) db.auctions;
}

abbrev pub is_active : AuctionStatus → Bool
is_active AuctionStatus.active = true
is_active AuctionStatus.settled = false
is_active AuctionStatus.cancelled = false

abbrev pub ending_at : ℤ → Auction → Auction
ending_at ends row = record row { ends_at = ends }

abbrev pub extend_auction : ℤ → ℤ → Db → Db
extend_auction id ends db = record db {
  auctions =
      update_rows (λ j row. if (j == id) && is_active row.status then ending_at ends row else row)
        db.auctions;
}

-- The view effective_bids: the sum of a bidder's bids in an auction.
unfoldable pub effective_wei : ℤ → Bytes → GoMap Bytes Bid → ℕ
effective_wei id who [] = 0
effective_wei id who ((tx, b) ∷ bids) =
    (if (b.auction_id == id) && bytes_eqb b.bidder who then b.amount_wei else 0)
    + effective_wei id who bids

abbrev pub larger : Option (Bytes × ℕ) → Bytes → ℕ → Option (Bytes × ℕ)
larger none who total = some (who, total)
larger (some (leader, most)) who total =
    if ltb most total then some (who, total) else some (leader, most)

-- ORDER BY effective_wei DESC LIMIT 1 over the bidders of the rows left: of equal totals the
-- database may give any; this gives one.
unfoldable pub leader_among : ℤ → GoMap Bytes Bid → GoMap Bytes Bid → Option (Bytes × ℕ)
unfolding effective_wei
leader_among id all [] = none
leader_among id all ((tx, b) ∷ bids) =
    let rest = leader_among id all bids in
    if b.auction_id == id then larger rest b.bidder (effective_wei id b.bidder all) else rest

abbrev pub with_leader : Option (Bytes × ℕ) → Auction → Auction
with_leader none row = row
with_leader (some (who, total)) row = record row { highest_bid_wei = total; highest_bidder = who }

unfoldable pub insert_bid_and_update_auction : Bid → Db → Db
unfolding upsert update_rows leader_among
insert_bid_and_update_auction b db =
    let bids = upsert b.tx_hash b (λ old. old) db.bids in
    record db {
      bids = bids;
      auctions =
          update_rows
            (λ j row. if j == b.auction_id then with_leader (leader_among j bids bids) row else row)
            db.auctions;
    }
