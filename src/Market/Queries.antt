-- ===== src/Market/Queries.antt =====
-- The methods of db.Q that the log handlers call: backend/internal/db/queries.go,
-- queries_rework.go, badge.go and queries_governance.go, each as what it does when its
-- transaction commits.
use magic_webb.Base.{
  ℕ, ◌+◌, Bool, true, false, ◌&&◌, none, some, List, [], ◌∷◌, map, Bytes, bytes_eq, bytes_eqb,
  nat_eqb, if◌then◌else◌, bytes_nat_eq, ◌==◌, GoMap, insert, delete_where, update_rows, upsert, ℤ,
  pos, greatest, int_eq,
}
use magic_webb.Market.Abi.{Standard, erc721, erc1155}
use magic_webb.Market.Tables.{
  TokenKey, HolderKey, token_key_eq, holder_key_eq, Listing, Holding, Token, Collection, Auction,
  Bid, Sale, OfferStatus, Offer, Governance,
}

pub record Db : Type 0 where
  pub collections : GoMap Bytes Collection
  pub tracked : GoMap Bytes (Standard × ℕ)
  pub listings : GoMap HolderKey Listing
  pub holdings : GoMap HolderKey Holding
  pub tokens : GoMap TokenKey Token
  pub auctions : GoMap ℤ Auction
  pub bids : GoMap Bytes Bid
  pub sales : GoMap Bytes Sale
  pub offers : List Offer
  pub withdrawals : GoMap Bytes Bool
  pub governance_events : GoMap (Bytes × ℕ) Governance

-- Of EnsureCollection, which runs two statements: the row of collections, then that of tracked_collections.
abbrev pub ensure_collection : Bytes → Standard → ℕ → Db → Db
ensure_collection addr std block db = record db {
  collections =
      upsert addr (record { standard = std; deploy_block = block; offer_eligible = none })
        (λ old. old) db.collections;
}

abbrev pub ensure_tracked : Bytes → Standard → ℕ → Db → Db
ensure_tracked addr std block db = record db {
  tracked = upsert addr (std, block) (λ old. old) db.tracked;
}

abbrev pub set_collection_offer_eligible : Bytes → Bool → Db → Db
set_collection_offer_eligible addr eligible db = record db {
  collections =
      upsert addr (record { standard = erc721; deploy_block = 0; offer_eligible = some eligible })
        (λ old. record old { offer_eligible = some eligible }) db.collections;
}

-- `WHERE collection=$1 AND token_id=$2`
abbrev pub is_of : Bytes → ℕ → HolderKey → Bool
is_of coll id k = nat_eqb k.token_id id && bytes_eqb k.collection coll

-- Of ON CONFLICT … DO UPDATE: chain_cleaned is not among the columns that it sets.
abbrev pub relist : Listing → Listing → Listing
relist new old = record new { chain_cleaned = old.chain_cleaned }

-- The statements on nft_ownership of UpsertListingAndOwnership.
abbrev pub seed_ownership : HolderKey → Listing → GoMap HolderKey Holding → GoMap HolderKey Holding
seed_ownership k r holdings = elim r.standard [
  | erc1155 ↦
      upsert k (record { units = r.amount; standard = erc1155 })
        (λ old. record old { units = greatest old.units r.amount }) holdings
  | erc721 ↦
      insert k (record { units = pos 1; standard = erc721 })
        (delete_where (λ j row. is_of k.collection k.token_id j) holdings)
]

abbrev pub upsert_listing_and_ownership : HolderKey → Listing → Db → Db
upsert_listing_and_ownership k r db = record db {
  listings = upsert k r (relist r) db.listings;
  holdings = seed_ownership k r db.holdings;
}

abbrev pub deactivated : Listing → Listing
deactivated row = record row { active = false; chain_cleaned = true }

abbrev pub deactivate_listing : HolderKey → Db → Db
deactivate_listing k db = record db {
  listings = update_rows (λ j row. if j == k then deactivated row else row) db.listings;
}

abbrev pub insert_sale : Bytes → Sale → Db → Db
insert_sale tx sale db = record db { sales = upsert tx sale (λ old. old) db.sales }

abbrev pub deactivate_and_sale : HolderKey → Bytes → Sale → Db → Db
deactivate_and_sale k tx sale db = insert_sale tx sale (deactivate_listing k db)

abbrev pub is_pending : OfferStatus → Bool
is_pending OfferStatus.pending = true
is_pending OfferStatus.accepted = false
is_pending OfferStatus.cancelled = false

abbrev pub is_pending_at : HolderKey → Offer → Bool
is_pending_at k o = is_pending o.status && (o.position == k)

-- ON CONFLICT(collection, token_id, bidder) WHERE status='pending'
unfoldable pub upsert_offer : Offer → List Offer → List Offer
upsert_offer r [] = r ∷ []
upsert_offer r (o ∷ offers) =
    if is_pending_at r.position o
    then record o {
      principal_wei = r.principal_wei;
      fee_wei = o.fee_wei + r.fee_wei;
      units = r.units;
      expires_at = r.expires_at;
      make_tx = r.make_tx;
    }
      ∷ offers
    else o ∷ upsert_offer r offers

abbrev pub upsert_offer_position : Offer → Db → Db
upsert_offer_position r db = record db { offers = upsert_offer r db.offers }

abbrev pub with_status : HolderKey → OfferStatus → Offer → Offer
with_status k status o = if is_pending_at k o then record o { status = status } else o

abbrev pub set_offer_status : HolderKey → OfferStatus → Db → Db
set_offer_status k status db = record db { offers = map (with_status k status) db.offers }

abbrev pub accept_offer_and_record_sale : HolderKey → Bytes → Sale → Db → Db
accept_offer_and_record_sale k tx sale db =
    insert_sale tx sale (set_offer_status k OfferStatus.accepted db)

abbrev pub seed_pending_withdrawal : Bytes → Db → Db
seed_pending_withdrawal addr db = record db {
  withdrawals = upsert addr false (λ old. old) db.withdrawals;
}
