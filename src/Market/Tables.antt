-- ===== src/Market/Tables.antt =====
-- The rows that the log handlers read and write: the tables of backend/internal/db, the in-app
-- notifications and the events handed to the broadcaster. An amount of wei is its number, and a
-- time the seconds of its time.Unix.
use magic_webb.Base.{
  ℕ, ◌≡◌, ◌↔◌, Bool, true, ◌&&◌, Option, none, [], arith, Bytes, bytes_eqb, bytes_eqb_iff, nat_eqb,
  Comparable, ℤ,
}
use magic_webb.Market.Abi.{Standard, Event}

-- A token of a collection, and what one address holds, lists or bids of it.
pub record TokenKey : Type 0 where
  pub collection : Bytes
  pub token_id : ℕ

pub record HolderKey : Type 0 where
  pub collection : Bytes
  pub token_id : ℕ
  pub holder : Bytes

abbrev pub token_eqb : TokenKey → TokenKey → Bool
token_eqb a b = nat_eqb a.token_id b.token_id && bytes_eqb a.collection b.collection

pub token_eqb_iff : (a b : TokenKey) → (token_eqb a b ≡ true) ↔ (a ≡ b)
token_eqb_iff a b = ground (arith, bytes_eqb_iff a.collection b.collection)

instance abbrev pub token_key_eq : Comparable TokenKey
token_key_eq = record { equals = token_eqb; equals_iff = token_eqb_iff }

abbrev pub holder_eqb : HolderKey → HolderKey → Bool
holder_eqb a b =
    nat_eqb a.token_id b.token_id
    && (bytes_eqb a.collection b.collection && bytes_eqb a.holder b.holder)

pub holder_eqb_iff : (a b : HolderKey) → (holder_eqb a b ≡ true) ↔ (a ≡ b)
holder_eqb_iff a b =
    ground (arith, bytes_eqb_iff a.collection b.collection, bytes_eqb_iff a.holder b.holder)

instance abbrev pub holder_key_eq : Comparable HolderKey
holder_key_eq = record { equals = holder_eqb; equals_iff = holder_eqb_iff }

-- A row of listings, beside its key (collection, token_id, seller).
pub record Listing : Type 0 where
  pub price_wei : ℕ
  pub amount : ℤ
  pub standard : Standard
  pub expires_at : ℤ
  pub listed_at : ℕ
  pub tx_hash : Bytes
  pub active : Bool
  pub orphaned : Bool
  pub chain_cleaned : Bool

-- A row of nft_ownership, beside its key (collection, token_id, owner).
pub record Holding : Type 0 where
  pub units : ℤ
  pub standard : Standard

-- The columns of nft_tokens that the handlers write.
pub record Token : Type 0 where
  pub owner : Option Bytes
  pub minter : Option Bytes

pub record Collection : Type 0 where
  pub standard : Standard
  pub deploy_block : ℕ
  pub offer_eligible : Option Bool

pub data AuctionStatus : Type 0 where
  active settled cancelled : AuctionStatus

-- min_increment_bps is left out: the handlers write 0 and read it nowhere.
pub record Auction : Type 0 where
  pub collection : Bytes
  pub token_id : ℕ
  pub seller : Bytes
  pub standard : Standard
  pub reserve_price_wei : ℕ
  pub highest_bid_wei : ℕ
  pub highest_bidder : Bytes
  pub starts_at : ℤ
  pub ends_at : ℤ
  pub status : AuctionStatus
  pub create_tx : Bytes

pub record Bid : Type 0 where
  pub auction_id : ℤ
  pub bidder : Bytes
  pub amount_wei : ℕ
  pub tx_hash : Bytes
  pub placed_at : ℕ

pub record Sale : Type 0 where
  pub collection : Bytes
  pub token_id : ℕ
  pub seller : Bytes
  pub buyer : Bytes
  pub price_wei : ℕ
  pub fee_wei : ℕ
  pub block_number : ℕ
  pub occurred_at : ℕ

pub data OfferStatus : Type 0 where
  pending accepted cancelled : OfferStatus

-- A row of offers; at most one of a position is pending.
pub record Offer : Type 0 where
  pub position : HolderKey
  pub principal_wei : ℕ
  pub fee_wei : ℕ
  pub units : ℤ
  pub standard : Standard
  pub expires_at : ℤ
  pub status : OfferStatus
  pub make_tx : Bytes

-- A row of governance_events, beside its key (tx_hash, log_index), and the event's payload.
pub record Governance : Type 0 where
  pub event : Event
  pub contract : Bytes
  pub actor : Bytes
  pub subject : Bytes
  pub extra : Bytes
  pub tx_hash : Bytes
  pub block_number : ℕ
  pub block_time : ℕ

-- The text of a notification, by its parts.
pub data Message : Type 0 where
  sold auction_settled auction_won offer_received offer_accepted : ℕ → Message
  outbid refund refund_issued not_delivered : ℕ → Message
  offer_rejected : Message
  security : Governance → Message

pub data Link : Type 0 where
  token : Bytes → ℕ → Link
  auction : ℤ → Link
  profile : Bytes → Link
  status : Link

pub record Notification : Type 0 where
  pub user_addr : Bytes
  pub message : Message
  pub link : Link

-- The payloads of the typed events, less the row that Data repeats, the fields that no handler sets,
-- and an offer's AmountWei, which is its Principal; an empty field is not set.
pub record ListingUpdate : Type 0 where
  pub event : Event
  pub collection : Bytes
  pub token_id : Option ℕ
  pub seller : Bytes
  pub buyer : Bytes
  pub from_addr : Bytes
  pub to_addr : Bytes
  pub price_wei : Option ℕ

pub record AuctionUpdate : Type 0 where
  pub event : Event
  pub auction_id : ℤ
  pub bidder : Bytes
  pub outbid_addr : Bytes
  pub winner : Bytes
  pub seller : Bytes
  pub amt_wei : Option ℕ
  pub effective_wei : Option ℕ
  pub leader_total : Option ℕ
  pub end_time : Option ℤ

pub record OfferUpdate : Type 0 where
  pub event : Event
  pub collection : Bytes
  pub token_id : ℕ
  pub seller : Bytes
  pub bidder : Bytes
  pub principal : Option ℕ

-- An event handed to the broadcaster.
pub data Published : Type 0 where
  listing_updated : ListingUpdate → Published
  auction_updated : AuctionUpdate → Published
  offer_updated : OfferUpdate → Published
  governance : Governance → Published
  notified : Notification → Published
  tx_indexed : Bytes → ℕ → ℕ → Published

abbrev pub listing_event : Event → Bytes → Option ℕ → ListingUpdate
listing_event e coll id = record {
  event = e;
  collection = coll;
  token_id = id;
  seller = [];
  buyer = [];
  from_addr = [];
  to_addr = [];
  price_wei = none;
}

abbrev pub auction_event : Event → ℤ → AuctionUpdate
auction_event e id = record {
  event = e;
  auction_id = id;
  bidder = [];
  outbid_addr = [];
  winner = [];
  seller = [];
  amt_wei = none;
  effective_wei = none;
  leader_total = none;
  end_time = none;
}
