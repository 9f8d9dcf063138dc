-- ===== src/Market/Runs.antt =====
-- Logs and tables of the runs of the log handlers. The hash function of these runs is the
-- identity: a topic is the signature itself.
use magic_webb.Base.{ℕ, ◌∷◌, [], List, Bytes, bytes, pos}
use magic_webb.Market.Abi.{Log, erc721}
use magic_webb.Market.Words.{be, encode_words}
use magic_webb.Market.Batch.{batch_words}
use magic_webb.Market.Tables.{Auction, AuctionStatus, Bid}
use magic_webb.Market.Queries.{Db}
use magic_webb.Market.Handling.{Store}

abbrev pub same : Bytes → Bytes
same b = b

abbrev pub empty_db : Db
empty_db = record {
  collections = [];
  tracked = [];
  listings = [];
  holdings = [];
  tokens = [];
  auctions = [];
  bids = [];
  sales = [];
  offers = [];
  withdrawals = [];
  governance_events = [];
}

abbrev pub empty_store : Store
empty_store = record { db = empty_db; published = []; notifications = []; counted = [] }

abbrev pub log_of : List Bytes → Bytes → Log
log_of topics payload = record {
  address = be 20 1;
  topics = topics;
  payload = payload;
  block_number = 40;
  tx_hash = bytes "0xf00";
  log_index = 3;
}

-- Token 5 of collection 11 is listed by holder 12, for 100 wei.
abbrev pub listed_log : Log
listed_log =
    log_of
      (bytes "Listed(address,uint256,address,uint8,uint128,uint128,uint64)"
        ∷ be 32 11
        ∷ be 32 5
        ∷ be 32 12
        ∷ [])
      (encode_words (0 ∷ 1 ∷ 100 ∷ 9999 ∷ []))

abbrev pub cancelled_log : Log
cancelled_log =
    log_of (bytes "Cancelled(address,uint256,address)" ∷ be 32 11 ∷ be 32 5 ∷ be 32 12 ∷ []) []

abbrev pub items : List (ℕ × ℕ)
items = (21, 5) ∷ (22, 6) ∷ []

abbrev pub batch_log : Log
batch_log =
    log_of
      (bytes "TransferBatch(address,address,address,uint256[],uint256[])"
        ∷ be 32 1
        ∷ be 32 12
        ∷ be 32 13
        ∷ [])
      (encode_words (batch_words items))

-- 7 units of token 21 go from holder 12 to holder 13.
abbrev pub single_log : Log
single_log =
    log_of
      (bytes "TransferSingle(address,address,address,uint256,uint256)"
        ∷ be 32 1
        ∷ be 32 12
        ∷ be 32 13
        ∷ [])
      (encode_words (21 ∷ 7 ∷ []))

-- A third bid, with which its bidder overtakes the leader.
abbrev pub auction_row : Auction
auction_row = record {
  collection = bytes "0xc0";
  token_id = 5;
  seller = bytes "0x5e";
  standard = erc721;
  reserve_price_wei = 10;
  highest_bid_wei = 60;
  highest_bidder = bytes "0xb";
  starts_at = pos 0;
  ends_at = pos 900;
  status = AuctionStatus.active;
  create_tx = bytes "0xf0";
}

abbrev pub bid_of : Bytes → ℕ → Bytes → Bid
bid_of who wei tx = record {
  auction_id = pos 3;
  bidder = who;
  amount_wei = wei;
  tx_hash = tx;
  placed_at = 40;
}

abbrev pub bid_db : Db
bid_db = record empty_db {
  auctions = (pos 3, auction_row) ∷ [];
  bids =
      (bytes "0xf1", bid_of (bytes "0xa") 50 (bytes "0xf1"))
      ∷ (bytes "0xf2", bid_of (bytes "0xb") 60 (bytes "0xf2"))
      ∷ [];
}

abbrev pub last_bid : Bid
last_bid = bid_of (bytes "0xa") 20 (bytes "0xf3")

-- A role is granted; the second time another account has opted in and every call fails.
abbrev pub keeper_log : Log
keeper_log = log_of (bytes "KeeperSet(address,address)" ∷ be 32 12 ∷ be 32 13 ∷ []) []
