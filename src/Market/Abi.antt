-- ===== src/Market/Abi.antt =====
-- Logs and the ABI words of backend/internal/indexer/handlers.go and abis.go. A topic or an address
-- is the list of its bytes, and a transaction's hash the text that its Hex gives; `keccak` stands for
-- crypto.Keccak256Hash.
use magic_webb.Base.{
  hex, ℕ, zero, suc, ◌+◌, ◌-◌, ◌*◌, ◌/◌, ◌%◌, ◌^◌, Bool, ◌||◌, Option, none, some, List, [], ◌∷◌,
  ◌++◌, Bytes, bytes, bytes_eqb, nat_eqb, ltb, if◌then◌else◌, length, get_elem?, drop, ℤ, pos,
  negsuc,
}

-- types.Log of go-ethereum. The topics are words of 32 bytes.
pub record Log : Type 0 where
  pub address : Bytes
  pub topics : List Bytes
  pub payload : Bytes
  pub block_number : ℕ
  pub tx_hash : Bytes
  pub log_index : ℕ

-- The i-th topic; the handlers read none past the last.
abbrev pub topic : Log → ℕ → Bytes
topic l i = elim (get_elem? l.topics i) [ none ↦ [] | some t ↦ t ]

-- Fewer than `t` topics, or fewer than `w` words of data.
abbrev pub is_short : Log → ℕ → ℕ → Bool
is_short l t w = ltb (length l.topics) t || ltb (length l.payload) (w * 32)

module _ {A : Type 0} where
  abbrev pub take : ℕ → List A → List A
  take zero xs = []
  take (suc n) [] = []
  take (suc n) (x ∷ xs) = x ∷ take n xs

  abbrev pub replicate : ℕ → A → List A
  replicate zero x = []
  replicate (suc n) x = x ∷ replicate n x

unfoldable pub chunk : Bytes → ℕ → Bytes
chunk b i = if ltb (length b) ((i + 1) * 32) then replicate 32 0 else take 32 (drop (i * 32) b)

-- SetBytes from the bytes before.
abbrev pub set_bytes : ℕ → Bytes → ℕ
set_bytes acc [] = acc
set_bytes acc (b ∷ bs) = set_bytes (acc * 256 + b) bs

unfoldable pub big_int : Bytes → ℕ
big_int b = set_bytes 0 b

-- Int64 of a big.Int that is not negative: the low 64 bits, as a signed number.
unfoldable pub int64 : ℕ → ℤ
int64 n = let low = n % 2 ^ 64 in if ltb low (2 ^ 63) then pos low else negsuc (2 ^ 64 - 1 - low)

-- The decimal digits of a number below 10 ^ fuel.
unfoldable pub digits : ℕ → ℕ → Bytes
digits zero n = []
digits (suc fuel) n =
    let rest = digits fuel (n / 10) in
    if ltb n 10 then (n + 48) ∷ [] else rest ++ (n % 10 + 48) ∷ []

-- String of a word's big.Int, which has 78 digits at most.
abbrev pub decimal : ℕ → Bytes
decimal n = digits 78 n

-- common.BytesToAddress: the last 20 bytes, or zeros before fewer.
abbrev pub to_address : Bytes → Bytes
to_address b = replicate (20 - length b) 0 ++ drop (length b - 20) b

unfoldable pub addr_str : Bytes → Bytes
addr_str b = bytes "0x" ++ hex (to_address b)

abbrev pub zero_addr : Bytes
zero_addr = bytes "0x0000000000000000000000000000000000000000"

pub data Standard : Type 0 where
  erc721 erc1155 : Standard

-- The last byte of a word.
abbrev pub standard_of : Bytes → Standard
standard_of w = elim (get_elem? w 31) [
  | none ↦ erc721
  | some b ↦ if nat_eqb b 1 then erc1155 else erc721
]

-- The events that dispatch knows.
pub data Event : Type 0 where
  listed cancelled bought : Event
  auction_created bid_placed outbid_notification auction_extended auction_settled : Event
  loser_refunded auction_cancelled auction_settlement_failed auction_force_cancelled : Event
  refund_pushed offer_made offer_accepted offer_refunded offer_eligibility_set : Event
  transfer_721 transfer_single transfer_batch : Event
  keeper_set admin_renounced admin_transfer_started admin_transfer_cancelled : Event
  admin_transferred audit_log upgrade_queued upgrade_cancelled upgraded : Event

-- The canonical signatures whose hashes are the topics, in the order of dispatch's cases.
abbrev pub signatures : List (Bytes × Event)
signatures =
    (bytes "Listed(address,uint256,address,uint8,uint128,uint128,uint64)", listed)
    ∷ (bytes "Cancelled(address,uint256,address)", cancelled)
    ∷ (bytes "Bought(address,uint256,address,address,uint8,uint128,uint128,uint256)", bought)
    ∷ (
      bytes "AuctionCreated(uint256,address,uint256,address,uint8,uint128,uint128,uint64,uint64)",
      auction_created,
    )
    ∷ (bytes "BidPlaced(uint256,address,uint256,uint256)", bid_placed)
    ∷ (bytes "OutbidNotification(uint256,address,uint256)", outbid_notification)
    ∷ (bytes "AuctionExtended(uint256,uint64)", auction_extended)
    ∷ (bytes "AuctionSettled(uint256,address,address,uint128,uint256)", auction_settled)
    ∷ (bytes "LoserRefunded(uint256,address,uint256)", loser_refunded)
    ∷ (bytes "AuctionCancelled(uint256)", auction_cancelled)
    ∷ (bytes "AuctionSettlementFailed(uint256,address,uint128)", auction_settlement_failed)
    ∷ (bytes "AuctionForceCancelled(uint256)", auction_force_cancelled)
    ∷ (bytes "RefundPushed(address,uint256)", refund_pushed)
    ∷ (bytes "OfferMade(address,uint256,address,uint256,uint128,uint64)", offer_made)
    ∷ (
      bytes "OfferAccepted(address,uint256,address,address,uint256,uint256,uint128,uint8)",
      offer_accepted,
    )
    ∷ (bytes "OfferRefunded(address,uint256,address,uint256)", offer_refunded)
    ∷ (bytes "OfferEligibilitySet(address,bool)", offer_eligibility_set)
    ∷ (bytes "Transfer(address,address,uint256)", transfer_721)
    ∷ (bytes "TransferSingle(address,address,address,uint256,uint256)", transfer_single)
    ∷ (bytes "TransferBatch(address,address,address,uint256[],uint256[])", transfer_batch)
    ∷ (bytes "KeeperSet(address,address)", keeper_set)
    ∷ (bytes "AdminRenounced(address)", admin_renounced)
    ∷ (bytes "AdminTransferStarted(address,address)", admin_transfer_started)
    ∷ (bytes "AdminTransferCancelled(address)", admin_transfer_cancelled)
    ∷ (bytes "AdminTransferred(address,address)", admin_transferred)
    ∷ (bytes "AuditLog(bytes32,address,address,bytes32)", audit_log)
    ∷ (bytes "UpgradeQueued(address,uint64)", upgrade_queued)
    ∷ (bytes "UpgradeCancelled(address)", upgrade_cancelled)
    ∷ (bytes "Upgraded(address)", upgraded)
    ∷ []

unfoldable pub event_with : (Bytes → Bytes) → Bytes → List (Bytes × Event) → Option Event
event_with keccak t [] = none
event_with keccak t ((s, e) ∷ rest) =
    if bytes_eqb t (keccak s) then some e else event_with keccak t rest

-- The case of a log: `none` is a log without topics or of another event.
unfoldable pub event_of : (Bytes → Bytes) → Log → Option Event
unfolding event_with
event_of keccak l = elim l.topics [ [] ↦ none | t ∷ rest ↦ event_with keccak t signatures ]
