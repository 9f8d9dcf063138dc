-- ===== src/Market/Examples.antt =====
-- Runs of the log handlers.
use magic_webb.Base.{
  ℕ, ◌+◌, ◌≤◌, ◌≡◌, ◌≢◌, refl, true, false, none, some, List, [], ◌∷◌, arith, Bytes, bytes,
  bytes_eqb, bytes_eqb_iff, lookup, length, All, int_eq, pos, ◌+ℤ◌,
}
use magic_webb.Watcher.{applied}
use magic_webb.Market.Abi.{
  Log, Event, topic, is_short, chunk, big_int, int64, addr_str, zero_addr, event_of,
}
use magic_webb.Market.Words.{be, IsWord}
use magic_webb.Market.Tables.{holder_key_eq, Auction, Published}
use magic_webb.Market.Bidding.{effective_wei, insert_bid_and_update_auction}
use magic_webb.Market.Handling.{no_fault, publish}
use magic_webb.Market.Trading.{topic_key}
use magic_webb.Market.Transfers.{
  batch_layout, and_then, on_transfer_single, on_transfer_batch, sent, arrays,
}
use magic_webb.Market.Governing.{on_governance, store_governance}
use magic_webb.Market.Dispatch.{handle, dispatch, dispatch_all}
use magic_webb.Market.Observe.{is_seen, is_relevant, observe_tx, found}
use magic_webb.Market.Failing.{AllOrNothing}
use magic_webb.Market.Errors.{handle-AllOrNothing}
use magic_webb.Market.Batch.{
  WithinData, batch_layout-WithinData, batch_words, transfer_each, on_transfer_batch-encode,
}
use magic_webb.Market.Frame.{listings_of}
use magic_webb.Market.Relisting.{shown_at}
use magic_webb.Market.Replay.{moves_units, dispatch_all_twice}
use magic_webb.Market.Crediting.{units_at, receiver_key, single_twice-credits}
use magic_webb.Market.Reactivation.{is_offered, receipt_of, observe_tx-reactivates}
use magic_webb.Market.Leading.{insert_bid-leads}
use magic_webb.Market.Once.{on_governance-once}
use magic_webb.Market.Runs.{
  same, empty_db, empty_store, listed_log, cancelled_log, items, batch_log, single_log, auction_row,
  bid_db, last_bid, keeper_log,
}

abbrev history : List (Log × ℕ)
history = (listed_log, 7) ∷ (cancelled_log, 8) ∷ (listed_log, 9) ∷ []

listed_event : event_of same listed_log ≡ some Event.listed
unfolding event_of bytes_eqb
listed_event = refl

cancelled_event : event_of same cancelled_log ≡ some Event.cancelled
unfolding event_of bytes_eqb
cancelled_event = refl

moves_none : All (λ p. moves_units (event_of same p.0) ≡ false) history
unfolding event_of bytes_eqb
moves_none = (refl, (refl, (refl, tt)))

-- Relisting after a cancellation.
dispatch_all_twice_example :
    shown_at
      (topic_key listed_log)
      (dispatch_all same [] history (dispatch_all same [] history empty_store))
    ≡ shown_at (topic_key listed_log) (dispatch_all same [] history empty_store)
dispatch_all_twice_example =
    dispatch_all_twice same [] (topic_key listed_log) history empty_store moves_none

-- Every call fails.
handle-AllOrNothing_example :
    AllOrNothing true
      (λ c. true)
      empty_store
      (handle [] Event.listed 7 (λ c. true) listed_log empty_store)
handle-AllOrNothing_example =
    handle-AllOrNothing [] Event.listed 7 (λ c. true) listed_log empty_store

batch_layout-WithinData_example :
    WithinData (length batch_log.payload) (batch_layout batch_log.payload)
batch_layout-WithinData_example = batch_layout-WithinData batch_log.payload

layout_found : batch_layout batch_log.payload ≡ arrays 2 5 2
unfolding batch_layout be chunk big_int int64
layout_found = refl

long_enough : 4 ≤ length batch_log.topics
long_enough = omega arith

items_are_words : All IsWord (batch_words items)
items_are_words = omega arith

on_transfer_batch-encode_example :
    on_transfer_batch no_fault batch_log empty_store
    ≡ and_then
        (transfer_each no_fault
          (addr_str batch_log.address)
          (addr_str (topic batch_log 2))
          (addr_str (topic batch_log 3))
          items
          0
          empty_store)
        (λ s'. (
          publish
              (Published.listing_updated (
                sent Event.transfer_batch
                  (addr_str batch_log.address)
                  none
                  (addr_str (topic batch_log 2))
                  (addr_str (topic batch_log 3))))
              s',
          applied,
        ))
on_transfer_batch-encode_example =
    on_transfer_batch-encode no_fault batch_log items empty_store long_enough (omega arith)
      (omega arith) items_are_words refl

single_long : is_short single_log 4 2 ≡ false
unfolding be
single_long = refl

single_live : bytes_eqb (addr_str (topic single_log 3)) zero_addr ≡ false
unfolding addr_str be bytes_eqb
single_live = refl

other_holder : bytes_eqb (addr_str (topic single_log 2)) (addr_str (topic single_log 3)) ≡ false
unfolding addr_str be bytes_eqb
other_holder = refl

single_moves : addr_str (topic single_log 2) ≢ addr_str (topic single_log 3)
single_moves e =
    let same =
      (bytes_eqb_iff (addr_str (topic single_log 2)) (addr_str (topic single_log 3))).1 e in
    absurd (cc (same, other_holder))

single_twice-credits_example :
    (units_at (receiver_key single_log) (on_transfer_single no_fault single_log empty_store).0.db
      ≡ units_at (receiver_key single_log) empty_db +ℤ pos (big_int (chunk single_log.payload 1)))
    × (units_at
          (receiver_key single_log)
          (on_transfer_single no_fault single_log
            (on_transfer_single no_fault single_log empty_store).0).0.db
        ≡ units_at (receiver_key single_log) empty_db
          +ℤ pos (big_int (chunk single_log.payload 1) + big_int (chunk single_log.payload 1)))
single_twice-credits_example =
    single_twice-credits single_log empty_store single_long single_live single_moves

-- The instant lane is handed the hash of the listing once it is cancelled.
listed_long : is_short listed_log 4 4 ≡ false
unfolding be
listed_long = refl

cancelled_long : is_short cancelled_log 4 0 ≡ false
cancelled_long = refl

contract_relevant : is_relevant (be 20 1 ∷ []) listed_log ≡ true
unfolding be bytes_eqb is_relevant
contract_relevant = refl

observe_tx-reactivates_example :
    let s' = (dispatch same [] 8 no_fault cancelled_log empty_store).0 in
    (is_offered (lookup (topic_key listed_log) (listings_of s')) ≡ false)
    × (is_offered (
          lookup (topic_key listed_log) (
            listings_of
              (observe_tx same []
                (λ n. no_fault)
                (be 20 1 ∷ [])
                (bytes "0xf00")
                900
                901
                (found (receipt_of 40 listed_log))
                (some 7)
                ([], s')).0.1))
        ≡ true)
unfolding is_seen
observe_tx-reactivates_example =
    observe_tx-reactivates same [] (be 20 1 ∷ []) (bytes "0xf00") 900 901 7 8 40 listed_log
      cancelled_log [] empty_store listed_event listed_long cancelled_event cancelled_long refl
      contract_relevant refl

insert_bid-leads_example :
    let db' = insert_bid_and_update_auction last_bid bid_db in
    (a' : Auction) × (lookup (pos 3) db'.auctions ≡ some a')
    × (a'.highest_bid_wei ≡ effective_wei (pos 3) a'.highest_bidder db'.bids)
    × ((x : Bytes) → effective_wei (pos 3) x db'.bids ≤ a'.highest_bid_wei)
unfolding lookup bytes_eqb
insert_bid-leads_example = insert_bid-leads last_bid bid_db auction_row refl refl

keeper_applied :
    (on_governance (bytes "0xa" ∷ []) Event.keeper_set 7 no_fault keeper_log empty_store).1
    ≡ applied
unfolding on_governance store_governance
keeper_applied = refl

on_governance-once_example :
    let s' =
      (on_governance (bytes "0xa" ∷ []) Event.keeper_set 7 no_fault keeper_log empty_store).0 in
    (on_governance (bytes "0xb" ∷ []) Event.keeper_set 7 (λ c. true) keeper_log s').0 ≡ s'
on_governance-once_example =
    on_governance-once no_fault (λ c. true) (bytes "0xa" ∷ []) (bytes "0xb" ∷ []) Event.keeper_set 7
      keeper_log empty_store keeper_applied
