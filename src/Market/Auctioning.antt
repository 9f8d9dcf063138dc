-- ===== src/Market/Auctioning.antt =====
-- The handlers of the AuctionHouse's events in backend/internal/indexer/handlers.go.
use magic_webb.Base.{ℕ, Bool, not, ◌&&◌, some, [], Bytes, bytes_eqb, if◌then◌else◌, ℤ}
use magic_webb.Market.Abi.{
  Log, topic, is_short, chunk, big_int, int64, addr_str, standard_of, zero_addr, Event,
}
use magic_webb.Market.Tables.{
  AuctionStatus, Auction, Bid, AuctionUpdate, auction_event, Published, Message, Link,
}
use magic_webb.Market.Queries.{seed_pending_withdrawal}
use magic_webb.Market.Bidding.{
  upsert_auction, set_auction_status, extend_auction, insert_bid_and_update_auction,
}
use magic_webb.Market.Handling.{
  Store, Call, notice, seed, Plan, reject, only, write_then, registered, attempt, publish,
  notice_to, notify,
}

abbrev pub topic_id : Log → ℤ
topic_id l = int64 (big_int (topic l 1))

abbrev pub created_row : Log → Auction
created_row l = record {
  collection = addr_str (topic l 2);
  token_id = big_int (topic l 3);
  seller = addr_str (chunk l.payload 0);
  standard = standard_of (chunk l.payload 1);
  reserve_price_wei = big_int (chunk l.payload 3);
  highest_bid_wei = 0;
  highest_bidder = [];
  starts_at = int64 (big_int (chunk l.payload 4));
  ends_at = int64 (big_int (chunk l.payload 5));
  status = AuctionStatus.active;
  create_tx = l.tx_hash;
}

unfoldable pub on_auction_created : Log → Plan
unfolding publish
on_auction_created l =
    if is_short l 4 6
    then reject
    else let r = created_row l in
      registered r.collection r.standard l.block_number (upsert_auction (topic_id l) r) (λ fails.
        publish (Published.auction_updated (auction_event Event.auction_created (topic_id l))))

abbrev pub bid_row : Log → ℕ → Bid
bid_row l block_time = record {
  auction_id = topic_id l;
  bidder = addr_str (topic l 2);
  amount_wei = big_int (chunk l.payload 0);
  tx_hash = l.tx_hash;
  placed_at = block_time;
}

unfoldable pub on_bid_placed : ℕ → Log → Plan
unfolding publish insert_bid_and_update_auction
on_bid_placed block_time l =
    if is_short l 3 2
    then reject
    else let b = bid_row l block_time in
      write_then (insert_bid_and_update_auction b) (λ fails. publish (
        Published.auction_updated (record (auction_event Event.bid_placed b.auction_id) {
          bidder = b.bidder;
          amt_wei = some b.amount_wei;
          effective_wei = some (big_int (chunk l.payload 1));
        })))

unfoldable pub on_outbid_notification : Log → Plan
unfolding publish notify
on_outbid_notification l =
    if is_short l 3 1
    then reject
    else let id = topic_id l in
      let outbid = addr_str (topic l 2) in
      let total = big_int (chunk l.payload 0) in
      only (λ fails s.
        publish
          (Published.auction_updated (record (auction_event Event.outbid_notification id) {
            outbid_addr = outbid;
            leader_total = some total;
          }))
          (notify (fails (notice 0)) (notice_to outbid (Message.outbid total) (Link.auction id)) s))

unfoldable pub on_loser_refunded : Log → Plan
unfolding publish notify
on_loser_refunded l =
    if is_short l 3 1
    then reject
    else let id = topic_id l in
      let bidder = addr_str (topic l 2) in
      let amount = big_int (chunk l.payload 0) in
      only (λ fails s.
        publish
          (Published.auction_updated (record (auction_event Event.loser_refunded id) {
            bidder = bidder;
            amt_wei = some amount;
          }))
          (attempt (fails seed) (seed_pending_withdrawal bidder) (
            notify (fails (notice 0)) (notice_to bidder (Message.refund amount) (Link.auction id))
              s)))

unfoldable pub on_refund_pushed : Log → Plan
unfolding notify
on_refund_pushed l =
    if is_short l 2 1
    then reject
    else let bidder = addr_str (topic l 1) in
      let amount = big_int (chunk l.payload 0) in
      only (λ fails s. attempt (fails seed) (seed_pending_withdrawal bidder) (
        notify (fails (notice 0))
          (notice_to bidder (Message.refund_issued amount) (Link.profile bidder)) s))

unfoldable pub on_auction_extended : Log → Plan
unfolding publish
on_auction_extended l =
    if is_short l 2 1
    then reject
    else let id = topic_id l in
      let ends = int64 (big_int (chunk l.payload 0)) in
      write_then (extend_auction id ends) (λ fails. publish (
        Published.auction_updated
          (record (auction_event Event.auction_extended id) { end_time = some ends })))

-- The winner and the seller are told where there is a winner.
abbrev pub tell_both : (Call → Bool) → ℤ → Bytes → Bytes → ℕ → Store → Store
tell_both fails id winner seller amount s =
    if not (bytes_eqb winner []) && not (bytes_eqb winner zero_addr)
    then notify (fails (notice 1))
        (notice_to seller (Message.auction_settled amount) (Link.auction id))
        (notify (fails (notice 0)) (notice_to winner (Message.auction_won amount) (Link.auction id))
          s)
    else s

abbrev pub settled_update : ℤ → Bytes → Bytes → ℕ → AuctionUpdate
settled_update id winner seller amount = record (auction_event Event.auction_settled id) {
  winner = winner;
  seller = seller;
  amt_wei = some amount;
}

unfoldable pub on_auction_settled : Log → Plan
unfolding publish notify
on_auction_settled l =
    if is_short l 4 2
    then reject
    else let id = topic_id l in
      let winner = addr_str (topic l 2) in
      let seller = addr_str (topic l 3) in
      let amount = big_int (chunk l.payload 0) in
      write_then (set_auction_status id AuctionStatus.settled) (λ fails s'.
        publish (Published.auction_updated (settled_update id winner seller amount))
          (tell_both fails id winner seller amount s'))

-- onAuctionCancelled and onAuctionForceCancelled, which differ in the event published.
unfoldable pub on_auction_cancelled : Event → Log → Plan
unfolding publish
on_auction_cancelled e l =
    if is_short l 2 0
    then reject
    else write_then (set_auction_status (topic_id l) AuctionStatus.cancelled)
        (λ fails. publish (Published.auction_updated (auction_event e (topic_id l))))

unfoldable pub on_auction_settlement_failed : Log → Plan
unfolding publish notify
on_auction_settlement_failed l =
    if is_short l 3 1
    then reject
    else let id = topic_id l in
      let winner = addr_str (topic l 2) in
      let amount = big_int (chunk l.payload 0) in
      write_then (set_auction_status id AuctionStatus.cancelled) (λ fails s'.
        publish
          (Published.auction_updated (record (auction_event Event.auction_settlement_failed id) {
            winner = winner;
            amt_wei = some amount;
          }))
          (notify (fails (notice 0))
            (notice_to winner (Message.not_delivered amount) (Link.auction id)) s'))
