-- ===== src/Market/Trading.antt =====
-- The handlers of the Marketplace's events in backend/internal/indexer/handlers.go.
use magic_webb.Base.{ℕ, Bool, true, false, some, if◌then◌else◌, pos}
use magic_webb.Market.Abi.{
  Log, topic, is_short, chunk, big_int, int64, addr_str, standard_of, erc721, erc1155, Event,
}
use magic_webb.Market.Tables.{
  HolderKey, Listing, Sale, ListingUpdate, listing_event, Published, Message, Link,
}
use magic_webb.Market.Queries.{
  upsert_listing_and_ownership, deactivate_listing, deactivate_and_sale,
}
use magic_webb.Market.Ownership.{holder}
use magic_webb.Market.Handling.{
  Store, Call, notice, Plan, reject, write_then, registered, publish, notice_to, notify,
}

abbrev pub listed_row : Log → ℕ → Listing
listed_row l block_time =
    let standard = standard_of (chunk l.payload 0) in
    record {
      price_wei = big_int (chunk l.payload 2);
      amount = elim standard [ erc1155 ↦ int64 (big_int (chunk l.payload 1)) | erc721 ↦ pos 1 ];
      standard = standard;
      expires_at = int64 (big_int (chunk l.payload 3));
      listed_at = block_time;
      tx_hash = l.tx_hash;
      active = true;
      orphaned = false;
      chain_cleaned = false;
    }

-- The listing of topics 1, 2 and 3.
abbrev pub topic_key : Log → HolderKey
topic_key l = holder (addr_str (topic l 1)) (big_int (topic l 2)) (addr_str (topic l 3))

abbrev pub token_link : HolderKey → Link
token_link k = Link.token k.collection k.token_id

abbrev pub on_listed_update : HolderKey → Listing → ListingUpdate
on_listed_update k r = record (listing_event Event.listed k.collection (some k.token_id)) {
  seller = k.holder;
  price_wei = some r.price_wei;
}

unfoldable pub on_listed : ℕ → Log → Plan
unfolding publish
on_listed block_time l =
    if is_short l 4 4
    then reject
    else let k = topic_key l in
      let r = listed_row l block_time in
      registered k.collection r.standard l.block_number (upsert_listing_and_ownership k r)
        (λ fails. publish (Published.listing_updated (on_listed_update k r)))

unfoldable pub on_cancelled : Log → Plan
unfolding publish
on_cancelled l =
    if is_short l 4 0
    then reject
    else let k = topic_key l in
      write_then (deactivate_listing k) (λ fails. publish (
        Published.listing_updated
          (record (listing_event Event.cancelled k.collection (some k.token_id)) {
            seller = k.holder;
          })))

abbrev pub bought_sale : Log → ℕ → Sale
bought_sale l block_time = record {
  collection = addr_str (topic l 1);
  token_id = big_int (topic l 2);
  seller = addr_str (chunk l.payload 0);
  buyer = addr_str (topic l 3);
  price_wei = big_int (chunk l.payload 3);
  fee_wei = big_int (chunk l.payload 4);
  block_number = l.block_number;
  occurred_at = block_time;
}

-- The notification and the event after a sale.
abbrev pub after_bought : (Call → Bool) → HolderKey → Sale → Store → Store
after_bought fails k r s =
    publish
      (Published.listing_updated
        (record (listing_event Event.bought k.collection (some k.token_id)) {
          buyer = r.buyer;
          seller = r.seller;
          price_wei = some r.price_wei;
        }))
      (notify (fails (notice 0)) (notice_to r.seller (Message.sold r.price_wei) (token_link k)) s)

unfoldable pub on_bought : ℕ → Log → Plan
unfolding publish notify
on_bought block_time l =
    if is_short l 4 5
    then reject
    else let r = bought_sale l block_time in
      let k = holder r.collection r.token_id r.seller in
      write_then (deactivate_and_sale k l.tx_hash r) (λ fails. after_bought fails k r)
