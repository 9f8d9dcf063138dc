-- ===== src/Market/Offering.antt =====
-- The handlers of the OfferBook's events in backend/internal/indexer/handlers.go.
use magic_webb.Base.{
  ℕ, Bool, not, Option, none, some, [], Bytes, bytes_eqb, nat_eqb, if◌then◌else◌, ℤ, pos, ltb_ℤ,
}
use magic_webb.Market.Abi.{
  Log, topic, is_short, chunk, big_int, int64, addr_str, erc721, erc1155, Event,
}
use magic_webb.Market.Tables.{HolderKey, Sale, OfferStatus, Offer, OfferUpdate, Published, Message}
use magic_webb.Market.Queries.{
  set_collection_offer_eligible, upsert_offer_position, upsert_offer, set_offer_status,
  accept_offer_and_record_sale,
}
use magic_webb.Market.Ownership.{holder, get_token_owner}
use magic_webb.Market.Handling.{
  Store, Call, notice, owner_read, Plan, reject, write_then, publish, notice_to, notify,
}
use magic_webb.Market.Trading.{topic_key, token_link}

unfoldable pub on_offer_eligibility_set : Log → Plan
on_offer_eligibility_set l =
    if is_short l 3 0
    then reject
    else let eligible = not (nat_eqb (big_int (topic l 2)) 0) in
      write_then (set_collection_offer_eligible (addr_str (topic l 1)) eligible) (λ fails s'. s')

-- The units of a word: at least 1 where they are stored.
abbrev pub made_row : Log → Offer
made_row l =
    let units = int64 (big_int (chunk l.payload 1)) in
    record {
      position = topic_key l;
      principal_wei = big_int (chunk l.payload 0);
      fee_wei = 0;
      units = if ltb_ℤ units (pos 1) then pos 1 else units;
      standard = if ltb_ℤ (pos 1) units then erc1155 else erc721;
      expires_at = int64 (big_int (chunk l.payload 2));
      status = OfferStatus.pending;
      make_tx = l.tx_hash;
    }

-- The owner of the token is told, where there is one that can be read.
abbrev pub tell_owner : (Call → Bool) → Option (Bytes × ℤ) → Offer → Store → Store
tell_owner fails none r s = s
tell_owner fails (some (owner, units)) r s =
    if bytes_eqb owner []
    then s
    else notify (fails (notice 0))
        (notice_to owner (Message.offer_received r.principal_wei) (token_link r.position)) s

abbrev pub owner_of : (Call → Bool) → HolderKey → Store → Option (Bytes × ℤ)
owner_of fails k s =
    if fails owner_read then none else get_token_owner k.collection k.token_id s.db.holdings

abbrev pub offer_event : Event → HolderKey → Bytes → Option ℕ → OfferUpdate
offer_event e k seller principal = record {
  event = e;
  collection = k.collection;
  token_id = k.token_id;
  seller = seller;
  bidder = k.holder;
  principal = principal;
}

unfoldable pub on_offer_made : Log → Plan
unfolding publish notify get_token_owner upsert_offer
on_offer_made l =
    if is_short l 4 3
    then reject
    else let r = made_row l in
      write_then (upsert_offer_position r) (λ fails s'.
        publish
          (Published.offer_updated
            (offer_event Event.offer_made r.position [] (some r.principal_wei)))
          (tell_owner fails (owner_of fails r.position s') r s'))

abbrev pub accepted_sale : Log → ℕ → Sale
accepted_sale l block_time = record {
  collection = addr_str (topic l 1);
  token_id = big_int (topic l 2);
  seller = addr_str (topic l 3);
  buyer = addr_str (chunk l.payload 0);
  price_wei = big_int (chunk l.payload 1);
  fee_wei = big_int (chunk l.payload 2);
  block_number = l.block_number;
  occurred_at = block_time;
}

unfoldable pub on_offer_accepted : ℕ → Log → Plan
unfolding publish notify
on_offer_accepted block_time l =
    if is_short l 4 5
    then reject
    else let r = accepted_sale l block_time in
      let k = holder r.collection r.token_id r.buyer in
      write_then (accept_offer_and_record_sale k l.tx_hash r) (λ fails s'.
        publish
          (Published.offer_updated (offer_event Event.offer_accepted k r.seller (some r.price_wei)))
          (notify (fails (notice 0))
            (notice_to r.buyer (Message.offer_accepted r.price_wei) (token_link k)) s'))

unfoldable pub on_offer_refunded : Log → Plan
unfolding publish notify
on_offer_refunded l =
    if is_short l 4 0
    then reject
    else let k = topic_key l in
      write_then (set_offer_status k OfferStatus.cancelled) (λ fails s'.
        publish (Published.offer_updated (offer_event Event.offer_refunded k [] none))
          (notify (fails (notice 0)) (notice_to k.holder Message.offer_rejected (token_link k)) s'))
