-- ===== src/Market/Frame.antt =====
-- Which handlers write the listings: the frame of each handler of backend/internal/indexer, where no
-- call of the database fails.
use magic_webb.Base.{
  ℕ, ◌≡◌, refl, ap, ◌∙◌, Bool, not, ◌&&◌, Option, none, some, List, [], ◌∷◌, arith, Bytes,
  bytes_eqb, Bool-cases, inl, inr, GoMap, lookup, bytes_nat_eq, ℤ,
}
use magic_webb.Market.Abi.{Log, Event, is_short, zero_addr, topic, addr_str, chunk, big_int}
use magic_webb.Market.Tables.{
  AuctionStatus, HolderKey, Listing, Offer, Notification, Published, Governance,
}
use magic_webb.Market.Queries.{upsert_offer_position}
use magic_webb.Market.Handling.{Store, Call, run_plan, publish, notify}
use magic_webb.Market.Auctioning.{
  on_auction_created, on_bid_placed, on_outbid_notification, on_auction_extended,
  on_auction_settled, on_loser_refunded, on_auction_cancelled, on_auction_settlement_failed,
  on_refund_pushed, tell_both, topic_id,
}
use magic_webb.Market.Bidding.{insert_bid_and_update_auction, set_auction_status}
use magic_webb.Market.Offering.{
  on_offer_made, on_offer_accepted, on_offer_refunded, on_offer_eligibility_set, tell_owner,
  owner_of, made_row,
}
use magic_webb.Market.Governing.{store_governance, when_fresh, notify_all, is_security_alert}
use magic_webb.Market.Ownership.{lower}
use magic_webb.Market.Handling.{no_fault}

pub publish_db : (e : Published) (s : Store) → (publish e s).db ≡ s.db
unfolding publish
publish_db e s = refl

pub notify_db : (b : Bool) (n : Notification) (s : Store) → (notify b n s).db ≡ s.db
unfolding notify publish
notify_db b n s = ground arith

abbrev pub listings_of : Store → GoMap HolderKey Listing
listings_of s = s.db.listings

tell_both_db :
    (fails : Call → Bool) (id : ℤ) (winner seller : Bytes) (amount : ℕ) (s : Store)
    → (tell_both fails id winner seller amount s).db ≡ s.db
tell_both_db fails id winner seller amount s =
    elim (Bool-cases (not (bytes_eqb winner []) && not (bytes_eqb winner zero_addr))) [
      | inl e ↦ rw e (simp notify_db)
      | inr e ↦ rw e
    ]

tell_owner_db :
    (fails : Call → Bool) (o : Option (Bytes × ℤ)) (r : Offer) (s : Store)
    → (tell_owner fails o r s).db ≡ s.db
tell_owner_db fails none r s = refl
tell_owner_db fails (some (owner, units)) r s = elim (Bool-cases (bytes_eqb owner [])) [
  | inl e ↦ rw e
  | inr e ↦ rw e (simp notify_db)
]

pub created_keeps :
    (l : Log) (s : Store)
    → listings_of (run_plan (on_auction_created l) no_fault s).0 ≡ listings_of s
unfolding on_auction_created run_plan
created_keeps l s = elim (Bool-cases (is_short l 4 6)) [ inl c ↦ rw c | inr c ↦ rw c ]

pub bid_keeps :
    (t : ℕ) (l : Log) (s : Store)
    → listings_of (run_plan (on_bid_placed t l) no_fault s).0 ≡ listings_of s
unfolding on_bid_placed insert_bid_and_update_auction run_plan
bid_keeps t l s = elim (Bool-cases (is_short l 3 2)) [ inl c ↦ rw c | inr c ↦ rw c ]

pub outbid_keeps :
    (l : Log) (s : Store)
    → listings_of (run_plan (on_outbid_notification l) no_fault s).0 ≡ listings_of s
unfolding on_outbid_notification run_plan
outbid_keeps l s = elim (Bool-cases (is_short l 3 1)) [
  | inl c ↦ rw c
  | inr c ↦ rw c (simp notify_db)
]

pub refund_keeps :
    (l : Log) (s : Store)
    → listings_of (run_plan (on_loser_refunded l) no_fault s).0 ≡ listings_of s
unfolding on_loser_refunded run_plan
refund_keeps l s = elim (Bool-cases (is_short l 3 1)) [
  | inl c ↦ rw c
  | inr c ↦ rw c (simp notify_db)
]

pub pushed_keeps :
    (l : Log) (s : Store) → listings_of (run_plan (on_refund_pushed l) no_fault s).0 ≡ listings_of s
unfolding on_refund_pushed run_plan
pushed_keeps l s = elim (Bool-cases (is_short l 2 1)) [
  | inl c ↦ rw c
  | inr c ↦ rw c (simp notify_db)
]

pub extended_keeps :
    (l : Log) (s : Store)
    → listings_of (run_plan (on_auction_extended l) no_fault s).0 ≡ listings_of s
unfolding on_auction_extended run_plan
extended_keeps l s = elim (Bool-cases (is_short l 2 1)) [ inl c ↦ rw c | inr c ↦ rw c ]

pub settled_keeps :
    (l : Log) (s : Store)
    → listings_of (run_plan (on_auction_settled l) no_fault s).0 ≡ listings_of s
unfolding on_auction_settled run_plan
settled_keeps l s = elim (Bool-cases (is_short l 4 2)) [
  | inl c ↦ rw c
  | inr c ↦ rw c (
      ap (λ d. d.listings)
        (tell_both_db no_fault (topic_id l) (addr_str (topic l 2)) (addr_str (topic l 3))
          (big_int (chunk l.payload 0))
          (record s { db = set_auction_status (topic_id l) AuctionStatus.settled s.db })))
]

pub cancelled_keeps :
    (e : Event) (l : Log) (s : Store)
    → listings_of (run_plan (on_auction_cancelled e l) no_fault s).0 ≡ listings_of s
unfolding on_auction_cancelled run_plan
cancelled_keeps e l s = elim (Bool-cases (is_short l 2 0)) [ inl c ↦ rw c | inr c ↦ rw c ]

pub failed_keeps :
    (l : Log) (s : Store)
    → listings_of (run_plan (on_auction_settlement_failed l) no_fault s).0 ≡ listings_of s
unfolding on_auction_settlement_failed run_plan
failed_keeps l s = elim (Bool-cases (is_short l 3 1)) [
  | inl c ↦ rw c
  | inr c ↦ rw c (simp notify_db)
]

pub made_keeps :
    (l : Log) (s : Store) → listings_of (run_plan (on_offer_made l) no_fault s).0 ≡ listings_of s
unfolding on_offer_made run_plan
made_keeps l s = elim (Bool-cases (is_short l 4 3)) [
  | inl c ↦ rw c
  | inr c ↦ rw c (
      let r = made_row l in
      let s' = record s { db = upsert_offer_position r s.db } in
      ap (λ d. d.listings) (tell_owner_db no_fault (owner_of no_fault r.position s') r s'))
]

pub accepted_keeps :
    (t : ℕ) (l : Log) (s : Store)
    → listings_of (run_plan (on_offer_accepted t l) no_fault s).0 ≡ listings_of s
unfolding on_offer_accepted run_plan
accepted_keeps t l s = elim (Bool-cases (is_short l 4 5)) [
  | inl c ↦ rw c
  | inr c ↦ rw c (simp notify_db)
]

pub refunded_keeps :
    (l : Log) (s : Store)
    → listings_of (run_plan (on_offer_refunded l) no_fault s).0 ≡ listings_of s
unfolding on_offer_refunded run_plan
refunded_keeps l s = elim (Bool-cases (is_short l 4 0)) [
  | inl c ↦ rw c
  | inr c ↦ rw c (simp notify_db)
]

pub eligible_keeps :
    (l : Log) (s : Store)
    → listings_of (run_plan (on_offer_eligibility_set l) no_fault s).0 ≡ listings_of s
unfolding on_offer_eligibility_set run_plan
eligible_keeps l s = elim (Bool-cases (is_short l 3 0)) [ inl c ↦ rw c | inr c ↦ rw c ]

pub notify_all_db :
    (fails : Call → Bool) (i : ℕ) (g : Governance) (addrs : List Bytes) (s : Store)
    → (notify_all fails i g addrs s).db ≡ s.db
unfolding notify_all
notify_all_db fails i g [] s = refl
notify_all_db fails i g (addr ∷ addrs) s = notify_all_db fails i g addrs _ ∙ notify_db _ _ s

when_fresh_keeps :
    (opted_in : List Bytes) (k : Bytes × ℕ) (g : Governance) (old : Option Governance) (s : Store)
    → listings_of (when_fresh no_fault opted_in k g old s) ≡ listings_of s
when_fresh_keeps opted_in k g (some row) s = refl
when_fresh_keeps opted_in k g none s = elim (Bool-cases (is_security_alert g.event)) [
  | inl c ↦ rw c (ap (λ d. d.listings) (notify_all_db no_fault 0 g opted_in _ ∙ publish_db _ _))
  | inr c ↦ rw c (ap (λ d. d.listings) (publish_db _ _))
]

pub governance_keeps :
    (opted_in : List Bytes) (g : Option Governance) (l : Log) (s : Store)
    → listings_of (store_governance opted_in g no_fault l s).0 ≡ listings_of s
unfolding store_governance
governance_keeps opted_in none l s = refl
governance_keeps opted_in (some g) l s =
    when_fresh_keeps opted_in (lower g.tx_hash, l.log_index) g
      (lookup (lower g.tx_hash, l.log_index) s.db.governance_events) s
