-- ===== src/Market/Dispatch.antt =====
-- dispatch of backend/internal/indexer/handlers.go, and a run of it over logs in their order.
use magic_webb.Base.{ℕ, Option, none, some, List, [], ◌∷◌, Bytes}
use magic_webb.Watcher.{applied}
use magic_webb.Market.Abi.{Log, Event, event_of}
use magic_webb.Market.Handling.{Store, Handler, no_fault, run_plan}
use magic_webb.Market.Trading.{on_listed, on_cancelled, on_bought}
use magic_webb.Market.Auctioning.{
  on_auction_created, on_bid_placed, on_outbid_notification, on_auction_extended,
  on_auction_settled, on_loser_refunded, on_auction_cancelled, on_auction_settlement_failed,
  on_refund_pushed,
}
use magic_webb.Market.Offering.{
  on_offer_made, on_offer_accepted, on_offer_refunded, on_offer_eligibility_set,
}
use magic_webb.Market.Transfers.{on_transfer_721, on_transfer_single, on_transfer_batch}
use magic_webb.Market.Governing.{on_governance}

-- `opted_in` are the wallets that ListSecurityAlertRecipients gives.
unfoldable pub handle : List Bytes → Event → ℕ → Handler
unfolding run_plan on_listed on_cancelled on_bought on_auction_created on_bid_placed
    on_outbid_notification on_auction_extended on_auction_settled on_loser_refunded
    on_auction_cancelled on_auction_settlement_failed on_refund_pushed on_offer_made
    on_offer_accepted on_offer_refunded on_offer_eligibility_set on_transfer_721 on_transfer_single
    on_transfer_batch on_governance
handle opted_in Event.listed t fails l s = run_plan (on_listed t l) fails s
handle opted_in Event.cancelled t fails l s = run_plan (on_cancelled l) fails s
handle opted_in Event.bought t fails l s = run_plan (on_bought t l) fails s
handle opted_in Event.auction_created t fails l s = run_plan (on_auction_created l) fails s
handle opted_in Event.bid_placed t fails l s = run_plan (on_bid_placed t l) fails s
handle opted_in Event.outbid_notification t fails l s = run_plan (on_outbid_notification l) fails s
handle opted_in Event.auction_extended t fails l s = run_plan (on_auction_extended l) fails s
handle opted_in Event.auction_settled t fails l s = run_plan (on_auction_settled l) fails s
handle opted_in Event.loser_refunded t fails l s = run_plan (on_loser_refunded l) fails s
handle opted_in Event.auction_cancelled t fails l s =
    run_plan (on_auction_cancelled Event.auction_cancelled l) fails s
handle opted_in Event.auction_settlement_failed t fails l s =
    run_plan (on_auction_settlement_failed l) fails s
handle opted_in Event.auction_force_cancelled t fails l s =
    run_plan (on_auction_cancelled Event.auction_force_cancelled l) fails s
handle opted_in Event.refund_pushed t fails l s = run_plan (on_refund_pushed l) fails s
handle opted_in Event.offer_made t fails l s = run_plan (on_offer_made l) fails s
handle opted_in Event.offer_accepted t fails l s = run_plan (on_offer_accepted t l) fails s
handle opted_in Event.offer_refunded t fails l s = run_plan (on_offer_refunded l) fails s
handle opted_in Event.offer_eligibility_set t fails l s =
    run_plan (on_offer_eligibility_set l) fails s
handle opted_in Event.transfer_721 t fails l s = on_transfer_721 fails l s
handle opted_in Event.transfer_single t fails l s = on_transfer_single fails l s
handle opted_in Event.transfer_batch t fails l s = on_transfer_batch fails l s
handle opted_in Event.keeper_set t fails l s = on_governance opted_in Event.keeper_set t fails l s
handle opted_in Event.admin_renounced t fails l s =
    on_governance opted_in Event.admin_renounced t fails l s
handle opted_in Event.admin_transfer_started t fails l s =
    on_governance opted_in Event.admin_transfer_started t fails l s
handle opted_in Event.admin_transfer_cancelled t fails l s =
    on_governance opted_in Event.admin_transfer_cancelled t fails l s
handle opted_in Event.admin_transferred t fails l s =
    on_governance opted_in Event.admin_transferred t fails l s
handle opted_in Event.audit_log t fails l s = on_governance opted_in Event.audit_log t fails l s
handle opted_in Event.upgrade_queued t fails l s =
    on_governance opted_in Event.upgrade_queued t fails l s
handle opted_in Event.upgrade_cancelled t fails l s =
    on_governance opted_in Event.upgrade_cancelled t fails l s
handle opted_in Event.upgraded t fails l s = on_governance opted_in Event.upgraded t fails l s

abbrev pub handle_known : List Bytes → Option Event → ℕ → Handler
handle_known opted_in none t fails l s = (s, applied)
handle_known opted_in (some e) t fails l s = handle opted_in e t fails l s

unfoldable pub dispatch : (Bytes → Bytes) → List Bytes → ℕ → Handler
unfolding event_of handle
dispatch keccak opted_in t fails l s = handle_known opted_in (event_of keccak l) t fails l s

-- The logs of a range one after another, each with its block's time, where no call fails. A log
-- that is malformed is skipped.
unfoldable pub dispatch_all : (Bytes → Bytes) → List Bytes → List (Log × ℕ) → Store → Store
unfolding dispatch
dispatch_all keccak opted_in [] s = s
dispatch_all keccak opted_in ((l, t) ∷ logs) s =
    dispatch_all keccak opted_in logs (dispatch keccak opted_in t no_fault l s).0
