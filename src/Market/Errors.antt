-- ===== src/Market/Errors.antt =====
-- What a handler leaves where a log is not applied.
use magic_webb.Base.{ℕ, Bool, not, List, Bytes}
use magic_webb.Market.Abi.{Log, Event}
use magic_webb.Market.Handling.{Store, Call}
use magic_webb.Market.Trading.{on_listed, on_cancelled, on_bought}
use magic_webb.Market.Auctioning.{
  on_auction_created, on_bid_placed, on_outbid_notification, on_auction_extended,
  on_auction_settled, on_loser_refunded, on_auction_cancelled, on_auction_settlement_failed,
  on_refund_pushed,
}
use magic_webb.Market.Offering.{
  on_offer_made, on_offer_accepted, on_offer_refunded, on_offer_eligibility_set,
}
use magic_webb.Market.Governing.{on_governance}
use magic_webb.Market.Dispatch.{handle}
use magic_webb.Market.Failing.{
  is_transfer, AllOrNothing, batch-AllOrNothing, governance-AllOrNothing, plan-AllOrNothing,
  single-AllOrNothing, transfer_721-AllOrNothing,
}

-- Whatever calls of the database fail: a malformed log leaves the store as it was. A handler that
-- fails, the three of the transfers apart, leaves it as it was but for the collections registered:
-- no other row is written, no event is published and no one is notified. And a handler fails
-- only where a call of the database does.
pub handle-AllOrNothing :
    (opted_in : List Bytes) (e : Event) (t : ℕ) (fails : Call → Bool) (l : Log) (s : Store)
    → AllOrNothing (not (is_transfer e)) fails s (handle opted_in e t fails l s)
unfolding handle on_governance
handle-AllOrNothing opted_in Event.listed t fails l s = plan-AllOrNothing fails s (on_listed t l)
handle-AllOrNothing opted_in Event.cancelled t fails l s =
    plan-AllOrNothing fails s (on_cancelled l)
handle-AllOrNothing opted_in Event.bought t fails l s = plan-AllOrNothing fails s (on_bought t l)
handle-AllOrNothing opted_in Event.auction_created t fails l s =
    plan-AllOrNothing fails s (on_auction_created l)
handle-AllOrNothing opted_in Event.bid_placed t fails l s =
    plan-AllOrNothing fails s (on_bid_placed t l)
handle-AllOrNothing opted_in Event.outbid_notification t fails l s =
    plan-AllOrNothing fails s (on_outbid_notification l)
handle-AllOrNothing opted_in Event.auction_extended t fails l s =
    plan-AllOrNothing fails s (on_auction_extended l)
handle-AllOrNothing opted_in Event.auction_settled t fails l s =
    plan-AllOrNothing fails s (on_auction_settled l)
handle-AllOrNothing opted_in Event.loser_refunded t fails l s =
    plan-AllOrNothing fails s (on_loser_refunded l)
handle-AllOrNothing opted_in Event.auction_cancelled t fails l s =
    plan-AllOrNothing fails s (on_auction_cancelled Event.auction_cancelled l)
handle-AllOrNothing opted_in Event.auction_settlement_failed t fails l s =
    plan-AllOrNothing fails s (on_auction_settlement_failed l)
handle-AllOrNothing opted_in Event.auction_force_cancelled t fails l s =
    plan-AllOrNothing fails s (on_auction_cancelled Event.auction_force_cancelled l)
handle-AllOrNothing opted_in Event.refund_pushed t fails l s =
    plan-AllOrNothing fails s (on_refund_pushed l)
handle-AllOrNothing opted_in Event.offer_made t fails l s =
    plan-AllOrNothing fails s (on_offer_made l)
handle-AllOrNothing opted_in Event.offer_accepted t fails l s =
    plan-AllOrNothing fails s (on_offer_accepted t l)
handle-AllOrNothing opted_in Event.offer_refunded t fails l s =
    plan-AllOrNothing fails s (on_offer_refunded l)
handle-AllOrNothing opted_in Event.offer_eligibility_set t fails l s =
    plan-AllOrNothing fails s (on_offer_eligibility_set l)
handle-AllOrNothing opted_in Event.transfer_721 t fails l s = transfer_721-AllOrNothing fails l s
handle-AllOrNothing opted_in Event.transfer_single t fails l s = single-AllOrNothing fails l s
handle-AllOrNothing opted_in Event.transfer_batch t fails l s = batch-AllOrNothing fails l s
handle-AllOrNothing opted_in Event.keeper_set t fails l s =
    governance-AllOrNothing fails s opted_in _ l
handle-AllOrNothing opted_in Event.admin_renounced t fails l s =
    governance-AllOrNothing fails s opted_in _ l
handle-AllOrNothing opted_in Event.admin_transfer_started t fails l s =
    governance-AllOrNothing fails s opted_in _ l
handle-AllOrNothing opted_in Event.admin_transfer_cancelled t fails l s =
    governance-AllOrNothing fails s opted_in _ l
handle-AllOrNothing opted_in Event.admin_transferred t fails l s =
    governance-AllOrNothing fails s opted_in _ l
handle-AllOrNothing opted_in Event.audit_log t fails l s =
    governance-AllOrNothing fails s opted_in _ l
handle-AllOrNothing opted_in Event.upgrade_queued t fails l s =
    governance-AllOrNothing fails s opted_in _ l
handle-AllOrNothing opted_in Event.upgrade_cancelled t fails l s =
    governance-AllOrNothing fails s opted_in _ l
handle-AllOrNothing opted_in Event.upgraded t fails l s =
    governance-AllOrNothing fails s opted_in _ l
