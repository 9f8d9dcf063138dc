-- ===== src/Market/Replay.antt =====
-- Dispatching a range of logs twice: dispatch of backend/internal/indexer/handlers.go, as the
-- watcher's rewinds and the instant lane do.
use magic_webb.Base.{
  ℕ, ◌≡◌, refl, sym, ap, ◌∙◌, Bool, true, false, Option, none, some, List, [], ◌∷◌, Bytes, lookup,
  All,
}
use magic_webb.Market.Abi.{Log, Event, event_of}
use magic_webb.Market.Tables.{HolderKey, holder_key_eq}
use magic_webb.Market.Handling.{Store, no_fault}
use magic_webb.Market.Governing.{on_governance}
use magic_webb.Market.Dispatch.{handle, handle_known, dispatch, dispatch_all}
use magic_webb.Market.Effects.{shown, Effect, keeps, affect, affect_all, affect_twice}
use magic_webb.Market.Frame.{
  created_keeps, bid_keeps, outbid_keeps, refund_keeps, pushed_keeps, extended_keeps, settled_keeps,
  cancelled_keeps, failed_keeps, made_keeps, accepted_keeps, refunded_keeps, eligible_keeps,
  governance_keeps,
}
use magic_webb.Market.Relisting.{
  shown_at, listed_effect, cancelled_effect, bought_effect, transfer_effect, listed_affects,
  cancelled_affects, bought_affects, transfer_affects,
}

-- ERC-1155 transfers, which add to the units that are there.
abbrev pub moves_units : Option Event → Bool
moves_units none = false
moves_units (some Event.transfer_single) = true
moves_units (some Event.transfer_batch) = true
moves_units (some _) = false

abbrev effect_of : Event → Log → ℕ → HolderKey → Effect
effect_of Event.listed l t k = listed_effect l t k
effect_of Event.cancelled l t k = cancelled_effect l k
effect_of Event.bought l t k = bought_effect l k
effect_of Event.transfer_721 l t k = transfer_effect l k
effect_of _ l t k = keeps

handle_affects :
    (opted_in : List Bytes) (e : Event) (t : ℕ) (l : Log) (k : HolderKey) (s : Store)
    → moves_units (some e) ≡ false
    → shown_at k (handle opted_in e t no_fault l s).0 ≡ affect (effect_of e l t k) (shown_at k s)
unfolding handle on_governance
handle_affects opted_in Event.listed t l k s h = listed_affects t l k s
handle_affects opted_in Event.cancelled t l k s h = cancelled_affects l k s
handle_affects opted_in Event.bought t l k s h = bought_affects t l k s
handle_affects opted_in Event.auction_created t l k s h =
    ap (λ m. shown (lookup k m)) (created_keeps l s)
handle_affects opted_in Event.bid_placed t l k s h = ap (λ m. shown (lookup k m)) (bid_keeps t l s)
handle_affects opted_in Event.outbid_notification t l k s h =
    ap (λ m. shown (lookup k m)) (outbid_keeps l s)
handle_affects opted_in Event.auction_extended t l k s h =
    ap (λ m. shown (lookup k m)) (extended_keeps l s)
handle_affects opted_in Event.auction_settled t l k s h =
    ap (λ m. shown (lookup k m)) (settled_keeps l s)
handle_affects opted_in Event.loser_refunded t l k s h =
    ap (λ m. shown (lookup k m)) (refund_keeps l s)
handle_affects opted_in Event.auction_cancelled t l k s h =
    ap (λ m. shown (lookup k m)) (cancelled_keeps Event.auction_cancelled l s)
handle_affects opted_in Event.auction_settlement_failed t l k s h =
    ap (λ m. shown (lookup k m)) (failed_keeps l s)
handle_affects opted_in Event.auction_force_cancelled t l k s h =
    ap (λ m. shown (lookup k m)) (cancelled_keeps Event.auction_force_cancelled l s)
handle_affects opted_in Event.refund_pushed t l k s h =
    ap (λ m. shown (lookup k m)) (pushed_keeps l s)
handle_affects opted_in Event.offer_made t l k s h = ap (λ m. shown (lookup k m)) (made_keeps l s)
handle_affects opted_in Event.offer_accepted t l k s h =
    ap (λ m. shown (lookup k m)) (accepted_keeps t l s)
handle_affects opted_in Event.offer_refunded t l k s h =
    ap (λ m. shown (lookup k m)) (refunded_keeps l s)
handle_affects opted_in Event.offer_eligibility_set t l k s h =
    ap (λ m. shown (lookup k m)) (eligible_keeps l s)
handle_affects opted_in Event.transfer_721 t l k s h = transfer_affects l k s
handle_affects opted_in Event.transfer_single t l k s h = absurd (cc)
handle_affects opted_in Event.transfer_batch t l k s h = absurd (cc)
handle_affects opted_in Event.keeper_set t l k s h =
    ap (λ m. shown (lookup k m)) (governance_keeps opted_in _ l s)
handle_affects opted_in Event.admin_renounced t l k s h =
    ap (λ m. shown (lookup k m)) (governance_keeps opted_in _ l s)
handle_affects opted_in Event.admin_transfer_started t l k s h =
    ap (λ m. shown (lookup k m)) (governance_keeps opted_in _ l s)
handle_affects opted_in Event.admin_transfer_cancelled t l k s h =
    ap (λ m. shown (lookup k m)) (governance_keeps opted_in _ l s)
handle_affects opted_in Event.admin_transferred t l k s h =
    ap (λ m. shown (lookup k m)) (governance_keeps opted_in _ l s)
handle_affects opted_in Event.audit_log t l k s h =
    ap (λ m. shown (lookup k m)) (governance_keeps opted_in _ l s)
handle_affects opted_in Event.upgrade_queued t l k s h =
    ap (λ m. shown (lookup k m)) (governance_keeps opted_in _ l s)
handle_affects opted_in Event.upgrade_cancelled t l k s h =
    ap (λ m. shown (lookup k m)) (governance_keeps opted_in _ l s)
handle_affects opted_in Event.upgraded t l k s h =
    ap (λ m. shown (lookup k m)) (governance_keeps opted_in _ l s)

abbrev known_effect : Option Event → Log → ℕ → HolderKey → Effect
known_effect none l t k = keeps
known_effect (some e) l t k = effect_of e l t k

known_affects :
    (opted_in : List Bytes) (e : Option Event) (t : ℕ) (l : Log) (k : HolderKey) (s : Store)
    → moves_units e ≡ false
    → shown_at k (handle_known opted_in e t no_fault l s).0
      ≡ affect (known_effect e l t k) (shown_at k s)
known_affects opted_in none t l k s h = refl
known_affects opted_in (some e) t l k s h = handle_affects opted_in e t l k s h

abbrev effects_of : (Bytes → Bytes) → HolderKey → List (Log × ℕ) → List Effect
effects_of keccak k [] = []
effects_of keccak k ((l, t) ∷ logs) =
    known_effect (event_of keccak l) l t k ∷ effects_of keccak k logs

dispatch_all_affects :
    (keccak : Bytes → Bytes) (opted_in : List Bytes) (k : HolderKey) (logs : List (Log × ℕ))
    (s : Store)
    → All (λ p. moves_units (event_of keccak p.0) ≡ false) logs
    → shown_at k (dispatch_all keccak opted_in logs s)
      ≡ affect_all (effects_of keccak k logs) (shown_at k s)
unfolding dispatch_all dispatch
dispatch_all_affects keccak opted_in k [] s h = refl
dispatch_all_affects keccak opted_in k ((l, t) ∷ logs) s (h, rest) =
    dispatch_all_affects keccak opted_in k logs (dispatch keccak opted_in t no_fault l s).0 rest
    ∙ ap (affect_all (effects_of keccak k logs))
        (known_affects opted_in (event_of keccak l) t l k s h)

-- Whatever the hash function and the store: where no call of the database fails, dispatching a
-- range of logs a second time, from the first log to the last, changes no listing but in its
-- chain_cleaned. The logs may be of any events but TransferSingle and TransferBatch, and may be malformed.
pub dispatch_all_twice :
    (keccak : Bytes → Bytes) (opted_in : List Bytes) (k : HolderKey) (logs : List (Log × ℕ))
    (s : Store)
    → All (λ p. moves_units (event_of keccak p.0) ≡ false) logs
    → shown_at k (dispatch_all keccak opted_in logs (dispatch_all keccak opted_in logs s))
      ≡ shown_at k (dispatch_all keccak opted_in logs s)
dispatch_all_twice keccak opted_in k logs s h =
    let once = dispatch_all_affects keccak opted_in k logs s h in
    dispatch_all_affects keccak opted_in k logs (dispatch_all keccak opted_in logs s) h
    ∙ ap (affect_all (effects_of keccak k logs)) once
    ∙ affect_twice (effects_of keccak k logs) (shown_at k s)
    ∙ sym once
