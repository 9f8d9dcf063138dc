-- ===== src/Market/Reactivation.antt =====
-- The instant lane on a transaction of the past: ObserveTx of backend/internal/indexer/observe.go
-- dispatches the logs of any hash.
use magic_webb.Base.{
  ℕ, ◌≡◌, refl, sym, ap, ◌∙◌, subst, Bool, true, false, not, ◌&&◌, Option, none, some, List, [],
  ◌∷◌, Bytes, lookup, map_some, eqb_refl,
}
use magic_webb.Watcher.{Outcome, applied}
use magic_webb.Market.Abi.{Log, Event, is_short, event_of}
use magic_webb.Market.Tables.{holder_key_eq, Listing}
use magic_webb.Market.Handling.{Store, run_plan, publish, no_fault}
use magic_webb.Market.Trading.{topic_key, listed_row, on_listed, on_cancelled}
use magic_webb.Market.Dispatch.{dispatch, handle}
use magic_webb.Market.Observe.{
  Receipt, found, Observed, is_seen, is_relevant, observe_logs, observe_tx, observe_receipt,
}
use magic_webb.Market.Effects.{shown, hide, affect, hides, lists}
use magic_webb.Market.Frame.{listings_of}
use magic_webb.Market.Relisting.{
  shown_at, listed_effect, cancelled_effect, listed_affects, cancelled_affects,
}

-- Whether a listing is offered.
abbrev pub is_offered : Option Listing → Bool
is_offered none = false
is_offered (some row) = row.active && not row.orphaned

offered-shown : (o : Option Listing) → is_offered (shown o) ≡ is_offered o
offered-shown none = refl
offered-shown (some row) = refl

offered-hide : (o : Option Listing) → is_offered (map_some hide o) ≡ false
offered-hide none = refl
offered-hide (some row) = refl

cancelled-offered :
    (c : Log) (s : Store)
    → is_short c 4 0 ≡ false
    → is_offered (lookup (topic_key c) (listings_of (run_plan (on_cancelled c) no_fault s).0))
      ≡ false
cancelled-offered c s long =
    let k = topic_key c in
    let effect : cancelled_effect c k ≡ hides = rw (long, eqb_refl k) in
    let after = lookup k (listings_of (run_plan (on_cancelled c) no_fault s).0) in
    sym (offered-shown after)
    ∙ ap is_offered (cancelled_affects c k s ∙ ap (λ e. affect e (shown_at k s)) effect)
    ∙ offered-hide (shown_at k s)

listed-offered :
    (t : ℕ) (l : Log) (s : Store)
    → is_short l 4 4 ≡ false
    → is_offered (lookup (topic_key l) (listings_of (run_plan (on_listed t l) no_fault s).0)) ≡ true
listed-offered t l s long =
    let k = topic_key l in
    let effect : listed_effect l t k ≡ lists (listed_row l t) = rw (long, eqb_refl k) in
    let after = lookup k (listings_of (run_plan (on_listed t l) no_fault s).0) in
    sym (offered-shown after)
    ∙ ap is_offered (listed_affects t l k s ∙ ap (λ e. affect e (shown_at k s)) effect)

listed-applied :
    (t : ℕ) (l : Log) (s : Store)
    → is_short l 4 4 ≡ false
    → (run_plan (on_listed t l) no_fault s).1 ≡ applied
unfolding run_plan on_listed
listed-applied t l s long = rw long

-- The receipt of a successful transaction with one log.
abbrev pub receipt_of : ℕ → Log → Receipt
receipt_of b l = record { block_number = b; succeeded = true; logs = l ∷ [] }

observe_one :
    (step : ℕ → Log → Store → Store × Outcome) (l : Log) (s s' : Store)
    → step 0 l s ≡ (s', applied)
    → observe_logs step (l ∷ []) 0 s ≡ (s', none)
unfolding observe_logs
observe_one step l s s' e =
    rw (ap (λ r. r.1) e, observe_logs) (ap (λ (r : Store × Outcome). (r.0, none)) e)

receipt-listings :
    (step : ℕ → ℕ → Log → Store → Store × Outcome) (relevant : List Bytes) (h : Bytes)
    (now marked_at t b : ℕ) (l : Log) (seen : Observed) (s s' : Store)
    → step t 0 l s ≡ (s', applied)
    → is_relevant relevant l ≡ true
    → is_seen h now seen ≡ false
    → listings_of
        (observe_receipt step relevant h now marked_at
          (found (receipt_of b l))
          (some t)
          (seen, s)).0.1
      ≡ listings_of s'
unfolding publish
receipt-listings step relevant h now marked_at t b l seen s s' e rel fresh =
    rw (fresh, rel, observe_one (step t) l s s' e)

module _ (keccak : Bytes → Bytes) (opted_in : List Bytes) where
  dispatch-listed :
      (t : ℕ) (l : Log) (s : Store)
      → event_of keccak l ≡ some Event.listed
      → dispatch keccak opted_in t no_fault l s ≡ run_plan (on_listed t l) no_fault s
  unfolding dispatch handle
  dispatch-listed t l s e = rw e

  dispatch-cancelled :
      (t : ℕ) (l : Log) (s : Store)
      → event_of keccak l ≡ some Event.cancelled
      → dispatch keccak opted_in t no_fault l s ≡ run_plan (on_cancelled l) no_fault s
  unfolding dispatch handle
  dispatch-cancelled t l s e = rw e

  -- The listings after the observation of one listed log.
  observed-listings :
      (relevant : List Bytes) (h : Bytes) (now marked_at t b : ℕ) (l : Log) (seen : Observed)
      (s : Store)
      → event_of keccak l ≡ some Event.listed
      → is_short l 4 4 ≡ false
      → is_relevant relevant l ≡ true
      → is_seen h now seen ≡ false
      → listings_of
          (observe_tx keccak opted_in
            (λ n. no_fault)
            relevant
            h
            now
            marked_at
            (found (receipt_of b l))
            (some t)
            (seen, s)).0.1
        ≡ listings_of (run_plan (on_listed t l) no_fault s).0
  unfolding observe_tx
  observed-listings relevant h now marked_at t b l seen s e long rel fresh =
      receipt-listings (λ t' n l' s'. dispatch keccak opted_in t' no_fault l' s') relevant h now
        marked_at t b l seen s (run_plan (on_listed t l) no_fault s).0
        (dispatch-listed t l s e
          ∙ ap (λ o. ((run_plan (on_listed t l) no_fault s).0, o)) (listed-applied t l s long))
        rel fresh

  -- Anyone may post a hash to the instant lane. Where a listing was cancelled, posting the hash of the
  -- transaction that made it offers it again: its Listed log is dispatched whatever came after, if
  -- the hash was not observed in the last ten minutes.
  pub observe_tx-reactivates :
      (relevant : List Bytes) (h : Bytes) (now marked_at t u b : ℕ) (l c : Log) (seen : Observed)
      (s : Store)
      → event_of keccak l ≡ some Event.listed
      → is_short l 4 4 ≡ false
      → event_of keccak c ≡ some Event.cancelled
      → is_short c 4 0 ≡ false
      → topic_key c ≡ topic_key l
      → is_relevant relevant l ≡ true
      → is_seen h now seen ≡ false
      → let s' = (dispatch keccak opted_in u no_fault c s).0 in
        (is_offered (lookup (topic_key l) (listings_of s')) ≡ false)
        × (is_offered (
              lookup (topic_key l) (
                listings_of
                  (observe_tx keccak opted_in
                    (λ n. no_fault)
                    relevant
                    h
                    now
                    marked_at
                    (found (receipt_of b l))
                    (some t)
                    (seen, s')).0.1))
            ≡ true)
  observe_tx-reactivates relevant h now marked_at t u b l c seen s el long ec long' same rel fresh =
      let s' = (dispatch keccak opted_in u no_fault c s).0 in
      (
        subst (λ k. is_offered (lookup k (listings_of s')) ≡ false) same
            (ap (λ r. is_offered (lookup (topic_key c) (listings_of r.0)))
                (dispatch-cancelled u c s ec)
              ∙ cancelled-offered c s long'),
        ap (λ m. is_offered (lookup (topic_key l) m))
              (observed-listings relevant h now marked_at t b l seen s' el long rel fresh)
            ∙ listed-offered t l s' long,
      )
