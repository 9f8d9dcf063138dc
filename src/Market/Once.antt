-- ===== src/Market/Once.antt =====
-- Governance events are handled once: onGovernance of backend/internal/indexer/governance.go.
use magic_webb.Base.{
  ℕ, ◌≡◌, refl, ap, ◌∙◌, Bool, Option, none, some, List, Bytes, bytes_nat_eq, Bool-cases, inl, inr,
  lookup, lookup-insert, eqb_refl, Option-cases,
}
use magic_webb.Watcher.{applied}
use magic_webb.Market.Abi.{Log, Event}
use magic_webb.Market.Tables.{Governance}
use magic_webb.Market.Ownership.{lower}
use magic_webb.Market.Handling.{Store, Call, write, recipients}
use magic_webb.Market.Governing.{
  is_security_alert, lower_row, insert_governance, when_fresh, store_governance, on_governance,
  decode_governance,
}
use magic_webb.Market.Frame.{publish_db, notify_all_db}

when_fresh_db :
    (fails : Call → Bool) (opted_in : List Bytes) (k : Bytes × ℕ) (g : Governance) (s : Store)
    → (when_fresh fails opted_in k g none s).db ≡ insert_governance k g s.db
when_fresh_db fails opted_in k g s = elim (Bool-cases (is_security_alert g.event)) [
  | inr c ↦ rw c (publish_db _ _)
  | inl c ↦ elim (Bool-cases (fails recipients)) [
    | inl f ↦ rw (c, f) (publish_db _ _)
    | inr f ↦ rw (c, f) (notify_all_db fails 0 g opted_in _ ∙ publish_db _ _)
  ]
]

-- After a governance event is handled its row is there.
when_fresh_stores :
    (fails : Call → Bool) (opted_in : List Bytes) (k : Bytes × ℕ) (g : Governance) (s : Store)
    → (row : Governance) × (lookup k
          (when_fresh fails opted_in k g (lookup k s.db.governance_events) s).db.governance_events
        ≡ some row)
when_fresh_stores fails opted_in k g s = elim (Option-cases (lookup k s.db.governance_events)) [
  | inr (row, e) ↦ (row, rw e e)
  | inl e ↦ (
    lower_row g,
    rw e (
        ap (λ d. lookup k d.governance_events) (when_fresh_db fails opted_in k g s)
        ∙ lookup-insert k k (lower_row g) s.db.governance_events
        ∙ rw (eqb_refl k)),
  )
]

store_again :
    (fails fails' : Call → Bool) (opted_in opted_in' : List Bytes) (o : Option Governance) (l : Log)
    (s : Store)
    → (store_governance opted_in o fails l s).1 ≡ applied
    → let s' = (store_governance opted_in o fails l s).0 in
      (store_governance opted_in' o fails' l s').0 ≡ s'
unfolding store_governance
store_again fails fails' opted_in opted_in' none l s h = refl
store_again fails fails' opted_in opted_in' (some g) l s h = elim (Bool-cases (fails (write 0))) [
  | inl f ↦ let h' = rw f at h in absurd (cc h')
  | inr f ↦ elim (Bool-cases (fails' (write 0))) [
    | inl f' ↦ rw (f, f')
    | inr f' ↦ rw (f, f', (when_fresh_stores fails opted_in (lower g.tx_hash, l.log_index) g s).1)
  ]
]

-- A governance event takes effect once: where its handler has applied a log, dispatching the log
-- again leaves the store as it is, so that it is counted, published and notified no second
-- time, whatever calls of the database fail then and whoever has opted in since.
pub on_governance-once :
    (fails fails' : Call → Bool) (opted_in opted_in' : List Bytes) (e : Event) (t : ℕ) (l : Log)
    (s : Store)
    → (on_governance opted_in e t fails l s).1 ≡ applied
    → let s' = (on_governance opted_in e t fails l s).0 in
      (on_governance opted_in' e t fails' l s').0 ≡ s'
unfolding on_governance
on_governance-once fails fails' opted_in opted_in' e t l s h =
    store_again fails fails' opted_in opted_in' (decode_governance e l t) l s h
