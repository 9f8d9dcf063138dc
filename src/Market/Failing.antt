-- ===== src/Market/Failing.antt =====
-- What each kind of handler of backend/internal/indexer/handlers.go leaves where a log is not applied.
use magic_webb.Base.{
  ℕ, zero, suc, ◌+◌, ◌≡◌, refl, Bool, true, false, Option, none, some, List, arith, Bytes,
  if◌then◌else◌, Bool-cases, inl, inr, ltb, length,
}
use magic_webb.Watcher.{Outcome, applied, malformed, retriable}
use magic_webb.Market.Abi
use magic_webb.Market.Abi.{Log, Event, is_short}
use magic_webb.Market.Tables.{Governance}
use magic_webb.Market.Queries.{Db}
use magic_webb.Market.Handling.{
  Store, Call, commit, write, mint, ensured, Plan, reject, only, write_then, registered, run_plan,
}
use magic_webb.Market.Transfers.{
  on_transfer_721, on_transfer_single, on_transfer_batch, and_then, transfer_item, transfer_items,
  record_mint, Layout, bad, nothing, arrays, transfer_layout, batch_layout, is_mint,
}
use magic_webb.Market.Governing.{store_governance}

abbrev pub is_transfer : Event → Bool
is_transfer Event.transfer_721 = true
is_transfer Event.transfer_single = true
is_transfer Event.transfer_batch = true
is_transfer _ = false

-- The second store is the first, but for the collections registered.
abbrev pub Registered : Store → Store → Type 0
Registered s s' =
    s' ≡ record s { db = record s.db { collections = s'.db.collections; tracked = s'.db.tracked } }

-- A malformed log changes nothing. A handler that fails changes nothing but the collections
-- registered, which is claimed where `atomic`. Without a failing call it does not fail.
unfoldable pub AllOrNothing : Bool → (Call → Bool) → Store → Store × Outcome → Type 0
AllOrNothing atomic fails s (s', malformed) = s' ≡ s
AllOrNothing atomic fails s (s', retriable) =
    (atomic ≡ true → Registered s s') × ((c : Call) × (fails c ≡ true))
AllOrNothing atomic fails s (s', applied) = Unit

module _ (fails : Call → Bool) (s : Store) where
  guarded-AllOrNothing :
      (atomic b : Bool) (r : Store × Outcome)
      → AllOrNothing atomic fails s r
      → AllOrNothing atomic fails s (if b then (s, malformed) else r)
  unfolding AllOrNothing
  guarded-AllOrNothing atomic true r h = refl
  guarded-AllOrNothing atomic false r h = h

  commit-AllOrNothing :
      (f : Db → Db) (after : (Call → Bool) → Store → Store) (s0 : Store)
      → Registered s s0
      → AllOrNothing true fails s (commit fails f after s0)
  unfolding AllOrNothing
  commit-AllOrNothing f after s0 h = elim (Bool-cases (fails (write 0))) [
    | inl e ↦ rw e ((λ _. h), (write 0, e))
    | inr e ↦ rw e tt
  ]

  ensured-Registered :
      (coll : Bytes) (std : Abi.Standard) (block : ℕ)
      → Registered s (ensured fails coll std block s)
  ensured-Registered coll std block = ground arith

  pub plan-AllOrNothing : (p : Plan) → AllOrNothing true fails s (run_plan p fails s)
  unfolding AllOrNothing run_plan
  plan-AllOrNothing reject = refl
  plan-AllOrNothing (only after) = tt
  plan-AllOrNothing (write_then f after) = commit-AllOrNothing f after s refl
  plan-AllOrNothing (registered coll std block f after) =
      commit-AllOrNothing f after _ (ensured-Registered coll std block)

  write-AllOrNothing :
      (s' : Store)
      → AllOrNothing true fails s (if fails (write 0) then (s, retriable) else (s', applied))
  unfolding AllOrNothing
  write-AllOrNothing s' = elim (Bool-cases (fails (write 0))) [
    | inl e ↦ rw e ((λ _. refl), (write 0, e))
    | inr e ↦ rw e tt
  ]

  pub governance-AllOrNothing :
      (opted_in : List Bytes) (g : Option Governance) (l : Log)
      → AllOrNothing true fails s (store_governance opted_in g fails l s)
  unfolding store_governance AllOrNothing
  governance-AllOrNothing opted_in none l = refl
  governance-AllOrNothing opted_in (some g) l = write-AllOrNothing _

-- The transfers, which make several.
module _ (fails : Call → Bool) where
  mint-AllOrNothing :
      (i : ℕ) (coll : Bytes) (id : ℕ) (from to : Bytes) (s s' : Store)
      → AllOrNothing false fails s (record_mint (fails (mint i)) coll id from to s')
  unfolding AllOrNothing
  mint-AllOrNothing i coll id from to s s' = elim (Bool-cases (is_mint from to)) [
    | inr e ↦ rw e tt
    | inl m ↦ elim (Bool-cases (fails (mint i))) [
      | inl e ↦ rw (m, e) ((λ a. absurd (cc)), (mint i, e))
      | inr e ↦ rw (m, e) tt
    ]
  ]

  item-AllOrNothing :
      (i : ℕ) (coll : Bytes) (id : ℕ) (from to : Bytes) (v : ℕ) (s s' : Store)
      → AllOrNothing false fails s (transfer_item fails i coll id from to v s')
  unfolding AllOrNothing transfer_item
  item-AllOrNothing i coll id from to v s s' = elim (Bool-cases (fails (write i))) [
    | inl e ↦ rw e ((λ a. absurd (cc)), (write i, e))
    | inr e ↦ rw e (mint-AllOrNothing i coll id from to s _)
  ]

  and_then-AllOrNothing :
      (s : Store) (r : Store × Outcome) (next : Store → Store × Outcome)
      → AllOrNothing false fails s r
      → ((s' : Store) → AllOrNothing false fails s (next s'))
      → AllOrNothing false fails s (and_then r next)
  unfolding AllOrNothing
  and_then-AllOrNothing s (s', applied) next h k = k s'
  and_then-AllOrNothing s (s', malformed) next h k = h
  and_then-AllOrNothing s (s', retriable) next h k = h

  items-AllOrNothing :
      (payload coll from to : Bytes) (ids vals n i : ℕ) (s s' : Store)
      → AllOrNothing false fails s (transfer_items fails payload coll from to ids vals n i s')
  unfolding AllOrNothing transfer_items
  items-AllOrNothing payload coll from to ids vals zero i s s' = tt
  items-AllOrNothing payload coll from to ids vals (suc n) i s s' =
      and_then-AllOrNothing s _ _ (item-AllOrNothing i coll _ from to _ s s')
        (λ t. items-AllOrNothing payload coll from to ids vals n (i + 1) s t)

  layout-AllOrNothing :
      (payload coll from to : Bytes) (shape : Layout) (s : Store)
      → AllOrNothing false fails s (transfer_layout fails payload coll from to shape s)
  unfolding AllOrNothing
  layout-AllOrNothing payload coll from to bad s = refl
  layout-AllOrNothing payload coll from to nothing s = tt
  layout-AllOrNothing payload coll from to (arrays ids vals n) s =
      and_then-AllOrNothing s _ _ (items-AllOrNothing payload coll from to ids vals n 0 s s)
        (λ t. tt)

  pub batch-AllOrNothing :
      (l : Log) (s : Store) → AllOrNothing false fails s (on_transfer_batch fails l s)
  unfolding on_transfer_batch
  batch-AllOrNothing l s =
      guarded-AllOrNothing fails s false (is_short l 4 2) _
        (layout-AllOrNothing l.payload _ _ _ (batch_layout l.payload) s)

  pub single-AllOrNothing :
      (l : Log) (s : Store) → AllOrNothing false fails s (on_transfer_single fails l s)
  unfolding on_transfer_single AllOrNothing
  single-AllOrNothing l s =
      guarded-AllOrNothing fails s false (is_short l 4 2) _
        (and_then-AllOrNothing s _ _ (item-AllOrNothing 0 _ _ _ _ _ s s) (λ t. tt))

  pub transfer_721-AllOrNothing :
      (l : Log) (s : Store) → AllOrNothing false fails s (on_transfer_721 fails l s)
  unfolding on_transfer_721 AllOrNothing
  transfer_721-AllOrNothing l s = elim (Bool-cases (ltb (length l.topics) 4)) [
    | inl short ↦ rw short tt
    | inr long ↦ elim (Bool-cases (fails (write 0))) [
      | inl e ↦ rw (long, e) ((λ a. absurd (cc)), (write 0, e))
      | inr e ↦
          rw (long, e) (and_then-AllOrNothing s _ _ (mint-AllOrNothing 0 _ _ _ _ s _) (λ t. tt))
    ]
  ]
