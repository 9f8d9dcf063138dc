-- ===== src/Market/Relisting.antt =====
-- Dispatching a range of logs again, as the watcher and the instant lane of
-- backend/internal/indexer do: what the listings show.
use magic_webb.Base.{
  ℕ, ◌≡◌, refl, ap, Bool, true, false, not, ◌&&◌, Option, none, some, Bytes, bytes_eqb,
  if◌then◌else◌, Bool-cases, inl, inr, GoMap, lookup, ltb, length, map_some, ◌==◌, merged,
  update_rows, upsert, lookup-update_rows, lookup-upsert,
}
use magic_webb.Market.Abi.{Log, is_short, topic, addr_str, big_int, chunk}
use magic_webb.Market.Tables.{HolderKey, holder_key_eq, Listing}
use magic_webb.Market.Queries.{deactivated, relist, is_of}
use magic_webb.Market.Ownership.{holder, lower, orphan, orphan_unless}
use magic_webb.Market.Trading.{topic_key, listed_row, on_listed, on_cancelled, on_bought}
use magic_webb.Market.Handling.{Store, run_plan, publish}
use magic_webb.Market.Transfers.{on_transfer_721, is_mint}
use magic_webb.Market.Handling.{no_fault}
use magic_webb.Market.Effects.{shown, uncleaned, hide, Effect, keeps, lists, hides, orphans, affect}
use magic_webb.Market.Frame.{listings_of, notify_db}

abbrev pub shown_at : HolderKey → Store → Option Listing
shown_at k s = shown (lookup k (listings_of s))

shown_relisted :
    (r : Listing) (old : Option Listing)
    → shown (some (merged r (relist r) old)) ≡ some (uncleaned r)
shown_relisted r none = refl
shown_relisted r (some old) = refl

-- The three statements, on one listing.
upsert_affects :
    (j k : HolderKey) (r : Listing) (m : GoMap HolderKey Listing)
    → shown (lookup k (upsert j r (relist r) m))
      ≡ affect (if j == k then lists (uncleaned r) else keeps) (shown (lookup k m))
upsert_affects j k r m =
    rw (lookup-upsert j k r (relist r) m)
      (elim (Bool-cases (j == k)) [ inl h ↦ rw h (shown_relisted r (lookup j m)) | inr h ↦ rw h ])

deactivate_affects :
    (j k : HolderKey) (m : GoMap HolderKey Listing)
    → shown (lookup k (update_rows (λ i row. if i == j then deactivated row else row) m))
      ≡ affect (if k == j then hides else keeps) (shown (lookup k m))
deactivate_affects j k m =
    rw (lookup-update_rows (λ i row. if i == j then deactivated row else row) k m)
      (elim (Bool-cases (k == j)) [
        | inl h ↦ rw h (row_hidden (lookup k m))
        | inr h ↦ rw h (row_kept (lookup k m))
      ])
  where
    row_hidden : (o : Option Listing) → shown (map_some deactivated o) ≡ map_some hide (shown o)
    row_hidden none = refl
    row_hidden (some r) = refl

    row_kept : (o : Option Listing) → shown (map_some (λ r. r) o) ≡ shown o
    row_kept none = refl
    row_kept (some r) = refl

abbrev pub left_behind : Bytes → ℕ → Bytes → HolderKey → Bool
left_behind coll id to k = is_of coll id k && not (bytes_eqb (lower k.holder) (lower to))

uncleaned-orphan :
    (c : Bool) (r : Listing)
    → uncleaned (if c then orphan r else r) ≡ (if c then orphan (uncleaned r) else uncleaned r)
uncleaned-orphan false r = refl
uncleaned-orphan true r = refl

orphan_row :
    (a b : Bool) (o : Option Listing)
    → shown (map_some (λ r. if a && (b && r.active) then orphan r else r) o)
      ≡ affect (if a && b then orphans else keeps) (shown o)
orphan_row false b none = refl
orphan_row false b (some r) = refl
orphan_row true false none = refl
orphan_row true false (some r) = refl
orphan_row true true none = refl
orphan_row true true (some r) = ap some (uncleaned-orphan r.active r)

orphan_affects :
    (coll : Bytes) (id : ℕ) (to : Bytes) (k : HolderKey) (m : GoMap HolderKey Listing)
    → shown (lookup k (update_rows (orphan_unless coll id to) m))
      ≡ affect (if left_behind coll id to k then orphans else keeps) (shown (lookup k m))
orphan_affects coll id to k m =
    rw (lookup-update_rows (orphan_unless coll id to) k m)
      (orphan_row (is_of coll id k) (not (bytes_eqb (lower k.holder) (lower to))) (lookup k m))

abbrev pub listed_effect : Log → ℕ → HolderKey → Effect
listed_effect l t k =
    if is_short l 4 4 then keeps else if topic_key l == k then lists (listed_row l t) else keeps

pub listed_affects :
    (t : ℕ) (l : Log) (k : HolderKey) (s : Store)
    → shown_at k (run_plan (on_listed t l) no_fault s).0
      ≡ affect (listed_effect l t k) (shown_at k s)
unfolding on_listed run_plan publish
listed_affects t l k s = elim (Bool-cases (is_short l 4 4)) [
  | inl c ↦ rw c
  | inr c ↦ rw c (upsert_affects (topic_key l) k (listed_row l t) s.db.listings)
]

abbrev pub cancelled_effect : Log → HolderKey → Effect
cancelled_effect l k = if is_short l 4 0 then keeps else if k == topic_key l then hides else keeps

pub cancelled_affects :
    (l : Log) (k : HolderKey) (s : Store)
    → shown_at k (run_plan (on_cancelled l) no_fault s).0
      ≡ affect (cancelled_effect l k) (shown_at k s)
unfolding on_cancelled run_plan publish
cancelled_affects l k s = elim (Bool-cases (is_short l 4 0)) [
  | inl c ↦ rw c
  | inr c ↦ rw c (deactivate_affects (topic_key l) k s.db.listings)
]

abbrev pub bought_key : Log → HolderKey
bought_key l = holder (addr_str (topic l 1)) (big_int (topic l 2)) (addr_str (chunk l.payload 0))

abbrev pub bought_effect : Log → HolderKey → Effect
bought_effect l k = if is_short l 4 5 then keeps else if k == bought_key l then hides else keeps

pub bought_affects :
    (t : ℕ) (l : Log) (k : HolderKey) (s : Store)
    → shown_at k (run_plan (on_bought t l) no_fault s).0 ≡ affect (bought_effect l k) (shown_at k s)
unfolding on_bought run_plan
bought_affects t l k s = elim (Bool-cases (is_short l 4 5)) [
  | inl c ↦ rw c
  | inr c ↦ rw c (simp notify_db (deactivate_affects (bought_key l) k s.db.listings))
]

abbrev pub transfer_effect : Log → HolderKey → Effect
transfer_effect l k =
    if ltb (length l.topics) 4
    then keeps
    else if left_behind (addr_str l.address) (big_int (topic l 3)) (addr_str (topic l 2)) k
    then orphans
    else keeps

pub transfer_affects :
    (l : Log) (k : HolderKey) (s : Store)
    → shown_at k (on_transfer_721 no_fault l s).0 ≡ affect (transfer_effect l k) (shown_at k s)
unfolding on_transfer_721
transfer_affects l k s = elim (Bool-cases (ltb (length l.topics) 4)) [
  | inl c ↦ rw c
  | inr c ↦
      let from = addr_str (topic l 1) in
      let to = addr_str (topic l 2) in
      let step = orphan_affects (addr_str l.address) (big_int (topic l 3)) to k s.db.listings in
      elim (Bool-cases (is_mint from to)) [ inl m ↦ rw (c, m) step | inr m ↦ rw (c, m) step ]
]
