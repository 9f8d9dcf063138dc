-- ===== src/Market/Crediting.antt =====
-- An ERC-1155 transfer that is dispatched twice: ApplyTransfer1155 of
-- backend/internal/db/queries_rework.go adds to the units that are there.
use magic_webb.Base.{
  ℕ, ◌+◌, ◌≡◌, ◌≢◌, refl, sym, ap, ◌∙◌, false, Option, none, some, arith, Bytes, bytes_eqb,
  if◌then◌else◌, Bool-cases, inl, inr, GoMap, lookup, merged, lookup-upsert, lookup-update_rows,
  map_some, ◌==◌, eqb_refl, ℤ, pos, ◌+ℤ◌, +ℤ_twice,
}
use magic_webb.Market.Abi.{Log, is_short, topic, addr_str, zero_addr, big_int, chunk, erc1155}
use magic_webb.Market.Tables.{HolderKey, holder_key_eq, holder_eqb_iff, Holding}
use magic_webb.Market.Queries.{Db}
use magic_webb.Market.Ownership.{holder, credit, debit, less, apply_transfer_1155}
use magic_webb.Market.Handling.{Store}
use magic_webb.Market.Transfers.{on_transfer_single, transfer_item, is_mint}
use magic_webb.Market.Handling.{no_fault}

-- The units of a row, none where there is none.
abbrev pub units_of : Option Holding → ℤ
units_of none = pos 0
units_of (some row) = row.units

abbrev pub units_at : HolderKey → Db → ℤ
units_at k db = units_of (lookup k db.holdings)

abbrev fresh_row : ℕ → Holding
fresh_row v = record { units = pos v; standard = erc1155 }

abbrev more : ℕ → Holding → Holding
more v old = record old { units = old.units +ℤ pos v }

units-merged :
    (v : ℕ) (o : Option Holding)
    → units_of (some (merged (fresh_row v) (more v) o)) ≡ units_of o +ℤ pos v
unfolding ◌+ℤ◌
units-merged v none = ground arith
units-merged v (some row) = refl

units-credit :
    (k : HolderKey) (v : ℕ) (m : GoMap HolderKey Holding)
    → units_of (lookup k (credit k v m)) ≡ units_of (lookup k m) +ℤ pos v
units-credit k v m =
    rw (lookup-upsert k k (fresh_row v) (more v) m, eqb_refl k) (units-merged v (lookup k m))

units-debit :
    (k j : HolderKey) (v : ℕ) (m : GoMap HolderKey Holding)
    → (k == j) ≡ false
    → units_of (lookup k (debit j v m)) ≡ units_of (lookup k m)
units-debit k j v m h =
    rw (lookup-update_rows (λ i row. if i == j then less v row else row) k m, h) (same (lookup k m))
  where
    same : (o : Option Holding) → units_of (map_some (λ row. row) o) ≡ units_of o
    same none = refl
    same (some row) = refl

other_holder :
    (coll : Bytes) (id : ℕ) (from to : Bytes)
    → from ≢ to
    → (holder coll id to == holder coll id from) ≡ false
other_holder coll id from to ne = elim (Bool-cases (holder coll id to == holder coll id from)) [
  | inl e ↦ absurd (
      ne
        (sym (ap (λ k. k.holder) ((holder_eqb_iff (holder coll id to) (holder coll id from)).0 e))))
  | inr e ↦ e
]

apply_transfer_1155-credits :
    (coll : Bytes) (id : ℕ) (from to : Bytes) (v : ℕ) (db : Db)
    → bytes_eqb to zero_addr ≡ false
    → from ≢ to
    → units_at (holder coll id to) (apply_transfer_1155 coll id from to v db)
      ≡ units_at (holder coll id to) db +ℤ pos v
unfolding apply_transfer_1155
apply_transfer_1155-credits coll id from to v db live ne =
    let k = holder coll id to in
    elim (Bool-cases (bytes_eqb from zero_addr)) [
      | inl e ↦ rw (live, e) (units-credit k v db.holdings)
      | inr e ↦
          rw (live, e)
            (units-debit k (holder coll id from) v (credit k v db.holdings)
                (other_holder coll id from to ne)
              ∙ units-credit k v db.holdings)
    ]

-- The receiver of a TransferSingle.
abbrev pub receiver_key : Log → HolderKey
receiver_key l = holder (addr_str l.address) (big_int (chunk l.payload 0)) (addr_str (topic l 3))

single-credits :
    (l : Log) (s : Store)
    → is_short l 4 2 ≡ false
    → bytes_eqb (addr_str (topic l 3)) zero_addr ≡ false
    → addr_str (topic l 2) ≢ addr_str (topic l 3)
    → units_at (receiver_key l) (on_transfer_single no_fault l s).0.db
      ≡ units_at (receiver_key l) s.db +ℤ pos (big_int (chunk l.payload 1))
unfolding on_transfer_single transfer_item
single-credits l s long live ne =
    let from = addr_str (topic l 2) in
    let to = addr_str (topic l 3) in
    let step =
      apply_transfer_1155-credits (addr_str l.address) (big_int (chunk l.payload 0)) from to
        (big_int (chunk l.payload 1)) s.db live ne in
    elim (Bool-cases (is_mint from to)) [ inl m ↦ rw (long, m) step | inr m ↦ rw (long, m) step ]

-- A TransferSingle between two different holders, or a mint, that is dispatched twice counts twice
-- for its receiver: the second time adds the units that it moved again, whatever was held.
pub single_twice-credits :
    (l : Log) (s : Store)
    → is_short l 4 2 ≡ false
    → bytes_eqb (addr_str (topic l 3)) zero_addr ≡ false
    → addr_str (topic l 2) ≢ addr_str (topic l 3)
    → let v = big_int (chunk l.payload 1) in
      let once = (on_transfer_single no_fault l s).0 in
      (units_at (receiver_key l) once.db ≡ units_at (receiver_key l) s.db +ℤ pos v)
      × (units_at (receiver_key l) (on_transfer_single no_fault l once).0.db
          ≡ units_at (receiver_key l) s.db +ℤ pos (v + v))
single_twice-credits l s long live ne =
    let once = (on_transfer_single no_fault l s).0 in
    let v = big_int (chunk l.payload 1) in
    let first = single-credits l s long live ne in
    (
      first,
      single-credits l once long live ne
          ∙ ap (λ u. u +ℤ pos v) first
          ∙ +ℤ_twice (units_at (receiver_key l) s.db) v,
    )
