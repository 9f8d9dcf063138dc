-- ===== src/Nonce/Postgres.antt =====
-- PgStore against MemStore, and the handler that issues a nonce.
use magic_webb.Base.{
  Option-cases, Bool-cases, inl, inr, insert, subst, sym, leb, ◌⊎◌, ℕ, ◌+◌, ◌≤◌, ◌<◌, ◌≡◌, refl,
  true, false, none, some, arith, Bytes, bytes_eq, ◌==◌, if◌then◌else◌, lookup, delete,
  lookup-insert, lookup-delete, eqb_refl,
}
use magic_webb.Nonce.{
  Entry, Entries, set_if_free, get_del, is_live, value_if_live, TxFaults, no_faults, CommitResult,
  commits, rolls_back, after_commit, insert_row, delete_expired_row, Entry, pg_set_if_free,
  pg_get_del, issued, issue_nonce, loses_answer,
}

abbrev pub row : Bytes → ℕ → Entry
row n t = record { value = n; expires_at = t }

-- With no failing statement PgStore.SetIfFree does what MemStore.SetIfFree does at the same clock
-- readings: the same answer, and the same entry at every address afterwards.
pub pg_set_if_free-refines :
    (m : Entries) (a n : Bytes) (ttl now now' : ℕ)
    → ((pg_set_if_free no_faults m a n ttl now now').1 ≡ (set_if_free m a n ttl now now').1)
      × ((b : Bytes)
          → lookup b (pg_set_if_free no_faults m a n ttl now now').0
            ≡ lookup b (set_if_free m a n ttl now now').0)
unfolding pg_set_if_free set_if_free
pg_set_if_free-refines m a n ttl now now' = (
  ground (arith, lookup-delete a a m, eqb_refl a),
  λ b. ground (
    arith,
    lookup-delete a a m,
    lookup-delete a b m,
    eqb_refl a,
    lookup-insert a b (row n (now' + ttl)) m,
    lookup-insert a b (row n (now' + ttl)) (delete a m),
  ),
)

-- The table after a nonce is stored for the address: nothing else is changed.
abbrev pub IsStored : Bytes → Entry → Entries → Entries → Type 0
IsStored a r m m' = (b : Bytes) → lookup b m' ≡ (if a == b then some r else lookup b m)

-- What the transaction has done before Commit.
insert_row-cases :
    (m : Entries) (a : Bytes) (r : Entry) (now : ℕ)
    → (insert_row (delete_expired_row m a now) a r ≡ none)
      ⊎ ((m' : Entries) × (insert_row (delete_expired_row m a now) a r ≡ some m')
          × (is_live now (lookup a m) ≡ false)
          × IsStored a r m m')
unfolding insert_row delete_expired_row
insert_row-cases m a r now = elim (Option-cases (lookup a m)) [
  | inl e ↦ inr (insert a r m, ground (arith, e), rw e refl, λ b. lookup-insert a b r m)
  | inr (v, e) ↦ elim (Bool-cases (leb v.expires_at now)) [
    | inr f ↦ inl (ground (arith, e, f))
    | inl t ↦
        let gone : lookup a (delete a m) ≡ none = rw (lookup-delete, eqb_refl a) refl in
        inr (
          insert a r (delete a m),
          ground (arith, e, t, gone),
          ground (arith, e, t),
          λ b. ground (arith, lookup-insert a b r (delete a m), lookup-delete a b m),
        )
  ]
]

after_commit-cases :
    (result : CommitResult) (m m' : Entries)
    → ((after_commit result m m').0 ≡ m) × ((after_commit result m m').1 ≡ false)
      ⊎ (((after_commit result m m').0 ≡ m')
          × (((after_commit result m m').1 ≡ true) ⊎ (result ≡ loses_answer)))
after_commit-cases commits m m' = inr (refl, inl refl)
after_commit-cases rolls_back m m' = inl (refl, refl)
after_commit-cases loses_answer m m' = inr (refl, inr refl)

-- Under any failures of the transaction's statements, a Commit that reports an error though the
-- server has committed included, PgStore.SetIfFree never replaces a nonce that is live at the
-- database's clock. Either it answers false and leaves the table; or none was live, and afterwards the
-- address alone has the new nonce and expiry, and the answer is true unless Commit's was lost.
pub pg_set_if_free_keeps_live :
    (f : TxFaults) (m : Entries) (a n : Bytes) (ttl now now' : ℕ)
    → let result = pg_set_if_free f m a n ttl now now' in
      ((result.0 ≡ m) × (result.1 ≡ false))
      ⊎ ((is_live now (lookup a m) ≡ false)
          × IsStored a (row n (now' + ttl)) m result.0
          × ((result.1 ≡ true) ⊎ (f.commit_result ≡ loses_answer)))
unfolding pg_set_if_free
pg_set_if_free_keeps_live f m a n ttl now now' = elim (Bool-cases f.begin_fails) [
  | inl t ↦ rw t (inl (refl, refl))
  | inr begun ↦ elim (Bool-cases f.delete_fails) [
    | inl t ↦ rw (begun, t) (inl (refl, refl))
    | inr cleaned ↦ elim (Bool-cases f.insert_fails) [
      | inl t ↦ rw (begun, cleaned, t) (inl (refl, refl))
      | inr tried ↦ elim (insert_row-cases m a (row n (now' + ttl)) now) [
        | inl e ↦ rw (begun, cleaned, tried, e) (inl (refl, refl))
        | inr (m', e, free, stored) ↦
            rw (begun, cleaned, tried, e)
              (elim (after_commit-cases f.commit_result m m') [
                | inl kept ↦ inl kept
                | inr (new, told) ↦
                    inr (free, subst (IsStored a (row n (now' + ttl)) m) (sym new) stored, told)
              ])
      ]
    ]
  ]
]

pub pg_get_del-refines :
    (m : Entries) (a : Bytes) (now : ℕ)
    → ((pg_get_del false m a now).1 ≡ (get_del m a now).1)
      × ((b : Bytes) (later : ℕ)
          → now ≤ later
          → value_if_live later (lookup b (pg_get_del false m a now).0)
            ≡ value_if_live later (lookup b (get_del m a now).0))
      × (pg_get_del true m a now ≡ (m, none))
unfolding pg_get_del get_del
pg_get_del-refines m a now =
    (ground arith, λ b later le. ground (arith, lookup-delete a b m, bytes_eq.equals_iff a b), refl)

-- On a MemStore with no other caller in between, issuing always succeeds, whatever nonce was
-- live, and until the earlier of its expiries the new nonce is the one that is redeemed: the nonce that was pending for the
-- address before can no longer be.
pub issue_nonce-replaces :
    (m : Entries) (a n : Bytes) (ttl : ℕ) (clock : ℕ → ℕ) (now : ℕ)
    → now < clock 1 + ttl
    → now < clock 4 + ttl
    → ((issue_nonce m a n ttl clock).1 ≡ issued n)
      × ((get_del (issue_nonce m a n ttl clock).0 a now).1 ≡ some n)
unfolding issue_nonce set_if_free get_del
issue_nonce-replaces m a n ttl clock now h k = (
  ground (arith, lookup-delete a a m, eqb_refl a),
  ground (
    arith,
    lookup-delete a a m,
    eqb_refl a,
    lookup-insert a a (row n (clock 1 + ttl)) m,
    lookup-insert a a (row n (clock 4 + ttl)) (delete a m),
  ),
)
