-- ===== src/Market/Leading.antt =====
-- The leader of an auction: InsertBidAndUpdateAuction of backend/internal/db/queries.go, over the view
-- effective_bids.
use magic_webb.Base.{
  ℕ, ◌≤◌, ◌≡◌, refl, ◌∙◌, subst, Bool, true, false, Option, none, some, [], ◌∷◌, arith, ◌⊎◌, inl,
  inr, Bytes, bytes_eq, bytes_eqb, bytes_eqb_iff, if◌then◌else◌, Bool-cases, ◌==◌, eqb_refl, GoMap,
  lookup, upsert, lookup-upsert, lookup-update_rows, ℤ, int_eq,
}
use magic_webb.Market.Tables.{Auction, Bid}
use magic_webb.Market.Queries.{Db}
use magic_webb.Market.Bidding.{
  effective_wei, larger, leader_among, with_leader, insert_bid_and_update_auction,
}

-- A total is at most the leader's.
abbrev pub AtMost : ℕ → Option (Bytes × ℕ) → Type 0
AtMost n none = ⊥
AtMost n (some (who, total)) = n ≤ total

-- The leader's total is that of its bids.
abbrev pub IsTotal : ℤ → GoMap Bytes Bid → Option (Bytes × ℕ) → Type 0
IsTotal id all none = Unit
IsTotal id all (some (who, total)) = total ≡ effective_wei id who all

larger-AtMost_old :
    (n : ℕ) (o : Option (Bytes × ℕ)) (who : Bytes) (total : ℕ)
    → AtMost n o
    → AtMost n (larger o who total)
larger-AtMost_old n none who total h = absurd h
larger-AtMost_old n (some (leader, most)) who total h = ground arith

larger-AtMost_new :
    (o : Option (Bytes × ℕ)) (who : Bytes) (total : ℕ) → AtMost total (larger o who total)
larger-AtMost_new none who total = omega arith
larger-AtMost_new (some (leader, most)) who total = ground arith

larger-IsTotal :
    (id : ℤ) (all : GoMap Bytes Bid) (o : Option (Bytes × ℕ)) (who : Bytes)
    → IsTotal id all o
    → IsTotal id all (larger o who (effective_wei id who all))
larger-IsTotal id all none who h = refl
larger-IsTotal id all (some (leader, most)) who h = ground arith

leader_among-IsTotal :
    (id : ℤ) (all bids : GoMap Bytes Bid) → IsTotal id all (leader_among id all bids)
unfolding leader_among
leader_among-IsTotal id all [] = tt
leader_among-IsTotal id all ((tx, b) ∷ bids) = elim (Bool-cases (b.auction_id == id)) [
  | inl e ↦
      rw e (
        larger-IsTotal id all (leader_among id all bids) b.bidder
          (leader_among-IsTotal id all bids))
  | inr e ↦ rw e (leader_among-IsTotal id all bids)
]

-- Whoever bids in the auction has at most the leader's total.
leader_among-AtMost :
    (id : ℤ) (x : Bytes) (all bids : GoMap Bytes Bid)
    → (effective_wei id x bids ≡ 0) ⊎ AtMost (effective_wei id x all) (leader_among id all bids)
unfolding leader_among
leader_among-AtMost id x all [] = inl refl
leader_among-AtMost id x all ((tx, b) ∷ bids) =
    let rest = leader_among id all bids in
    let ih = leader_among-AtMost id x all bids in
    elim (Bool-cases (b.auction_id == id)) [
      | inr e ↦ rw e (elim ih [ inl z ↦ inl (omega (arith, z)) | inr m ↦ inr m ])
      | inl e ↦ elim (Bool-cases (bytes_eqb b.bidder x)) [
        | inl same ↦
            rw (e, same)
              (inr (
                subst
                  (λ y.
                    AtMost (effective_wei id y all)
                      (larger rest b.bidder (effective_wei id b.bidder all)))
                  ((bytes_eqb_iff b.bidder x).0 same)
                  (larger-AtMost_new rest b.bidder (effective_wei id b.bidder all))))
        | inr other ↦
            rw (e, other)
              (elim ih [
                | inl z ↦ inl (omega (arith, z))
                | inr m ↦ inr (larger-AtMost_old (effective_wei id x all) rest b.bidder _ m)
              ])
      ]
    ]

abbrev is_some : Option (Bytes × ℕ) → Bool
is_some none = false
is_some (some p) = true

larger_some :
    (o : Option (Bytes × ℕ)) (who : Bytes) (total : ℕ) → is_some (larger o who total) ≡ true
larger_some none who total = refl
larger_some (some (leader, most)) who total = ground arith

found_later :
    (id : ℤ) (t : Bool) (o : Option Bid) (b b' : Bid)
    → (if t then some b' else o) ≡ some b
    → (b.auction_id == id) ≡ true
    → (b'.auction_id == id) ≡ false
    → o ≡ some b
found_later id true o b b' h e e' = absurd (cc (h, e, e'))
found_later id false o b b' h e e' = h

-- An auction with a bid has a leader.
leader_exists :
    (id : ℤ) (all bids : GoMap Bytes Bid) (tx : Bytes) (b : Bid)
    → (b.auction_id == id) ≡ true
    → lookup tx bids ≡ some b
    → is_some (leader_among id all bids) ≡ true
unfolding leader_among lookup
leader_exists id all [] tx b e h = absurd (cc)
leader_exists id all ((tx', b') ∷ bids) tx b e h = elim (Bool-cases (b'.auction_id == id)) [
  | inl e' ↦
      rw e' (larger_some (leader_among id all bids) b'.bidder (effective_wei id b'.bidder all))
  | inr e' ↦
      rw e'
        (leader_exists id all bids tx b e (found_later id (tx' == tx) (lookup tx bids) b b' h e e'))
]

abbrev pub bids_with : Bid → Db → GoMap Bytes Bid
bids_with b db = upsert b.tx_hash b (λ old. old) db.bids

with_leader-IsTop :
    (id : ℤ) (bids : GoMap Bytes Bid) (a : Auction) (o : Option (Bytes × ℕ))
    → is_some o ≡ true
    → IsTotal id bids o
    → ((x : Bytes) → (effective_wei id x bids ≡ 0) ⊎ AtMost (effective_wei id x bids) o)
    → ((with_leader o a).highest_bid_wei ≡ effective_wei id (with_leader o a).highest_bidder bids)
      × ((x : Bytes) → effective_wei id x bids ≤ (with_leader o a).highest_bid_wei)
with_leader-IsTop id bids a none s t m = absurd (cc)
with_leader-IsTop id bids a (some (who, total)) s t m =
    (t, λ x. elim (m x) [ inl z ↦ omega (arith, z) | inr le ↦ le ])

-- A bid of a new transaction in an auction that is stored leaves, as the auction's highest bid and
-- bidder, a bidder with the largest sum of bids in it: the highest bid is that bidder's sum over all
-- bids stored, and no address's sum is larger.
pub insert_bid-leads :
    (b : Bid) (db : Db) (a : Auction)
    → lookup b.tx_hash db.bids ≡ none
    → lookup b.auction_id db.auctions ≡ some a
    → let db' = insert_bid_and_update_auction b db in
      (a' : Auction) × (lookup b.auction_id db'.auctions ≡ some a')
      × (a'.highest_bid_wei ≡ effective_wei b.auction_id a'.highest_bidder db'.bids)
      × ((x : Bytes) → effective_wei b.auction_id x db'.bids ≤ a'.highest_bid_wei)
unfolding insert_bid_and_update_auction
insert_bid-leads b db a new stored =
    let id = b.auction_id in
    let bids = bids_with b db in
    let o = leader_among id bids bids in
    let held : lookup b.tx_hash bids ≡ some b =
      lookup-upsert b.tx_hash b.tx_hash b (λ old. old) db.bids ∙ rw (eqb_refl b.tx_hash, new) in
    let top =
      with_leader-IsTop id bids a o (leader_exists id bids bids b.tx_hash b (eqb_refl id) held)
        (leader_among-IsTotal id bids bids) (λ x. leader_among-AtMost id x bids bids) in
    (
      with_leader o a,
      lookup-update_rows
            (λ j row. if j == id then with_leader (leader_among j bids bids) row else row) id
            db.auctions
          ∙ rw (stored, eqb_refl id),
      top.0,
      top.1,
    )
