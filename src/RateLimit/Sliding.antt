-- ===== src/RateLimit/Sliding.antt =====
-- The in-memory limiter never admits more than its limit within one window.
use mathlib.Core.List.{append-nil, append_assoc}
use magic_webb.Base.{
  ℕ, ◌≤◌, ◌≡◌, refl, Bool, true, false, Option, none, some, List, [], ◌∷◌, ◌++◌, arith, Bytes,
  bytes_eq, ◌==◌, leb, if◌then◌else◌, Bool-cases, inl, inr, lookup, lookup-insert,
  lookup-delete_where, Unique, insert-Unique, delete_where-Unique, length, keep, length-keep-le,
  unless, eqb_refl,
}
use magic_webb.RateLimit.{
  Windows, timestamps, in_window, allow_mem, idle_after, last_before, cleanup,
}
use magic_webb.RateLimit.Calls.{Call, allow, tidy, step, noted, admitted, Ordered, finish, Uniform}
use magic_webb.RateLimit.Tracking.{Tracks, Tracks-later, Tracks-fresh, Tracks-admit, Tracks-idle}

module _ (limit window : ℕ) where
  tidy-Tracks :
      (t now : ℕ) (past : List ℕ) (o : Option (List ℕ))
      → t ≤ now
      → window ≤ idle_after
      → Tracks limit window t past (timestamps o)
      → (u : Option (List ℕ)) → u ≡ unless {K = Bytes} (λ _ ts. last_before now ts) [] o
      → Tracks limit window now past (timestamps u)
  tidy-Tracks t now past none h short k u e = rw e (Tracks-later limit window t now past [] h k)
  tidy-Tracks t now past (some ts) h short k u e = elim (Bool-cases (last_before now ts)) [
    | inl idle ↦ rw (e, idle) (Tracks-idle limit window t now past ts h short k idle)
    | inr busy ↦ rw (e, busy) (Tracks-later limit window t now past ts h k)
  ]

  allow-Tracks :
      (k : Bytes) (l : Windows) (t now now' : ℕ) (past : List ℕ)
      → t ≤ now
      → now ≤ now'
      → Tracks limit window t past (timestamps (lookup k l))
      → let (l', ok) = allow_mem l k limit window now now' in
        Tracks limit window now' (past ++ (if ok then now ∷ [] else [])) (timestamps (lookup k l'))
  unfolding allow_mem
  allow-Tracks k l t now now' past h h' kept =
      elim (Bool-cases
        (leb limit (length (keep (in_window now' window) (timestamps (lookup k l)))))) [
          | inl full ↦
              rw (full, lookup-insert, eqb_refl k, append-nil)
                (Tracks-fresh limit window t now' past _ (omega arith) kept)
          | inr room ↦
              rw (room, lookup-insert, eqb_refl k)
                (Tracks-admit limit window t now now' past _ h h' kept (ground arith))
        ]

  allow-other :
      (k key : Bytes) (l : Windows) (n w now now' : ℕ)
      → (key == k) ≡ false
      → lookup k (allow_mem l key n w now now').0 ≡ lookup k l
  unfolding allow_mem
  allow-other k key l n w now now' e =
      let fresh = keep (in_window now' w) (timestamps (lookup key l)) in
      ground (arith, e, lookup-insert key k fresh l, lookup-insert key k (fresh ++ now ∷ []) l)

  noted_self :
      (k : Bytes) (n w now now' : ℕ) (ok : Bool)
      → noted k (allow k n w now now') ok ≡ (if ok then now ∷ [] else [])
  noted_self k n w now now' true = rw (eqb_refl k)
  noted_self k n w now now' false = refl

  noted_other :
      (k key : Bytes) (n w now now' : ℕ) (ok : Bool)
      → (key == k) ≡ false
      → noted k (allow key n w now now') ok ≡ []
  noted_other k key n w now now' true e = rw e
  noted_other k key n w now now' false e = refl

  step-Tracks :
      (k : Bytes) (l : Windows) (t : ℕ) (past : List ℕ) (c : Call)
      → window ≤ idle_after
      → Unique l
      → Ordered t (c ∷ [])
      → Uniform k limit window (c ∷ [])
      → Tracks limit window t past (timestamps (lookup k l))
      → let (l', ok) = step l c in
        Tracks limit window (finish t (c ∷ [])) (past ++ noted k c ok) (timestamps (lookup k l'))
  unfolding step cleanup
  step-Tracks k l t past (tidy now) short u o f kept = rw append-nil (
      tidy-Tracks t now past (lookup k l) o.0 short kept _
        (lookup-delete_where (λ _ ts. last_before now ts) k l u))
  step-Tracks k l t past (allow key n w now now') short u o f kept = elim (Bool-cases (key == k)) [
    | inl hit ↦
        let same = (bytes_eq.equals_iff key k).0 hit in
        rw (same, (f.0 same).0, (f.0 same).1, noted_self)
          (allow-Tracks k l t now now' past o.0 o.1 kept)
    | inr miss ↦
        rw
          (noted_other k key n w now now' _ miss, append-nil, allow-other k key l n w now now' miss)
          (Tracks-later limit window t now' past _ (omega arith) kept)
  ]

step-Unique : (l : Windows) (c : Call) → Unique l → Unique (step l c).0
unfolding step cleanup allow_mem
step-Unique l (tidy now) u = delete_where-Unique _ l u
step-Unique l (allow key n w now now') u =
    let fresh = keep (in_window now' w) (timestamps (lookup key l)) in
    ground (arith, insert-Unique key fresh l u, insert-Unique key (fresh ++ now ∷ []) l u)

-- The end of a history is the end of its last call.
Ordered-uncons :
    (t : ℕ) (c : Call) (cs : List Call)
    → Ordered t (c ∷ cs)
    → Ordered t (c ∷ [])
      × Ordered (finish t (c ∷ [])) cs
      × (finish (finish t (c ∷ [])) cs ≡ finish t (c ∷ cs))
Ordered-uncons t (allow key n w now now') cs o = ((o.0, o.1, tt), o.2, refl)
Ordered-uncons t (tidy now) cs o = ((o.0, tt), o.1, refl)

Uniform-uncons :
    (k : Bytes) (limit window : ℕ) (c : Call) (cs : List Call)
    → Uniform k limit window (c ∷ cs)
    → Uniform k limit window (c ∷ []) × Uniform k limit window cs
Uniform-uncons k limit window (allow key n w now now') cs f = ((f.0, tt), f.1)
Uniform-uncons k limit window (tidy now) cs f = (tt, f)

Tracks-run :
    (limit window : ℕ) (k : Bytes) (l : Windows) (t : ℕ) (past : List ℕ) (cs : List Call)
    → window ≤ idle_after
    → Unique l
    → Ordered t cs
    → Uniform k limit window cs
    → Tracks limit window t past (timestamps (lookup k l))
    → (x : ℕ) → finish t cs ≤ x
    → length (keep (in_window x window) (past ++ admitted k l cs)) ≤ limit
unfolding admitted
Tracks-run limit window k l t past [] short u o f kept x le =
    rw (append-nil, kept.same x le)
      (omega (arith, length-keep-le (in_window x window) (timestamps (lookup k l)), kept.few))
Tracks-run limit window k l t past (c ∷ cs) short u o f kept x le =
    let (l', ok) = step l c in
    let (now, later, ends) = Ordered-uncons t c cs o in
    let (here, rest) = Uniform-uncons k limit window c cs f in
    rw (← append_assoc) (
      Tracks-run limit window k l' (finish t (c ∷ [])) (past ++ noted k c ok) cs short
        (step-Unique l c u) later rest (step-Tracks limit window k l t past c short u now here kept)
        x (rw ends le))

-- In any history of requests and cleanups whose clock does not go back, in which the key `k` is
-- always given the same limit and the same window, of at most five minutes: at any instant `x`
-- from the end of the history on, at most `limit` of the requests admitted for `k` lie within the
-- window that ends at `x`.
pub admitted-le-limit :
    (k : Bytes) (limit window : ℕ) (cs : List Call)
    → window ≤ idle_after
    → Ordered 0 cs
    → Uniform k limit window cs
    → (x : ℕ) → finish 0 cs ≤ x
    → length (keep (in_window x window) (admitted k [] cs)) ≤ limit
unfolding lookup
admitted-le-limit k limit window cs short o f x le =
    Tracks-run limit window k [] 0 [] cs short tt o f
      (record { same = λ y h. refl; few = omega arith; rising = omega arith }) x le
