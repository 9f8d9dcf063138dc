-- ===== src/RateLimit/Fixed.antt =====
-- Histories of the shared fixed window: allowPg and sweepPg of backend/internal/ratelimit/memory.go.
use native.Mathlib.Nat.{mod-lt}
use magic_webb.Base.{
  ℕ, ◌+◌, ◌-◌, ◌*◌, ◌≤◌, ◌<◌, ◌≡◌, refl, ap, Bool, true, false, ◌&&◌, List, [], ◌∷◌, arith, Bytes,
  bytes_eq, bytes_nat_eq, bytes_eqb, bytes_eqb_iff, nat_eqb, both_eqb_iff, ◌⊎◌, ltb, inl, inr,
  lookup, lookup-insert, lookup-delete_where, Unique, insert-Unique, delete_where-Unique,
}
use magic_webb.RateLimit.{Counters, window_start, count_or_zero, allow_pg, sweep_pg}

-- A request or a sweep, with whether its query fails and the clock's reading.
pub data PgCall : Type 0 where
  allows : Bool → Bytes → ℕ → ℕ → ℕ → PgCall
  sweeps : Bool → ℕ → PgCall

abbrev pub bit : Bool → ℕ
bit true = 1
bit false = 0

-- How many requests for the key `k` are admitted in the window that starts at `ws`.
unfoldable pub admitted_in : Bytes → ℕ → Counters → List PgCall → ℕ
unfolding allow_pg sweep_pg
admitted_in k ws t [] = 0
admitted_in k ws t (allows fails key limit window now ∷ cs) =
    let (t', ok) = allow_pg fails t key limit window now in
    let here = bytes_eqb key k && nat_eqb (window_start now window) ws in
    bit (here && ok) + admitted_in k ws t' cs
admitted_in k ws t (sweeps fails now ∷ cs) = admitted_in k ws (sweep_pg fails t now) cs

abbrev pub PgOrdered : ℕ → List PgCall → Type 0
PgOrdered t [] = Unit
PgOrdered t (allows fails key limit window now ∷ cs) = (t ≤ now) × PgOrdered now cs
PgOrdered t (sweeps fails now ∷ cs) = (t ≤ now) × PgOrdered now cs

-- Every request for the key `k` comes with this limit and this window.
abbrev pub PgUniform : Bytes → ℕ → ℕ → List PgCall → Type 0
PgUniform k limit window [] = Unit
PgUniform k limit window (allows fails key n w now ∷ cs) =
    (key ≡ k → (n ≡ limit) × (w ≡ window)) × PgUniform k limit window cs
PgUniform k limit window (sweeps fails now ∷ cs) = PgUniform k limit window cs

window_start-later :
    (now window : ℕ)
    → 0 < window
    → (window_start now window ≤ now) × (now < window_start now window + window)
unfolding window_start
window_start-later now window pos = ground (arith, mod-lt now pos)

spend :
    (b : Bool) {limit : ℕ} (later before after : ℕ)
    → before + bit b ≤ after
    → (b ≡ true → before + 1 ≤ limit)
    → later ≤ limit - after
    → bit b + later ≤ limit - before
spend true later before after counted within rest = omega (arith, within refl)
spend false later before after counted within rest = omega arith

-- Whether a request counts in the window `ws` of `k`.
abbrev here : Bytes → ℕ → Bytes → ℕ → ℕ → Bool
here k ws key window now = bytes_eqb key k && nat_eqb (window_start now window) ws

module _ (k : Bytes) (limit window ws : ℕ) (pos : 0 < window) where
  here-closed :
      (key : Bytes) (n w now : ℕ)
      → ws + window ≤ now
      → (key ≡ k → (n ≡ limit) × (w ≡ window))
      → here k ws key w now ≡ false
  here-closed key n w now over u =
      ground
        (arith, bytes_eqb_iff key k, u, window_start-later now window pos, ap (window_start now))

  -- Once the window is over nothing more is admitted in it.
  admitted_in-closed :
      (τ : ℕ) (t : Counters) (cs : List PgCall)
      → ws + window ≤ τ
      → PgOrdered τ cs
      → PgUniform k limit window cs
      → admitted_in k ws t cs ≡ 0
  unfolding admitted_in
  admitted_in-closed τ t [] over o u = refl
  admitted_in-closed τ t (allows fails key n w now ∷ cs) over o u =
      let rest = admitted_in-closed now (allow_pg fails t key n w now).0 cs (omega arith) o.1 u.1 in
      rw (here-closed key n w now (omega arith) u.0) (omega (arith, rest))
  admitted_in-closed τ t (sweeps fails now ∷ cs) over o u =
      admitted_in-closed now (sweep_pg fails t now) cs (omega arith) o.1 u

  abbrev spent : Counters → ℕ
  spent t = count_or_zero (lookup (k, ws) t)

  -- A request that is admitted in the window is within the limit and is counted.
  allow_pg-spent :
      (fails : Bool) (t : Counters) (key : Bytes) (n w now : ℕ)
      → (key ≡ k → (n ≡ limit) × (w ≡ window))
      → (spent t + bit (here k ws key w now && (allow_pg fails t key n w now).1)
          ≤ spent (allow_pg fails t key n w now).0)
        × ((here k ws key w now && (allow_pg fails t key n w now).1) ≡ true → spent t + 1 ≤ limit)
  unfolding allow_pg
  allow_pg-spent fails t key n w now u =
      let row : Bytes × ℕ = (key, window_start now w) in
      let count = count_or_zero (lookup row t) + 1 in
      ground (
        arith,
        u,
        bytes_eqb_iff key k,
        both_eqb_iff row (k, ws),
        lookup-insert row (k, ws) count t,
        ap (λ r. lookup r t),
      )

  -- A sweep leaves the row, or the window has been over for long.
  sweep_pg-spent :
      (fails : Bool) (t : Counters) (now : ℕ)
      → Unique t
      → (spent (sweep_pg fails t now) ≡ spent t) ⊎ (ws + 60 * 60 * 1000000 < now)
  unfolding sweep_pg
  sweep_pg-spent fails t now u =
      ground (arith, lookup-delete_where (λ row _. ltb (row.1 + 60 * 60 * 1000000) now) (k, ws) t u)

  allow_pg-Unique :
      (fails : Bool) (t : Counters) (key : Bytes) (n w now : ℕ)
      → Unique t
      → Unique (allow_pg fails t key n w now).0
  unfolding allow_pg
  allow_pg-Unique fails t key n w now u =
      let row : Bytes × ℕ = (key, window_start now w) in
      let count = count_or_zero (lookup row t) + 1 in ground (arith, insert-Unique row count t u)

  sweep_pg-Unique :
      (fails : Bool) (t : Counters) (now : ℕ) → Unique t → Unique (sweep_pg fails t now)
  unfolding sweep_pg
  sweep_pg-Unique fails t now u =
      ground (arith, delete_where-Unique (λ row _. ltb (row.1 + 60 * 60 * 1000000) now) t u)

  admitted_in-left :
      (τ : ℕ) (t : Counters) (cs : List PgCall)
      → window ≤ 60 * 60 * 1000000
      → Unique t
      → PgOrdered τ cs
      → PgUniform k limit window cs
      → admitted_in k ws t cs ≤ limit - spent t
  unfolding admitted_in
  admitted_in-left τ t [] short q o u = omega arith
  admitted_in-left τ t (allows fails key n w now ∷ cs) short q o u =
      let t' = (allow_pg fails t key n w now).0 in
      let rest = admitted_in-left now t' cs short (allow_pg-Unique fails t key n w now q) o.1 u.1 in
      let (counted, within) = allow_pg-spent fails t key n w now u.0 in
      spend (here k ws key w now && (allow_pg fails t key n w now).1) (admitted_in k ws t' cs)
        (spent t) (spent t') counted within rest
  admitted_in-left τ t (sweeps fails now ∷ cs) short q o u =
      let t' = sweep_pg fails t now in
      elim (sweep_pg-spent fails t now q) [
        | inl same ↦
            omega
              (arith, same, admitted_in-left now t' cs short (sweep_pg-Unique fails t now q) o.1 u)
        | inr late ↦ omega (arith, admitted_in-closed now t' cs (omega arith) o.1 u)
      ]

-- In any history of requests and hourly sweeps, with failing queries among them, whose clock does
-- not go back, in which the key `k` is always given the same limit and the same window, which is not
-- empty and at most an hour: at most `limit` requests for `k` are admitted in the window that starts at `ws`.
pub admitted_in-le :
    (k : Bytes) (limit window ws : ℕ) (cs : List PgCall)
    → 0 < window
    → window ≤ 60 * 60 * 1000000
    → PgOrdered 0 cs
    → PgUniform k limit window cs
    → admitted_in k ws [] cs ≤ limit
admitted_in-le k limit window ws cs pos short o u =
    omega (arith, admitted_in-left k limit window ws pos 0 [] cs short tt o u)
