-- ===== src/Broadcast/Order.antt =====
-- Sequences of events whose numbers rise strictly.
use magic_webb.Base.{ℕ, ◌≤◌, ◌<◌, List, [], ◌∷◌, ◌++◌, arith, nat_eq}
use magic_webb.Broadcast.{Event}

-- Strictly rising numbers above `lo`, up to `hi`.
abbrev pub Rising : {D : Type 0} → ℕ → ℕ → List (Event D) → Type 0
Rising lo hi [] = lo ≤ hi
Rising lo hi (ev ∷ es) = (lo < ev.seq) × Rising ev.seq hi es

module _ {D : Type 0} where
  pub Rising-le : (lo hi : ℕ) (es : List (Event D)) → Rising lo hi es → lo ≤ hi
  Rising-le lo hi [] r = r
  Rising-le lo hi (ev ∷ es) r = omega (arith, Rising-le ev.seq hi es r.1)

  pub Rising-lower :
      (lo lo' hi : ℕ) (es : List (Event D)) → lo ≤ lo' → Rising lo' hi es → Rising lo hi es
  Rising-lower lo lo' hi [] h r = omega arith
  Rising-lower lo lo' hi (ev ∷ es) h r = (omega arith, r.1)

  pub Rising-raise :
      (lo hi hi' : ℕ) (es : List (Event D)) → hi ≤ hi' → Rising lo hi es → Rising lo hi' es
  Rising-raise lo hi hi' [] h r = omega arith
  Rising-raise lo hi hi' (ev ∷ es) h r = (r.0, Rising-raise ev.seq hi hi' es h r.1)

  pub Rising-snoc :
      (lo hi : ℕ) (es : List (Event D)) (ev : Event D)
      → hi < ev.seq
      → Rising lo hi es
      → Rising lo ev.seq (es ++ ev ∷ [])
  Rising-snoc lo hi [] ev h r = omega arith
  Rising-snoc lo hi (x ∷ es) ev h r = (r.0, Rising-snoc x.seq hi es ev h r.1)

  -- An event in the middle may be lost, or everything up to a point.
  pub Rising-without :
      (lo hi : ℕ) (xs : List (Event D)) (ev : Event D) (ys : List (Event D))
      → Rising lo hi (xs ++ ev ∷ ys)
      → Rising lo hi (xs ++ ys)
  Rising-without lo hi [] ev ys r = Rising-lower lo ev.seq hi ys (omega arith) r.1
  Rising-without lo hi (x ∷ xs) ev ys r = (r.0, Rising-without x.seq hi xs ev ys r.1)

  pub Rising-suffix :
      (lo hi : ℕ) (xs ys : List (Event D)) → Rising lo hi (xs ++ ys) → Rising lo hi ys
  Rising-suffix lo hi [] ys r = r
  Rising-suffix lo hi (x ∷ xs) ys r =
      Rising-lower lo x.seq hi ys (omega arith) (Rising-suffix x.seq hi xs ys r.1)
