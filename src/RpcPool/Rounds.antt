-- ===== src/RpcPool/Rounds.antt =====
-- The rounds of the failover loop, `call` of backend/internal/rpcpool/pool.go.
use native.Mathlib.Nat.{add-zero, mod-eq_of_lt}
use magic_webb.Base.{
  ℕ, zero, suc, ◌+◌, ◌%◌, ◌≤◌, ◌<◌, ◌≡◌, ◌≢◌, ◌⊎◌, inl, inr, refl, sym, ◌∙◌, ap, subst, Bool, true,
  false, Option, none, some, arith, Bytes, nat_eq, lookup-insert, Bool-cases, mod_distinct,
}
use magic_webb.RpcPool.{
  Pool, rate_limit_backoff, is_rate_limited, Reply, value, error, Result, ok, exhausted, promote,
  after_error, call_from,
}

module _ {T : Type 0} (fn : ℕ → Reply T) (done : ℕ → Bool) (clock marks : ℕ → ℕ)
    (alive : (j : ℕ) → done j ≡ false) where
  -- Round `i` leaves the other rounds' endpoints as they were.
  after_error_other :
      (n start i m : ℕ) (e : Bytes) (p : Pool)
      → i < m
      → m < n
      → is_rate_limited
          (clock m)
          ((start + m) % n)
          (after_error fn done clock marks i ((start + i) % n) e p)
        ≡ is_rate_limited (clock m) ((start + m) % n) p
  unfolding after_error is_rate_limited
  after_error_other n start i m e p lt le =
      let apart = mod_distinct (start + i) (start + m) n (omega arith) (omega arith) in
      ground (
        arith,
        apart,
        lookup-insert ((start + i) % n) ((start + m) % n) (marks i + rate_limit_backoff)
            p.rate_limited,
      )

  after_error-cur :
      (i idx : ℕ) (e : Bytes) (p : Pool) → (after_error fn done clock marks i idx e p).cur ≡ p.cur
  unfolding after_error
  after_error-cur i idx e p = ground arith

  -- The call succeeds with the value of an endpoint that it reaches by round `m`, and the cursor
  -- stands there.
  abbrev pub Finds : ℕ → ℕ → ℕ → Pool × Result T → Type 0
  Finds n start m r =
      (j : ℕ) × (w : T) × (j ≤ m)
      × (fn ((start + j) % n) ≡ value w)
      × (r.1 ≡ ok w)
      × (r.0.cur ≡ (start + j) % n)

  Reply-cases : (r : Reply T) → ((v : T) × (r ≡ value v)) ⊎ ((e : Bytes) × (r ≡ error e))
  Reply-cases (value v) = inl (v, refl)
  Reply-cases (error e) = inr (e, refl)

  promote-cur :
      (n start i : ℕ) (p : Pool)
      → start < n
      → p.cur ≡ start
      → (promote start i ((start + i) % n) p).cur ≡ (start + i) % n
  unfolding promote
  promote-cur n start i p s c = ground (arith, c, mod-eq_of_lt s, add-zero start)

  call_from_value :
      (n start k i : ℕ) (last : Option Bytes) (p : Pool) (v : T)
      → is_rate_limited (clock i) ((start + i) % n) p ≡ false
      → fn ((start + i) % n) ≡ value v
      → call_from fn done clock marks n start (suc k) i last p
        ≡ (promote start i ((start + i) % n) p, ok v)
  unfolding call_from
  call_from_value n start k i last p v f h = rw (alive i, f, h)

  call_from_limited :
      (n start k i : ℕ) (last : Option Bytes) (p : Pool)
      → is_rate_limited (clock i) ((start + i) % n) p ≡ true
      → call_from fn done clock marks n start (suc k) i last p
        ≡ call_from fn done clock marks n start k (i + 1) last p
  unfolding call_from
  call_from_limited n start k i last p t = rw (alive i, t)

  call_from_error :
      (n start k i : ℕ) (last : Option Bytes) (p : Pool) (e : Bytes)
      → is_rate_limited (clock i) ((start + i) % n) p ≡ false
      → fn ((start + i) % n) ≡ error e
      → call_from fn done clock marks n start (suc k) i last p
        ≡ call_from fn done clock marks n start k
            (i + 1)
            (some e)
            (after_error fn done clock marks i ((start + i) % n) e p)
  unfolding call_from
  call_from_error n start k i last p e f h = rw (alive i, f, h)

  pub call_from-Finds :
      (n start k i m : ℕ) (last : Option Bytes) (p : Pool) (v : T)
      → i + k ≡ n
      → i ≤ m
      → m < n
      → start < n
      → p.cur ≡ start
      → is_rate_limited (clock m) ((start + m) % n) p ≡ false
      → fn ((start + m) % n) ≡ value v
      → Finds n start m (call_from fn done clock marks n start k i last p)
  call_from-Finds n start zero i m last p v e le lt s c f h = absurd (omega arith)
  call_from-Finds n start (suc k) i m last p v e le lt s c f h =
      elim (Bool-cases (is_rate_limited (clock i) ((start + i) % n) p)) [
        | inl t ↦
            let next = past (λ eq. grind arith) in
            subst (Finds n start m) (sym (call_from_limited n start k i last p t))
              (call_from-Finds n start k (i + 1) m last p v (omega arith) next lt s c f h)
        | inr t ↦ elim (Reply-cases (fn ((start + i) % n))) [
          | inl (w, found) ↦
              let step = call_from_value n start k i last p w t found in
              (
                i,
                w,
                le,
                found,
                ap (λ r. r.1) step,
                ap (λ r. r.0.cur) step ∙ promote-cur n start i p s c,
              )
          | inr (msg, failed) ↦
              let next = past (λ eq. grind arith) in
              let q = after_error fn done clock marks i ((start + i) % n) msg p in
              subst (Finds n start m) (sym (call_from_error n start k i last p msg t failed)) (
                call_from-Finds n start k (i + 1) m (some msg) q v (omega arith) next lt s
                  (after_error-cur i ((start + i) % n) msg p ∙ c)
                  (after_error_other n start i m msg p (omega arith) lt ∙ f) h)
        ]
      ]
    where
      past : i ≢ m → i + 1 ≤ m
      past ne = ground arith

  -- An error once seen is kept.
  call_from-some :
      (n start k i : ℕ) (e : Bytes) (p : Pool)
      → (call_from fn done clock marks n start k i (some e) p).1 ≢ exhausted none
  unfolding call_from
  call_from-some n start zero i e p h = grind arith
  call_from-some n start (suc k) i e p h =
      elim (Bool-cases (is_rate_limited (clock i) ((start + i) % n) p)) [
        | inl t ↦
            let step = call_from_limited n start k i (some e) p t in
            call_from-some n start k (i + 1) e p (ap (λ r. r.1) (sym step) ∙ h)
        | inr t ↦ elim (Reply-cases (fn ((start + i) % n))) [
          | inl (w, found) ↦
              let step = call_from_value n start k i (some e) p w t found in
              ok_not_exhausted (ap (λ r. r.1) (sym step) ∙ h)
          | inr (msg, failed) ↦
              let step = call_from_error n start k i (some e) p msg t failed in
              call_from-some n start k (i + 1) msg
                (after_error fn done clock marks i ((start + i) % n) msg p)
                (ap (λ r. r.1) (sym step) ∙ h)
        ]
      ]
    where
      ok_not_exhausted : {w : T} → ok w ≢ exhausted none
      ok_not_exhausted eq = grind arith

  -- A loop that reaches an endpoint out of backoff tries one.
  pub call_from_tries :
      (n start k i m : ℕ) (p : Pool)
      → i + k ≡ n
      → i ≤ m
      → m < n
      → is_rate_limited (clock m) ((start + m) % n) p ≡ false
      → (call_from fn done clock marks n start k i none p).1 ≢ exhausted none
  call_from_tries n start zero i m p e le lt f h = absurd (omega arith)
  call_from_tries n start (suc k) i m p e le lt f h =
      elim (Bool-cases (is_rate_limited (clock i) ((start + i) % n) p)) [
        | inl t ↦
            let step = call_from_limited n start k i none p t in
            let next = past (λ eq. grind arith) in
            call_from_tries n start k (i + 1) m p (omega arith) next lt f
              (ap (λ r. r.1) (sym step) ∙ h)
        | inr t ↦ elim (Reply-cases (fn ((start + i) % n))) [
          | inl (w, found) ↦
              let step = call_from_value n start k i none p w t found in
              ok_not_exhausted (ap (λ r. r.1) (sym step) ∙ h)
          | inr (msg, failed) ↦
              let step = call_from_error n start k i none p msg t failed in
              call_from-some n start k (i + 1) msg
                (after_error fn done clock marks i ((start + i) % n) msg p)
                (ap (λ r. r.1) (sym step) ∙ h)
        ]
      ]
    where
      past : i ≢ m → i + 1 ≤ m
      past ne = ground arith

      ok_not_exhausted : {w : T} → ok w ≢ exhausted none
      ok_not_exhausted eq = grind arith
