-- ===== src/RpcPool/Failover.antt =====
-- A call to the pool reaches an endpoint that can serve it: backend/internal/rpcpool/pool.go.
use magic_webb.Base.{
  ℕ, zero, suc, ◌+◌, ◌%◌, ◌≤◌, ◌<◌, ◌≡◌, ◌≢◌, ◌⊎◌, inl, inr, refl, sym, ◌∙◌, ap, subst, Bool, true,
  false, none, arith, nat_eq, lookup, Bool-cases, ring_reach,
}
use magic_webb.RpcPool.{
  Pool, is_rate_limited, free_after, all_limited_below, all_rate_limited, clear_rate_limits, Reply,
  value, Result, ok, exhausted, call_from, call,
}
use magic_webb.RpcPool.Rounds.{call_from-Finds, call_from_tries}

-- An endpoint whose backoff is over, where the pool is not wholly in backoff.
unlimited_below :
    (now n : ℕ) (p : Pool)
    → all_limited_below now n p ≡ false
    → (x : ℕ) × (x < n) × (free_after now (lookup x p.rate_limited) ≡ true)
unfolding all_limited_below
unlimited_below now zero p h = grind arith
unlimited_below now (suc n) p h = elim (Bool-cases (free_after now (lookup n p.rate_limited))) [
  | inl t ↦ (n, omega arith, t)
  | inr f ↦ let (x, lt, free) = unlimited_below now n p (grind arith) in (x, omega arith, free)
]

free-unlimited :
    (now later x : ℕ) (p : Pool)
    → now ≤ later
    → free_after now (lookup x p.rate_limited) ≡ true
    → is_rate_limited later x p ≡ false
unfolding is_rate_limited
free-unlimited now later x p le h = ground arith

limited_earlier :
    (now later x : ℕ) (p : Pool)
    → now ≤ later
    → is_rate_limited now x p ≡ false
    → is_rate_limited later x p ≡ false
unfolding is_rate_limited
limited_earlier now later x p le h = ground arith

cleared-unlimited : (later x : ℕ) (p : Pool) → is_rate_limited later x (clear_rate_limits p) ≡ false
unfolding is_rate_limited clear_rate_limits lookup
cleared-unlimited later x p = refl

module _ {T : Type 0} (fn : ℕ → Reply T) (done : ℕ → Bool) (clock marks : ℕ → ℕ) (now : ℕ)
    (alive : (j : ℕ) → done j ≡ false) (later : (j : ℕ) → now ≤ clock j) where
  abbrev Loop : Pool → Pool × Result T
  Loop p = call_from fn done clock marks p.nodes p.cur p.nodes 0 none p

  call_open :
      (p : Pool)
      → all_rate_limited now p ≡ true
      → call fn done clock marks now p ≡ Loop (clear_rate_limits p)
  unfolding call clear_rate_limits
  call_open p h = rw h

  call_closed :
      (p : Pool) → all_rate_limited now p ≡ false → call fn done clock marks now p ≡ Loop p
  unfolding call
  call_closed p h = rw h

  -- The loop finds the endpoint `x`, whose round `ring_reach` gives.
  loop-reaches :
      (p : Pool) (x : ℕ) (v : T)
      → p.cur < p.nodes
      → x < p.nodes
      → fn x ≡ value v
      → ((j : ℕ) → is_rate_limited (clock j) x p ≡ false)
      → (y : ℕ) × (w : T) × (fn y ≡ value w) × ((Loop p).1 ≡ ok w) × ((Loop p).0.cur ≡ y)
  loop-reaches p x v c lt h free =
      let (m, below, at) = ring_reach p.cur x p.nodes c lt in
      let unlimited = subst (λ y. is_rate_limited (clock m) y p ≡ false) (sym at) (free m) in
      let (j, w, le, found, result, cur) =
        call_from-Finds fn done clock marks alive p.nodes p.cur p.nodes 0 m none p v (omega arith)
          (omega arith) below c refl unlimited (ap fn at ∙ h) in
      ((p.cur + j) % p.nodes, w, found, result, cur)

  loop-tries :
      (p : Pool) (x : ℕ)
      → p.cur < p.nodes
      → x < p.nodes
      → ((j : ℕ) → is_rate_limited (clock j) x p ≡ false)
      → (Loop p).1 ≢ exhausted none
  loop-tries p x c lt free =
      let (m, below, at) = ring_reach p.cur x p.nodes c lt in
      let unlimited = subst (λ y. is_rate_limited (clock m) y p ≡ false) (sym at) (free m) in
      call_from_tries fn done clock marks alive p.nodes p.cur p.nodes 0 m p (omega arith)
        (omega arith) below unlimited

  -- While its context is alive and its cursor is an endpoint, a call to the pool succeeds where
  -- some endpoint would answer and that endpoint is not in backoff when the call begins, or
  -- every endpoint is, and no clock reading of the call is before its beginning: it returns a
  -- value that an endpoint answers, and the cursor is that endpoint.
  pub call-reaches :
      (p : Pool) (x : ℕ) (v : T)
      → p.cur < p.nodes
      → x < p.nodes
      → fn x ≡ value v
      → (is_rate_limited now x p ≡ false) ⊎ (all_rate_limited now p ≡ true)
      → (y : ℕ) × (w : T) × (fn y ≡ value w)
        × ((call fn done clock marks now p).1 ≡ ok w)
        × ((call fn done clock marks now p).0.cur ≡ y)
  unfolding clear_rate_limits
  call-reaches p x v c lt h why = elim (Bool-cases (all_rate_limited now p)) [
    | inl t ↦
        subst Answers (sym (call_open p t))
          (loop-reaches (clear_rate_limits p) x v c lt h (λ j. cleared-unlimited (clock j) x p))
    | inr f ↦
        let first : is_rate_limited now x p ≡ false = elim why [
          | inl a ↦ a
          | inr b ↦ grind arith
        ] in
        subst Answers (sym (call_closed p f))
          (loop-reaches p x v c lt h (λ j. limited_earlier now (clock j) x p (later j) first))
  ]
    where
      Answers : Pool × Result T → Type 0
      Answers r = (y : ℕ) × (w : T) × (fn y ≡ value w) × (r.1 ≡ ok w) × (r.0.cur ≡ y)

  -- While its context is alive, its cursor is an endpoint and no clock reading of the call is
  -- before its beginning, a call never gives up without trying an endpoint, whatever the
  -- backoffs are.
  pub call-tries :
      (p : Pool) → p.cur < p.nodes → (call fn done clock marks now p).1 ≢ exhausted none
  unfolding clear_rate_limits all_rate_limited
  call-tries p c h = elim (Bool-cases (all_rate_limited now p)) [
    | inl t ↦
        loop-tries (clear_rate_limits p) p.cur c c (λ j. cleared-unlimited (clock j) p.cur p)
          (ap (λ r. r.1) (sym (call_open p t)) ∙ h)
    | inr f ↦
        let (x, lt, free) = unlimited_below now p.nodes p f in
        loop-tries p x c lt (λ j. free-unlimited now (clock j) x p (later j) free)
          (ap (λ r. r.1) (sym (call_closed p f)) ∙ h)
  ]
