-- ===== src/RateLimit/Middleware.antt =====
-- tieredRateLimitMiddleware of backend/internal/api/rest.go over the Limiter's interface, and the
-- two limiters behind it.
use magic_webb.Base.{
  ℕ, zero, suc, ◌+◌, ◌-◌, ◌≡◌, refl, ◌∙◌, ap, Bool, false, List, [], ◌∷◌, ◌++◌, arith, Bytes,
  bytes_eq, bytes_nat_eq, ltb, leb, if◌then◌else◌, lookup, lookup-insert, keep, length-append,
  eqb_refl,
}
use magic_webb.RateLimit.{
  Windows, timestamps, in_window, allow_mem, remaining_mem, Counters, window_start, count_or_zero,
  allow_pg, remaining_pg,
}
use magic_webb.RateLimit.Tracking.{keep-append, keep-keep}

-- Allow and Remaining at one instant, with what a client relies on.
pub record Limiter (S : Type 0) : Type 0 where
  pub allow : S → Bytes → ℕ → ℕ → ℕ → S × Bool
  pub remaining : S → Bytes → ℕ → ℕ → ℕ → ℕ
  pub allow_iff :
      (s : S) (key : Bytes) (limit window now : ℕ)
      → (allow s key limit window now).1 ≡ ltb 0 (remaining s key limit window now)
  pub remaining-allow :
      (s : S) (key : Bytes) (limit window now : ℕ)
      → remaining (allow s key limit window now).0 key limit window now
        ≡ remaining s key limit window now - 1

-- c.Next() with the X-RateLimit-Remaining header, or a 429.
pub data Reply : Type 0 where
  next : ℕ → Reply
  too_many_requests : Reply

module _ {S : Type 0} (L : Limiter S) where
  open L use {allow, remaining, allow_iff, remaining-allow}

  -- `key` is keyPrefix + "|" + ClientIP(c). Remaining reads the clock at `now`, Allow at `now'`.
  unfoldable pub tiered : S → Bytes → ℕ → ℕ → ℕ → ℕ → S × Reply
  tiered s key limit window now now' =
      let left = remaining s key limit window now in
      if leb left 0
      then (s, too_many_requests)
      else let (s', ok) = allow s key limit window now' in
        if ok then (s', next (left - 1)) else (s', too_many_requests)

  -- `n` requests of one client at one instant, with the replies.
  unfoldable pub burst : ℕ → S → Bytes → ℕ → ℕ → ℕ → List Reply
  burst zero s key limit window now = []
  burst (suc n) s key limit window now =
      let (s', r) = tiered s key limit window now now in r ∷ burst n s' key limit window now

  abbrev pub count_down : ℕ → ℕ → List Reply
  count_down zero left = []
  count_down (suc n) zero = too_many_requests ∷ count_down n zero
  count_down (suc n) (suc left) = next left ∷ count_down n left

  tiered_spent :
      (s : S) (key : Bytes) (limit window now : ℕ)
      → remaining s key limit window now ≡ 0
      → tiered s key limit window now now ≡ (s, too_many_requests)
  unfolding tiered
  tiered_spent s key limit window now e = ground arith

  tiered_left :
      (s : S) (key : Bytes) (limit window now left : ℕ)
      → remaining s key limit window now ≡ suc left
      → (tiered s key limit window now now ≡ ((allow s key limit window now).0, next left))
  unfolding tiered
  tiered_left s key limit window now left e = ground (arith, allow_iff s key limit window now)

  burst-suc :
      (n left : ℕ) (s : S) (key : Bytes) (limit window now : ℕ)
      → remaining s key limit window now ≡ left
      → burst n s key limit window now ≡ count_down n (remaining s key limit window now)
      → burst n (allow s key limit window now).0 key limit window now
        ≡ count_down n (remaining (allow s key limit window now).0 key limit window now)
      → burst (suc n) s key limit window now ≡ count_down (suc n) left
  unfolding burst
  burst-suc n zero s key limit window now e same after =
      rw (tiered_spent s key limit window now e) (ap (λ rs. too_many_requests ∷ rs) (rw (← e) same))
  burst-suc n (suc left) s key limit window now e same after =
      let fewer : remaining (allow s key limit window now).0 key limit window now ≡ left =
        remaining-allow s key limit window now ∙ omega arith in
      rw (tiered_left s key limit window now left e)
        (ap (λ rs. next left ∷ rs) (after ∙ ap (count_down n) fewer))

  -- In a burst at one instant the replies count down exactly from what remained: as many requests
  -- pass as remained, each told how many are left after it, and the others get a 429.
  pub burst-count_down :
      (n : ℕ) (s : S) (key : Bytes) (limit window now : ℕ)
      → burst n s key limit window now ≡ count_down n (remaining s key limit window now)
  unfolding burst
  burst-count_down zero s key limit window now = refl
  burst-count_down (suc n) s key limit window now =
      burst-suc n _ s key limit window now refl (burst-count_down n s key limit window now)
        (burst-count_down n (allow s key limit window now).0 key limit window now)

-- Limiter.Allow reads the clock twice and Limiter.Remaining once; here they read the same instant.
pub allow_mem_iff :
    (l : Windows) (key : Bytes) (limit window now : ℕ)
    → (allow_mem l key limit window now now).1 ≡ ltb 0 (remaining_mem l key limit window now)
unfolding allow_mem remaining_mem
allow_mem_iff l key limit window now = ground arith

pub remaining_mem-allow_mem :
    (l : Windows) (key : Bytes) (limit window now : ℕ)
    → remaining_mem (allow_mem l key limit window now now).0 key limit window now
      ≡ remaining_mem l key limit window now - 1
unfolding allow_mem remaining_mem
remaining_mem-allow_mem l key limit window now =
    let fresh = keep (in_window now window) (timestamps (lookup key l)) in
    ground (
      arith,
      lookup-insert key key fresh l,
      lookup-insert key key (fresh ++ now ∷ []) l,
      eqb_refl key,
      keep-keep now now window (timestamps (lookup key l)) (omega arith),
      keep-append (in_window now window) fresh (now ∷ []),
      length-append fresh (now ∷ []),
    )

pub allow_pg_iff :
    (t : Counters) (key : Bytes) (limit window now : ℕ)
    → (allow_pg false t key limit window now).1 ≡ ltb 0 (remaining_pg false t key limit window now)
unfolding allow_pg remaining_pg
allow_pg_iff t key limit window now = ground arith

pub remaining_pg-allow_pg :
    (t : Counters) (key : Bytes) (limit window now : ℕ)
    → remaining_pg false (allow_pg false t key limit window now).0 key limit window now
      ≡ remaining_pg false t key limit window now - 1
unfolding allow_pg remaining_pg
remaining_pg-allow_pg t key limit window now =
    let row : Bytes × ℕ = (key, window_start now window) in
    let count = count_or_zero (lookup row t) + 1 in
    ground (arith, lookup-insert row row count t, eqb_refl row)

abbrev pub mem_limiter : Limiter Windows
mem_limiter = record {
  allow = λ l key limit window now. allow_mem l key limit window now now;
  remaining = remaining_mem;
  allow_iff = allow_mem_iff;
  remaining-allow = remaining_mem-allow_mem;
}

-- With queries that do not fail.
abbrev pub pg_limiter : Limiter Counters
pg_limiter = record {
  allow = allow_pg false;
  remaining = remaining_pg false;
  allow_iff = allow_pg_iff;
  remaining-allow = remaining_pg-allow_pg;
}
