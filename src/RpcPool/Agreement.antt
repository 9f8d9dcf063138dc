-- ===== src/RpcPool/Agreement.antt =====
-- FilterLogs and concurrentFilterLogs of backend/internal/rpcpool/pool.go: the race of two
-- endpoints. What arrives at the collecting loop is an argument; the code reads of a types.Log
-- its transaction hash.
use magic_webb.Base.{
  ℕ, zero, suc, ◌+◌, ◌≤◌, ◌≡◌, refl, sym, ◌∙◌, ap, ◌↔◌, Bool, true, false, Option, none, some, List,
  [], ◌∷◌, ◌++◌, map, arith, if◌then◌else◌, nat_eqb, leb, length, All,
}
use magic_webb.RpcPool.{Pool, Reply, Result, ok, call}

-- What the loop's `select` receives. An end of the list stands for nothing further.
pub data Arrival (Log : Type 0) : Type 0 where
  logs : List Log → Arrival Log
  failed : Arrival Log
  deadline : Arrival Log
  ctx_done : Arrival Log

-- The counters ConcurrentFilterLogsAttempts, -Successes and -Fallbacks.
pub record Metrics : Type 0 where
  pub attempts : ℕ
  pub successes : ℕ
  pub fallbacks : ℕ

module _ {Log : Type 0} (tx_hash : Log → ℕ) where
  -- `for i := range r1.logs`, once the lengths are equal.
  unfoldable pub hashes_match : List Log → List Log → Bool
  hashes_match [] ys = true
  hashes_match (x ∷ xs) [] = true
  hashes_match (x ∷ xs) (y ∷ ys) =
      if nat_eqb (tx_hash x) (tx_hash y) then hashes_match xs ys else false

  -- The label `compare`.
  unfoldable pub compare_results : List Log → List Log → Option (List Log)
  unfolding hashes_match
  compare_results r1 r2 =
      if nat_eqb (length r1) (length r2)
      then (if hashes_match r1 r2 then some r1 else none)
      else none

  -- The collecting loop: `n` rounds are left.
  unfoldable pub collect : ℕ → Option (List Log) → List (Arrival Log) → Option (List Log)
  unfolding compare_results
  collect zero r1 arrivals = none
  collect (suc n) r1 [] = none
  collect (suc n) r1 (failed ∷ arrivals) = collect n r1 arrivals
  collect (suc n) r1 (deadline ∷ arrivals) = none
  collect (suc n) r1 (ctx_done ∷ arrivals) = none
  collect (suc n) none (logs r ∷ arrivals) = collect n (some r) arrivals
  collect (suc n) (some r1) (logs r ∷ arrivals) = compare_results r1 r

  unfoldable pub concurrent_filter_logs : ℕ → List (Arrival Log) → Option (List Log)
  unfolding collect
  concurrent_filter_logs n arrivals = collect n none arrivals

  abbrev pub raced :
      Option (List Log)
      → Metrics
      → Pool
      → Pool × Result (List Log)
      → Metrics × (Pool × Result (List Log))
  raced none m p fallback =
      (record m { attempts = m.attempts + 1; fallbacks = m.fallbacks + 1 }, fallback)
  raced (some l) m p fallback =
      (record m { attempts = m.attempts + 1; successes = m.successes + 1 }, (p, ok l))

  unfoldable pub filter_logs :
      (ℕ → Reply (List Log))
      → (ℕ → Bool)
      → (ℕ → ℕ)
      → (ℕ → ℕ)
      → ℕ
      → List (Arrival Log)
      → Metrics
      → Pool
      → Metrics × (Pool × Result (List Log))
  unfolding concurrent_filter_logs call
  filter_logs fn done clock marks now arrivals m p =
      let sequential = call fn done clock marks now p in
      if leb 2 p.nodes
      then raced (concurrent_filter_logs p.nodes arrivals) m p sequential
      else (m, sequential)

  abbrev pub IsFailed : Arrival Log → Type 0
  IsFailed a = a ≡ failed

  -- Of the first `n` arrivals the first two with logs carry the same hashes, `l` those of the first,
  -- and neither a deadline nor a cancellation is before them.
  abbrev pub Agreed : ℕ → List (Arrival Log) → List Log → Type 0
  Agreed n arrivals l =
      (xs : List (Arrival Log)) × (ys : List (Arrival Log)) × (zs : List (Arrival Log)) × (l' : List
        Log)
      × (arrivals ≡ xs ++ logs l ∷ ys ++ logs l' ∷ zs)
      × All IsFailed xs
      × All IsFailed ys
      × (map tx_hash l ≡ map tx_hash l')
      × (length xs + length ys + 2 ≤ n)

  hashes_match_iff :
      (xs ys : List Log)
      → length xs ≡ length ys
      → (hashes_match xs ys ≡ true) ↔ (map tx_hash xs ≡ map tx_hash ys)
  unfolding hashes_match
  hashes_match_iff [] [] e = (λ h. refl, λ h. refl)
  hashes_match_iff [] (y ∷ ys) e = absurd (omega arith)
  hashes_match_iff (x ∷ xs) [] e = absurd (omega arith)
  hashes_match_iff (x ∷ xs) (y ∷ ys) e = ground (arith, hashes_match_iff xs ys (omega arith))

  length-hashes : (xs : List Log) → length (map tx_hash xs) ≡ length xs
  length-hashes [] = refl
  length-hashes (x ∷ xs) = ap suc (length-hashes xs)

  compare-agreed :
      (r1 r2 l : List Log)
      → compare_results r1 r2 ≡ some l
      → (r1 ≡ l) × (map tx_hash r1 ≡ map tx_hash r2)
  unfolding compare_results
  compare-agreed r1 r2 l h = ground (arith, hashes_match_iff r1 r2)

  agreed-compare :
      (r1 r2 : List Log) → map tx_hash r1 ≡ map tx_hash r2 → compare_results r1 r2 ≡ some r1
  unfolding compare_results
  agreed-compare r1 r2 h =
      let same = sym (length-hashes r1) ∙ ap length h ∙ length-hashes r2 in
      ground (arith, hashes_match_iff r1 r2 same)

  abbrev Second : ℕ → List Log → List (Arrival Log) → Type 0
  Second n l arrivals =
      (ys : List (Arrival Log)) × (zs : List (Arrival Log)) × (l' : List Log) × (arrivals
        ≡ ys ++ logs l' ∷ zs)
      × All IsFailed ys
      × (map tx_hash l ≡ map tx_hash l')
      × (length ys + 1 ≤ n)

  collect-Second :
      (n : ℕ) (r1 l : List Log) (arrivals : List (Arrival Log))
      → collect n (some r1) arrivals ≡ some l
      → (r1 ≡ l) × Second n r1 arrivals
  unfolding collect
  collect-Second zero r1 l arrivals h = grind arith
  collect-Second (suc n) r1 l [] h = grind arith
  collect-Second (suc n) r1 l (failed ∷ arrivals) h =
      let (same, (ys, zs, l', e, f, hashes, le)) = collect-Second n r1 l arrivals h in
      (same, (failed ∷ ys, zs, l', ap (λ t. failed ∷ t) e, (refl, f), hashes, omega arith))
  collect-Second (suc n) r1 l (deadline ∷ arrivals) h = grind arith
  collect-Second (suc n) r1 l (ctx_done ∷ arrivals) h = grind arith
  collect-Second (suc n) r1 l (logs r ∷ arrivals) h =
      let (same, hashes) = compare-agreed r1 r l h in
      (same, ([], arrivals, r, refl, tt, hashes, omega arith))

  collect-first :
      (n : ℕ) (l : List Log) (arrivals : List (Arrival Log))
      → collect n none arrivals ≡ some l
      → Agreed n arrivals l
  unfolding collect
  collect-first zero l arrivals h = grind arith
  collect-first (suc n) l [] h = grind arith
  collect-first (suc n) l (failed ∷ arrivals) h =
      let (xs, ys, zs, l', e, f, g, hashes, le) = collect-first n l arrivals h in
      (failed ∷ xs, ys, zs, l', ap (λ t. failed ∷ t) e, (refl, f), g, hashes, omega arith)
  collect-first (suc n) l (deadline ∷ arrivals) h = grind arith
  collect-first (suc n) l (ctx_done ∷ arrivals) h = grind arith
  collect-first (suc n) l (logs r ∷ arrivals) h =
      let (same, (ys, zs, l', e, f, hashes, le)) = collect-Second n r l arrivals h in
      let starts = ap (λ r'. logs r' ∷ arrivals) same ∙ ap (λ t. logs l ∷ t) e in
      let first : map tx_hash l ≡ map tx_hash l' = ap (map tx_hash) (sym same) ∙ hashes in
      ([], ys, zs, l', starts, tt, f, first, omega arith)

  second-collect :
      (n : ℕ) (l l' : List Log) (ys zs : List (Arrival Log))
      → All IsFailed ys
      → map tx_hash l ≡ map tx_hash l'
      → length ys + 1 ≤ n
      → collect n (some l) (ys ++ logs l' ∷ zs) ≡ some l
  unfolding collect
  second-collect zero l l' ys zs f h le = absurd (omega arith)
  second-collect (suc n) l l' [] zs f h le = agreed-compare l l' h
  second-collect (suc n) l l' (y ∷ ys) zs (e, f) h le =
      rw (e, second-collect n l l' ys zs f h (omega arith))

  first-collect :
      (n : ℕ) (l l' : List Log) (xs ys zs : List (Arrival Log))
      → All IsFailed xs
      → All IsFailed ys
      → map tx_hash l ≡ map tx_hash l'
      → length xs + length ys + 2 ≤ n
      → collect n none (xs ++ logs l ∷ ys ++ logs l' ∷ zs) ≡ some l
  unfolding collect
  first-collect zero l l' xs ys zs f g h le = absurd (omega arith)
  first-collect (suc n) l l' [] ys zs f g h le = second-collect n l l' ys zs g h (omega arith)
  first-collect (suc n) l l' (x ∷ xs) ys zs (e, f) g h le =
      rw (e, first-collect n l l' xs ys zs f g h (omega arith))

  -- The race of `n` endpoints returns `l` exactly where, among the first `n` arrivals and with
  -- only failures before and between them, two endpoints answered with the same transaction
  -- hashes in the same order, the first of them with `l`.
  pub concurrent_filter_logs_iff :
      (n : ℕ) (arrivals : List (Arrival Log)) (l : List Log)
      → (concurrent_filter_logs n arrivals ≡ some l) ↔ Agreed n arrivals l
  unfolding concurrent_filter_logs
  concurrent_filter_logs_iff n arrivals l = (
    collect-first n l arrivals,
    λ (xs, ys, zs, l', e, f, g, h, le).
        ap (collect n none) e ∙ first-collect n l l' xs ys zs f g h le,
  )
