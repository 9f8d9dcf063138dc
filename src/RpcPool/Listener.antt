-- ===== src/RpcPool/Listener.antt =====
-- What a listener to the health callback of backend/internal/rpcpool/pool.go learns.
use native.Mathlib.Nat.{zero-add}
use magic_webb.Base.{
  ℕ, zero, suc, ◌+◌, ◌<◌, ◌≡◌, refl, sym, ◌∙◌, subst, ap, ◌⊎◌, inl, inr, Bool, true, false, List,
  [], ◌∷◌, ◌++◌, arith, if◌then◌else◌, nat_eq, ◌==◌, length, All, GoMap, insert, lookup-insert,
  get_elem?,
}
use magic_webb.RpcPool.{Pool}
use magic_webb.RpcPool.Health.{
  Change, or_false, was_healthy, count_healthy, Pass, differ, visit, second_pass, health_cycle,
}

-- A listener's view of the endpoints, which it writes at each callback.
abbrev pub learn : List Change → GoMap ℕ Bool → GoMap ℕ Bool
learn [] view = view
learn (c ∷ changes) view = learn changes (insert c.endpoint_idx c.healthy view)

-- Two maps say the same of every endpoint.
abbrev pub Agree : GoMap ℕ Bool → GoMap ℕ Bool → Type 0
Agree view prev = (i : ℕ) → was_healthy i view ≡ was_healthy i prev

abbrev pub HasCount : ℕ → Change → Type 0
HasCount total c = c.healthy_count ≡ total

learn-append :
    (xs : List Change) (c : Change) (view : GoMap ℕ Bool)
    → learn (xs ++ c ∷ []) view ≡ insert c.endpoint_idx c.healthy (learn xs view)
learn-append [] c view = refl
learn-append (x ∷ xs) c view = learn-append xs c (insert x.endpoint_idx x.healthy view)

All-append :
    (total : ℕ) (xs : List Change) (c : Change)
    → All (HasCount total) xs
    → HasCount total c
    → All (HasCount total) (xs ++ c ∷ [])
All-append total [] c h k = (k, tt)
All-append total (x ∷ xs) c (g, h) k = (g, All-append total xs c h k)

was_healthy-insert :
    (idx i : ℕ) (h : Bool) (prev : GoMap ℕ Bool)
    → was_healthy i (insert idx h prev) ≡ (if idx == i then h else was_healthy i prev)
unfolding was_healthy
was_healthy-insert idx i h prev = ground (arith, lookup-insert idx i h prev)

-- What holds of the second pass: the listener, from `view`, knows prevHealthy, and the counts are right.
abbrev Told : ℕ → GoMap ℕ Bool → Pass → Type 0
Told total view s = Agree (learn s.changes view) s.prev × All (HasCount total) s.changes

Told-inserted :
    (total idx : ℕ) (h : Bool) (c : Change) (view : GoMap ℕ Bool) (s : Pass) (ls : List Change)
    → Told total view s
    → c.endpoint_idx ≡ idx
    → c.healthy ≡ h
    → c.healthy_count ≡ total
    → (ls ≡ s.changes ++ c ∷ []) ⊎ ((ls ≡ s.changes) × (h ≡ was_healthy idx s.prev))
    → Agree (learn ls view) (insert idx h s.prev) × All (HasCount total) ls
Told-inserted total idx h c view s ls (agree, counts) at is count (inl e) = (
  λ i.
      ap (λ l. was_healthy i (learn l view)) e
      ∙ ap (was_healthy i) (learn-append s.changes c view)
      ∙ both i,
  subst (All (HasCount total)) (sym e) (All-append total s.changes c counts count),
)
  where
    both :
        (i : ℕ)
        → was_healthy i (insert c.endpoint_idx c.healthy (learn s.changes view))
          ≡ was_healthy i (insert idx h s.prev)
    both i = ground (
      arith,
      was_healthy-insert c.endpoint_idx i c.healthy (learn s.changes view),
      was_healthy-insert idx i h s.prev,
      agree i,
    )
Told-inserted total idx h c view s ls (agree, counts) at is count (inr (e, same)) = (
  λ i. ap (λ l. was_healthy i (learn l view)) e ∙ agree i ∙ unchanged i,
  subst (All (HasCount total)) (sym e) counts,
)
  where
    unchanged : (i : ℕ) → was_healthy i s.prev ≡ was_healthy i (insert idx h s.prev)
    unchanged i = ground (arith, was_healthy-insert idx i h s.prev, ap (λ j. was_healthy j s.prev))

visit-changes :
    (n total idx : ℕ) (h : Bool) (s : Pass)
    → ((visit true n total idx h s).changes
        ≡ s.changes
          ++ record { endpoint_idx = idx; healthy = h; endpoint_count = n; healthy_count = total }
            ∷ [])
      ⊎ (((visit true n total idx h s).changes ≡ s.changes) × (h ≡ was_healthy idx s.prev))
unfolding visit differ
visit-changes n total idx true s = ground arith
visit-changes n total idx false s = ground arith

visit-Told :
    (n total idx : ℕ) (h : Bool) (view : GoMap ℕ Bool) (s : Pass)
    → Told total view s
    → Told total view (visit true n total idx h s)
unfolding visit
visit-Told n total idx h view s told =
    let c : Change = record {
      endpoint_idx = idx;
      healthy = h;
      endpoint_count = n;
      healthy_count = total;
    } in
    Told-inserted total idx h c view s (visit true n total idx h s).changes told refl refl refl
      (visit-changes n total idx h s)

second_pass-Told :
    (n total idx : ℕ) (healthy : List Bool) (view : GoMap ℕ Bool) (s : Pass)
    → Told total view s
    → Told total view (second_pass true n total idx healthy s)
unfolding second_pass
second_pass-Told n total idx [] view s told = told
second_pass-Told n total idx (h ∷ healthy) view s told =
    second_pass-Told n total (idx + 1) healthy view (visit true n total idx h s)
      (visit-Told n total idx h view s told)

-- The pass writes the map at the endpoints that it visits, from `idx` on.
second_pass-below :
    (has_cb : Bool) (n total idx i : ℕ) (healthy : List Bool) (s : Pass)
    → i < idx
    → was_healthy i (second_pass has_cb n total idx healthy s).prev ≡ was_healthy i s.prev
unfolding second_pass visit
second_pass-below has_cb n total idx i [] s lt = refl
second_pass-below has_cb n total idx i (h ∷ healthy) s lt =
    second_pass-below has_cb n total (idx + 1) i healthy (visit has_cb n total idx h s)
      (omega arith)
    ∙ ground (arith, was_healthy-insert idx i h s.prev)

second_pass-probed :
    (has_cb : Bool) (n total idx i : ℕ) (healthy : List Bool) (s : Pass)
    → i < length healthy
    → was_healthy (idx + i) (second_pass has_cb n total idx healthy s).prev
      ≡ or_false (get_elem? healthy i)
unfolding second_pass visit
second_pass-probed has_cb n total idx i [] s lt = elim lt [ ]
second_pass-probed has_cb n total idx zero (h ∷ healthy) s lt =
    second_pass-below has_cb n total (idx + 1) (idx + 0) healthy (visit has_cb n total idx h s)
      (omega arith)
    ∙ ground (arith, was_healthy-insert idx (idx + 0) h s.prev)
second_pass-probed has_cb n total idx (suc i) (h ∷ healthy) s lt =
    let s' = visit has_cb n total idx h s in
    let moved : idx + suc i ≡ idx + 1 + i = omega arith in
    ap (λ j. was_healthy j (second_pass has_cb n total (idx + 1) healthy s').prev) moved
    ∙ second_pass-probed has_cb n total (idx + 1) i healthy s' (omega arith)

-- A listener to the health callback that agreed with the loop before a cycle agrees with it
-- after, its view of each endpoint is then what the cycle's probe found, and every callback of
-- the cycle carries the number of healthy endpoints.
pub health_cycle-Agree :
    (healthy : List Bool) (prev view : GoMap ℕ Bool) (p : Pool)
    → Agree view prev
    → let (q, (next, changes)) = health_cycle true healthy prev p in
      Agree (learn changes view) next
      × ((i : ℕ)
          → i < length healthy
          → was_healthy i (learn changes view) ≡ or_false (get_elem? healthy i))
      × All (HasCount (count_healthy healthy)) changes
unfolding health_cycle
health_cycle-Agree healthy prev view p agree =
    let start : Pass = record { prev = prev; cur = p.cur; promoted = false; changes = [] } in
    let total = count_healthy healthy in
    let reached = (second_pass true p.nodes total 0 healthy start).prev in
    let (told, counts) = second_pass-Told p.nodes total 0 healthy view start (agree, tt) in
    (
      told,
      λ i lt.
          told i
          ∙ ap (λ j. was_healthy j reached) (sym (zero-add i))
          ∙ second_pass-probed true p.nodes total 0 i healthy start lt,
      counts,
    )
