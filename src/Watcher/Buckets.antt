-- ===== src/Watcher/Buckets.antt =====
-- What the workers of processTransfers, of backend/internal/indexer/runner.go, dispatch.
use magic_webb.Base.{
  ℕ, ◌≡◌, refl, sym, ap, ◌∙◌, subst, Bool, true, false, List, [], ◌∷◌, ◌++◌, map, Bytes, bytes_eq,
  bytes_eqb_iff, GoMap, lookup, insert, lookup-insert, if◌then◌else◌, keep, keep-append, append-nil,
  append_assoc, All, ◌==◌, Bool-cases, inl, inr, ◌⊎◌, eqb_refl, arith,
}
use magic_webb.Watcher.{Outcome, is_retriable}
use magic_webb.Watcher.Transfers.{
  WorkerStep, dispatches, returns, Workers, bucket_of, time_at, add_to_bucket, buckets_of,
  after_dispatch, worker_step, run_workers, start_workers,
}

bucket-insert :
    {Log : Type 0} (a b : Bytes) (new : List Log) (m : GoMap Bytes (List Log))
    → bucket_of (lookup b (insert a new m)) ≡ (if a == b then new else bucket_of (lookup b m))
bucket-insert a b new m = elim (Bool-cases (a == b)) [
  | inl t ↦ rw (lookup-insert a b new m, t)
  | inr f ↦ rw (lookup-insert a b new m, f)
]

module _ {Log : Type 0} (address : Log → Bytes) (block_number : Log → ℕ) where
  abbrev pub is_from : Bytes → Log → Bool
  is_from a l = address l == a

  abbrev pub stamped : GoMap ℕ ℕ → List Log → List (Log × ℕ)
  stamped block_times logs = map (λ l. (l, time_at address block_number block_times l)) logs

  -- Grouping keeps the logs of each collection, in their order.
  buckets_of-keep :
      (a : Bytes) (logs : List Log) (m : GoMap Bytes (List Log))
      → bucket_of (lookup a (buckets_of address block_number logs m))
        ≡ bucket_of (lookup a m) ++ keep (is_from a) logs
  unfolding buckets_of
  buckets_of-keep a [] m = sym (append-nil (bucket_of (lookup a m)))
  buckets_of-keep a (l ∷ logs) m =
      let old = bucket_of (lookup (address l) m) in
      buckets_of-keep a logs (add_to_bucket address block_number l m)
      ∙ elim (Bool-cases (address l == a)) [
        | inr f ↦ rw (bucket-insert (address l) a (old ++ l ∷ []) m, f)
        | inl t ↦
            rw (bucket-insert (address l) a (old ++ l ∷ []) m, t)
              (ap (λ b. (bucket_of (lookup b m) ++ l ∷ []) ++ keep (is_from a) logs)
                  ((bytes_eqb_iff (address l) a).0 t)
                ∙ append_assoc (bucket_of (lookup a m)) (l ∷ []) (keep (is_from a) logs))
      ]

  keep_from : (a : Bytes) (logs : List Log) → All (λ l. is_from a l ≡ true) (keep (is_from a) logs)
  keep_from a [] = tt
  keep_from a (l ∷ logs) = elim (Bool-cases (is_from a l)) [
    | inl t ↦ rw t (t, keep_from a logs)
    | inr f ↦ rw f (keep_from a logs)
  ]

  module _ (block_times : GoMap ℕ ℕ) (logs : List Log) where
    -- For a collection: the logs dispatched and those left are its logs, in their order.
    abbrev pub AccountsFor : Workers Log → Bytes → Type 0
    AccountsFor w a =
        (keep (λ p. is_from a p.0) w.dispatched
            ++ stamped block_times (bucket_of (lookup a w.buckets))
          ≡ stamped block_times (keep (is_from a) logs))
        × All (λ l. is_from a l ≡ true) (bucket_of (lookup a w.buckets))

    abbrev pub Accounts : Workers Log → Type 0
    Accounts w = (w.failed ≡ true) ⊎ ((a : Bytes) → AccountsFor w a)

    pub start-Accounts : Accounts (start_workers address block_number logs)
    unfolding lookup
    start-Accounts = inr (λ a. (
      ap (stamped block_times) (buckets_of-keep a logs []),
      subst (All (λ l. is_from a l ≡ true)) (sym (buckets_of-keep a logs [])) (keep_from a logs),
    ))

    -- The next log of a collection is dispatched.
    advance-AccountsFor :
        (a b : Bytes) (l : Log) (rest : List Log) (w : Workers Log)
        → bucket_of (lookup a w.buckets) ≡ l ∷ rest
        → AccountsFor w a
        → AccountsFor w b
        → AccountsFor
            (record {
              buckets = insert a rest w.buckets;
              dispatched = w.dispatched ++ (l, time_at address block_number block_times l) ∷ [];
              failed = w.failed;
            })
            b
    advance-AccountsFor a b l rest w next (now, from) (now', from') =
        let p : Log × ℕ = (l, time_at address block_number block_times l) in
        let from_next = subst (All (λ l. is_from a l ≡ true)) next from in
        let split : (c : Bytes)
            → keep (λ q. is_from c q.0) (w.dispatched ++ p ∷ [])
              ≡ keep (λ q. is_from c q.0) w.dispatched ++ keep (λ q. is_from c q.0) (p ∷ []) =
          λ c. keep-append (λ q. is_from c q.0) w.dispatched (p ∷ []) in
        elim (Bool-cases (a == b)) [
          | inl t ↦
              subst
                (λ c.
                  (keep (λ q. is_from c q.0) (w.dispatched ++ p ∷ [])
                      ++ stamped block_times (bucket_of (lookup c (insert a rest w.buckets)))
                    ≡ stamped block_times (keep (is_from c) logs))
                  × All (λ l. is_from c l ≡ true) (bucket_of (lookup c (insert a rest w.buckets))))
                ((bytes_eqb_iff a b).0 t)
                (rw (split a, bucket-insert a a rest w.buckets, eqb_refl a, from_next.0)
                  (
                    append_assoc (keep (λ q. is_from a q.0) w.dispatched) (p ∷ [])
                          (stamped block_times rest)
                        ∙ sym (
                            ap
                              (λ r. keep (λ q. is_from a q.0) w.dispatched ++ stamped block_times r)
                              next)
                        ∙ now,
                    from_next.1,
                  ))
          | inr f ↦
              let other : is_from b l ≡ false =
                ap (λ c. c == b) ((bytes_eqb_iff (address l) a).0 from_next.0) ∙ f in
              rw (split b, bucket-insert a b rest w.buckets, f, other)
                (
                  ap (λ xs. xs ++ stamped block_times (bucket_of (lookup b w.buckets)))
                        (append-nil (keep (λ q. is_from b q.0) w.dispatched))
                      ∙ now',
                  from',
                )
        ]

    after_dispatch-Accounts :
        (a : Bytes) (bucket : List Log) (o : Outcome) (w : Workers Log)
        → bucket_of (lookup a w.buckets) ≡ bucket
        → Accounts w
        → Accounts (after_dispatch address block_number block_times a bucket o w)
    after_dispatch-Accounts a [] o w e h = h
    after_dispatch-Accounts a (l ∷ rest) o w e (inl failed) = inl (rw failed)
    after_dispatch-Accounts a (l ∷ rest) o w e (inr h) = elim (Bool-cases (is_retriable o)) [
      | inl t ↦ inl (ground (arith, t))
      | inr f ↦ inr (λ b. rw f (advance-AccountsFor a b l rest w e (h a) (h b)))
    ]

    worker_step-Accounts :
        (e : WorkerStep) (w : Workers Log)
        → Accounts w
        → Accounts (worker_step address block_number block_times e w)
    unfolding worker_step
    worker_step-Accounts (dispatches a o) w h =
        after_dispatch-Accounts a (bucket_of (lookup a w.buckets)) o w refl h
    worker_step-Accounts (returns a) w h = elim (Bool-cases w.failed) [
      | inl t ↦ inl (rw t)
      | inr f ↦ subst Accounts (sym (if_false f)) h
    ]
      where
        if_false :
            w.failed ≡ false
            → (if w.failed then record w { buckets = insert a [] w.buckets } else w) ≡ w
        if_false f = rw f

    pub run_workers-Accounts :
        (steps : List WorkerStep) (w : Workers Log)
        → Accounts w
        → Accounts (run_workers address block_number block_times steps w)
    unfolding run_workers
    run_workers-Accounts [] w h = h
    run_workers-Accounts (e ∷ steps) w h =
        run_workers-Accounts steps (worker_step address block_number block_times e w)
          (worker_step-Accounts e w h)
