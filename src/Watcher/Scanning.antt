-- ===== src/Watcher/Scanning.antt =====
-- What a scan by processTransfers, of backend/internal/indexer/runner.go, has dispatched when its
-- workers have returned.
use magic_webb.Base.{
  ℕ, ◌≡◌, refl, sym, ap, ◌∙◌, true, false, none, some, List, [], ◌∷◌, ◌++◌, Bytes, bytes_eq, GoMap,
  lookup, keep, append-nil, All, Bool-cases, inl, inr, arith,
}
use magic_webb.Watcher.{Outcome, is_retriable}
use magic_webb.Watcher.Transfers.{
  WorkerStep, dispatches, returns, Workers, TransferAnswers, bucket_of, resolve_times,
  after_dispatch, worker_step, run_workers, start_workers, after_wait, process_transfers,
  checkpoint_of,
}
use magic_webb.Watcher.Buckets.{is_from, stamped, start-Accounts, run_workers-Accounts}
use magic_webb.Watcher.Times.{dated, resolve_times-IsDated, stamped-dated}

module _ {Log : Type 0} (address : Log → Bytes) (block_number : Log → ℕ) where
  -- No outcome of the schedule is a retriable error.
  abbrev pub IsHarmless : WorkerStep → Type 0
  IsHarmless (dispatches a o) = is_retriable o ≡ false
  IsHarmless (returns a) = Unit

  -- Every worker has returned.
  abbrev pub AllDone : Workers Log → Type 0
  AllDone w = (a : Bytes) → bucket_of (lookup a w.buckets) ≡ []

  after_dispatch-failed :
      (block_times : GoMap ℕ ℕ) (a : Bytes) (bucket : List Log) (o : Outcome) (w : Workers Log)
      → is_retriable o ≡ false
      → w.failed ≡ false
      → (after_dispatch address block_number block_times a bucket o w).failed ≡ false
  after_dispatch-failed block_times a [] o w h f = f
  after_dispatch-failed block_times a (l ∷ rest) o w h f = rw (f, h)

  run_workers-failed :
      (block_times : GoMap ℕ ℕ) (steps : List WorkerStep) (w : Workers Log)
      → All IsHarmless steps
      → w.failed ≡ false
      → (run_workers address block_number block_times steps w).failed ≡ false
  unfolding run_workers worker_step
  run_workers-failed block_times [] w h f = f
  run_workers-failed block_times (dispatches a o ∷ steps) w (h, hs) f =
      run_workers-failed block_times steps _ hs
        (after_dispatch-failed block_times a (bucket_of (lookup a w.buckets)) o w h f)
  run_workers-failed block_times (returns a ∷ steps) w (h, hs) f =
      run_workers-failed block_times steps _ hs (ground (arith, f))

  -- The workers after the schedule.
  abbrev pub final_workers : TransferAnswers Log → GoMap ℕ ℕ → List Log → Workers Log
  final_workers ans times logs =
      run_workers address block_number times ans.schedule (start_workers address block_number logs)

  process_transfers-workers :
      (ans : TransferAnswers Log) (to : ℕ) (block_times times : GoMap ℕ ℕ) (a : Bytes)
      (addrs : List Bytes) (logs : List Log)
      → ans.tracked ≡ some (a ∷ addrs)
      → ans.transfer_logs ≡ some logs
      → resolve_times address block_number ans.header_time logs block_times ≡ some times
      → process_transfers address block_number ans to block_times
        ≡ after_wait address block_number ans to (final_workers ans times logs)
  unfolding process_transfers
  process_transfers-workers ans to block_times times a addrs logs tracked found resolved =
      rw (tracked, found, resolved)

  -- Where collections are tracked, and their logs and the times of the blocks are read, under any
  -- schedule in which all workers return: the scan succeeds if no dispatch fails with a retriable error. If
  -- it does not succeed, no checkpoint is saved. If it succeeds, the checkpoint is the range's
  -- end, unless it cannot be saved, and the logs dispatched of every collection are just its logs, in
  -- their order, each once and with its block's time: the one known before the scan, or else the
  -- one of the block's header.
  pub process_transfers-dispatches :
      (ans : TransferAnswers Log) (to : ℕ) (block_times times : GoMap ℕ ℕ) (a : Bytes)
      (addrs : List Bytes) (logs : List Log)
      → ans.tracked ≡ some (a ∷ addrs)
      → ans.transfer_logs ≡ some logs
      → resolve_times address block_number ans.header_time logs block_times ≡ some times
      → AllDone (final_workers ans times logs)
      → let result = process_transfers address block_number ans to block_times in
        (All IsHarmless ans.schedule → result.succeeded ≡ true)
        × (result.succeeded ≡ false → result.checkpoint ≡ none)
        × (result.succeeded ≡ true
            → (result.checkpoint ≡ checkpoint_of address block_number ans to)
              × ((b : Bytes)
                  → keep (λ p. is_from address block_number b p.0) result.dispatched
                    ≡ dated address block_number ans.header_time block_times
                        (keep (is_from address block_number b) logs)))
  process_transfers-dispatches ans to block_times times a addrs logs tracked found resolved done =
      let w = final_workers ans times logs in
      rw (process_transfers-workers ans to block_times times a addrs logs tracked found resolved)
        (elim (Bool-cases w.failed) [
          | inl t ↦
              rw t (λ harmless. absurd (cc (succeeds harmless, t)), λ _. refl, λ s. absurd (cc s))
          | inr f ↦ rw f (λ _. refl, λ s. absurd (cc s), λ _. (refl, dispatched f))
        ])
    where
      succeeds : All IsHarmless ans.schedule → (final_workers ans times logs).failed ≡ false
      succeeds harmless =
          run_workers-failed times ans.schedule (start_workers address block_number logs) harmless
            refl

      dispatched :
          (final_workers ans times logs).failed ≡ false
          → (b : Bytes)
          → keep (λ p. is_from address block_number b p.0) (final_workers ans times logs).dispatched
            ≡ dated address block_number ans.header_time block_times
                (keep (is_from address block_number b) logs)
      dispatched f b =
          elim (run_workers-Accounts address block_number times logs ans.schedule
            (start_workers address block_number logs)
            (start-Accounts address block_number times logs)) [
              | inl t ↦ absurd (cc (t, f))
              | inr h ↦
                  let handled =
                    keep (λ p. is_from address block_number b p.0)
                      (final_workers ans times logs).dispatched in
                  sym (append-nil handled)
                  ∙ sym (ap (λ r. handled ++ stamped address block_number times r) (done b))
                  ∙ (h b).0
                  ∙ stamped-dated address block_number ans.header_time block_times times
                      (is_from address block_number b) logs
                      (resolve_times-IsDated address block_number ans.header_time logs block_times
                        times resolved)
            ]
