-- ===== src/Watcher/Transfers.antt =====
-- The scan of the tracked collections: processTransfers of backend/internal/indexer/runner.go. Its
-- workers are goroutines, one for each collection with logs; a schedule is the order of their steps.
use magic_webb.Base.{
  ℕ, Bool, true, false, ◌||◌, Option, none, some, List, [], ◌∷◌, ◌++◌, Bytes, bytes_eq, nat_eq,
  GoMap, lookup, insert, if◌then◌else◌,
}
use magic_webb.Watcher.{Outcome, is_retriable}

-- A step of the worker of a collection: it dispatches its next log, with the outcome given, or it
-- returns where it has seen that another one failed. The check and the dispatch after it are two
-- steps of the worker, so that a dispatch may come after a failure.
pub data WorkerStep : Type 0 where
  dispatches : Bytes → Outcome → WorkerStep
  returns : Bytes → WorkerStep

-- The logs left in each bucket, the logs dispatched with their times, oldest first, and whether
-- dispatchErr is set.
pub record Workers (Log : Type 0) : Type 0 where
  pub buckets : GoMap Bytes (List Log)
  pub dispatched : List (Log × ℕ)
  pub failed : Bool

-- What processTransfers meets: ListTrackedCollections and FilterLogs (`none` is an error), the time
-- of a block's header, the schedule, and whether SetCollectionCheckpointsBatch succeeds.
pub record TransferAnswers (Log : Type 0) : Type 0 where
  pub tracked : Option (List Bytes)
  pub transfer_logs : Option (List Log)
  pub header_time : ℕ → Option ℕ
  pub schedule : List WorkerStep
  pub saves : Bool

pub record TransferResult (Log : Type 0) : Type 0 where
  pub dispatched : List (Log × ℕ)
  pub succeeded : Bool
  pub checkpoint : Option ℕ

abbrev pub bucket_of : {Log : Type 0} → Option (List Log) → List Log
bucket_of none = []
bucket_of (some logs) = logs

module _ {Log : Type 0} (address : Log → Bytes) (block_number : Log → ℕ) where
  -- The loop that looks up the times of blocks; `none` is a header that cannot be read.
  unfoldable pub resolve_times : (ℕ → Option ℕ) → List Log → GoMap ℕ ℕ → Option (GoMap ℕ ℕ)
  unfolding lookup insert
  resolve_times header_time [] block_times = some block_times
  resolve_times header_time (l ∷ logs) block_times =
      let b = block_number l in
      elim (lookup b block_times) [
        | some t ↦ resolve_times header_time logs block_times
        | none ↦ elim (header_time b) [
          | none ↦ none
          | some t ↦ resolve_times header_time logs (insert b t block_times)
        ]
      ]

  -- blockTimes[l.BlockNumber], which is 0 where there is no entry.
  abbrev pub time_at : GoMap ℕ ℕ → Log → ℕ
  time_at block_times l = elim (lookup (block_number l) block_times) [ none ↦ 0 | some t ↦ t ]

  abbrev pub add_to_bucket : Log → GoMap Bytes (List Log) → GoMap Bytes (List Log)
  add_to_bucket l buckets =
      insert (address l) (bucket_of (lookup (address l) buckets) ++ l ∷ []) buckets

  -- The loop that groups the logs.
  unfoldable pub buckets_of : List Log → GoMap Bytes (List Log) → GoMap Bytes (List Log)
  unfolding lookup insert
  buckets_of [] buckets = buckets
  buckets_of (l ∷ logs) buckets = buckets_of logs (add_to_bucket l buckets)

  -- After a dispatch: an error that is not of a malformed log is stored, and the worker returns. (Each
  -- such error of these handlers is made by fmt.Errorf with one %w, so that dispatchErr, an
  -- atomic.Value, is never given two types.)
  abbrev pub after_dispatch : GoMap ℕ ℕ → Bytes → List Log → Outcome → Workers Log → Workers Log
  after_dispatch block_times a [] o w = w
  after_dispatch block_times a (l ∷ logs) o w = record {
    buckets = insert a (if is_retriable o then [] else logs) w.buckets;
    dispatched = w.dispatched ++ (l, time_at block_times l) ∷ [];
    failed = w.failed || is_retriable o;
  }

  unfoldable pub worker_step : GoMap ℕ ℕ → WorkerStep → Workers Log → Workers Log
  unfolding lookup insert
  worker_step block_times (dispatches a o) w =
      after_dispatch block_times a (bucket_of (lookup a w.buckets)) o w
  worker_step block_times (returns a) w =
      if w.failed then record w { buckets = insert a [] w.buckets } else w

  unfoldable pub run_workers : GoMap ℕ ℕ → List WorkerStep → Workers Log → Workers Log
  unfolding worker_step
  run_workers block_times [] w = w
  run_workers block_times (e ∷ steps) w =
      run_workers block_times steps (worker_step block_times e w)

  abbrev pub start_workers : List Log → Workers Log
  start_workers logs = record { buckets = buckets_of logs []; dispatched = []; failed = false }

  abbrev pub failed_scan : TransferResult Log
  failed_scan = record { dispatched = []; succeeded = false; checkpoint = none }

  abbrev pub checkpoint_of : TransferAnswers Log → ℕ → Option ℕ
  checkpoint_of ans to = if ans.saves then some to else none

  -- After wg.Wait.
  abbrev pub after_wait : TransferAnswers Log → ℕ → Workers Log → TransferResult Log
  after_wait ans to w =
      if w.failed
      then record { dispatched = w.dispatched; succeeded = false; checkpoint = none }
      else record { dispatched = w.dispatched; succeeded = true; checkpoint = checkpoint_of ans to }

  -- With the logs and the times of their blocks. Without a log there is no worker.
  abbrev pub scan_logs :
      TransferAnswers Log → ℕ → List Log → Option (GoMap ℕ ℕ) → TransferResult Log
  scan_logs ans to logs none = failed_scan
  scan_logs ans to logs (some block_times) =
      after_wait ans to (run_workers block_times ans.schedule (start_workers logs))

  abbrev pub scan_found :
      TransferAnswers Log → ℕ → GoMap ℕ ℕ → Option (List Log) → TransferResult Log
  scan_found ans to block_times none = failed_scan
  scan_found ans to block_times (some logs) =
      scan_logs ans to logs (resolve_times ans.header_time logs block_times)

  abbrev pub scan_tracked :
      TransferAnswers Log → ℕ → GoMap ℕ ℕ → Option (List Bytes) → TransferResult Log
  scan_tracked ans to block_times none = failed_scan
  scan_tracked ans to block_times (some []) = record {
    dispatched = [];
    succeeded = true;
    checkpoint = none;
  }
  scan_tracked ans to block_times (some (a ∷ addrs)) =
      scan_found ans to block_times ans.transfer_logs

  unfoldable pub process_transfers : TransferAnswers Log → ℕ → GoMap ℕ ℕ → TransferResult Log
  unfolding resolve_times buckets_of run_workers
  process_transfers ans to block_times = scan_tracked ans to block_times ans.tracked
