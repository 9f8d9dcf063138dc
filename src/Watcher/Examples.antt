-- ===== src/Watcher/Examples.antt =====
-- Runs of the watcher.
use magic_webb.Base.{
  ℕ, ◌+◌, ◌≤◌, ◌≡◌, ◌≢◌, refl, true, false, none, some, [], ◌∷◌, arith, map, All, if◌then◌else◌,
  nat_eqb, lookup, insert, Bytes, bytes, bytes_eq, bytes_eqb, Bool-cases, keep, List, GoMap, inl,
  inr, false,
}
use magic_webb.Watcher.{
  Outcome, applied, malformed, RangeAnswers, dispatch_logs, process_range, backfill,
}
use magic_webb.Watcher.Ticks.{TickAnswers, Watcher}
use magic_webb.Watcher.Dispatch.{IsHandled, process_range-handles}
use magic_webb.Watcher.Chunks.{InRanges, IsIndexed, backfill-covers}
use magic_webb.Watcher.Transfers.{
  WorkerStep, dispatches, TransferAnswers, checkpoint_of, resolve_times, process_transfers,
  run_workers, buckets_of,
}
use magic_webb.Watcher.Buckets.{is_from}
use magic_webb.Watcher.Times.{dated}
use magic_webb.Watcher.Scanning.{IsHarmless, AllDone, final_workers, process_transfers-dispatches}
use magic_webb.Watcher.Coverage.{NoGap, run_ticks, run_ticks-NoGap}

-- A log is the number of its block; the second one's structure is malformed.
abbrev block_of : ℕ → ℕ
block_of l = l

abbrev outcome : ℕ → ℕ → Outcome
outcome l t = if nat_eqb l 6 then malformed else applied

abbrev answers : ℕ → RangeAnswers ℕ
answers start = record {
  filter_logs = some (start ∷ (start + 1) ∷ []);
  header_time = λ b. some (b + 1000);
  handle = outcome;
  transfers = true;
  persists = true;
  alive = true;
}

range_succeeds : (process_range block_of (answers 5) 34).succeeded ≡ true
unfolding process_range dispatch_logs lookup insert
range_succeeds = refl

process_range-handles_example :
    let result = process_range block_of (answers 5) 34 in
    (result.succeeded ≡ true
      → ((answers 5).filter_logs ≡ some (map (λ p. p.0) result.handled))
        × All (IsHandled block_of (answers 5)) result.handled
        × ((answers 5).transfers ≡ true))
    × (result.succeeded ≡ false → result.cursor ≡ none)
process_range-handles_example = process_range-handles block_of (answers 5) 34

backfill-covers_example :
    let r = backfill block_of answers 0 5 40 4 in
    (r.complete ≢ none)
    × All (IsIndexed block_of answers 5 (if nat_eqb 0 0 then 30 else 0) 40) r.ranges
    × (r.complete ≡ some true → (b : ℕ) → 5 ≤ b → b ≤ 40 → InRanges b r.ranges)
backfill-covers_example = backfill-covers block_of answers 0 5 40 4

abbrev first_tick : TickAnswers ℕ
first_tick = record {
  head = some 42;
  lineage = some 7;
  ranges = answers;
  target_header = some (record { parent_hash = 9; time = 1040 });
  persists_rewind = true;
}

-- The next tick finds another parent at the cursor.
abbrev reorg_tick : TickAnswers ℕ
reorg_tick = record first_tick { head = some 44; lineage = some 11 }

abbrev started : Watcher
started = record {
  last_block = 4;
  last_block_parent = 7;
  backfilled = false;
  cursor = 4;
  server_time_ms = 0;
  head_lag_blocks = 0;
}

run_ticks-NoGap_example :
    NoGap 4 (run_ticks block_of 3 30 4 (first_tick ∷ reorg_tick ∷ []) (started, []))
run_ticks-NoGap_example =
    run_ticks-NoGap block_of 3 30 4 (first_tick ∷ reorg_tick ∷ []) (started, [])
      (λ b lo hi. absurd (omega arith))

-- Two collections, whose workers take turns; the first log of the second is malformed.
abbrev address_of : Bytes × ℕ → Bytes
address_of l = l.0

abbrev block_of_transfer : Bytes × ℕ → ℕ
block_of_transfer l = l.1

abbrev transfers : List (Bytes × ℕ)
transfers = (bytes "c1", 5) ∷ (bytes "c2", 5) ∷ (bytes "c1", 6) ∷ []

abbrev turns : List WorkerStep
turns =
    dispatches (bytes "c2") malformed
    ∷ dispatches (bytes "c1") applied
    ∷ dispatches (bytes "c1") applied
    ∷ []

abbrev scan : TransferAnswers (Bytes × ℕ)
scan = record {
  tracked = some (bytes "c1" ∷ bytes "c2" ∷ []);
  transfer_logs = some transfers;
  header_time = λ b. some (b + 1000);
  schedule = turns;
  saves = true;
}

abbrev times : GoMap ℕ ℕ
times = (5, 1005) ∷ (6, 1006) ∷ []

all_return :
    AllDone address_of block_of_transfer
      (final_workers address_of block_of_transfer scan times transfers)
unfolding lookup bytes_eqb run_workers buckets_of insert
all_return a = elim (Bool-cases (bytes_eqb (bytes "c1") a)) [
  | inl t ↦ rw t
  | inr f ↦ elim (Bool-cases (bytes_eqb (bytes "c2") a)) [ inl t ↦ rw (f, t) | inr g ↦ rw (f, g) ]
]

process_transfers-dispatches_example :
    let result = process_transfers address_of block_of_transfer scan 34 [] in
    (All (IsHarmless address_of block_of_transfer) turns → result.succeeded ≡ true)
    × (result.succeeded ≡ false → result.checkpoint ≡ none)
    × (result.succeeded ≡ true
        → (result.checkpoint ≡ checkpoint_of address_of block_of_transfer scan 34)
          × ((b : Bytes)
              → keep (λ p. is_from address_of block_of_transfer b p.0) result.dispatched
                ≡ dated address_of block_of_transfer scan.header_time []
                    (keep (is_from address_of block_of_transfer b) transfers)))
unfolding resolve_times lookup insert
process_transfers-dispatches_example =
    process_transfers-dispatches address_of block_of_transfer scan 34 [] times (bytes "c1")
      (bytes "c2" ∷ []) transfers refl refl refl all_return
