-- ===== src/Watcher.antt =====
-- The indexer's watcher: runWatcher, backfill and processRange of
-- backend/internal/indexer/runner.go. What the chain, the database, the log handlers and
-- processTransfers answer is an argument, in the record of a range and, for the ticks, in that of
-- a tick (Ticks).
use magic_webb.Base.{
  ℕ, zero, suc, ◌+◌, ◌-◌, ◌*◌, ◌%◌, Bool, true, false, not, ◌&&◌, ◌||◌, Option, none, some, List,
  [], ◌∷◌, ◌++◌, nat_eq, nat_eqb, GoMap, lookup, insert, ltb, leb, if◌then◌else◌,
}
pub mod Ticks
pub mod Dispatch
pub mod Chunks
pub mod Coverage
pub mod Transfers
pub mod Buckets
pub mod Times
pub mod Scanning
mod Examples

-- The result of a handler: an errMalformedLog is skipped, another error fails the range.
pub data Outcome : Type 0 where
  applied : Outcome
  malformed : Outcome
  retriable : Outcome

abbrev pub is_retriable : Outcome → Bool
is_retriable applied = false
is_retriable malformed = false
is_retriable retriable = true

-- What a range meets: FilterLogs (`none` is an error), the time of a block's header, the log
-- handlers, whether processTransfers succeeds, whether SetIndexedBlock does, and whether ctx is
-- alive after it.
pub record RangeAnswers (Log : Type 0) : Type 0 where
  pub filter_logs : Option (List Log)
  pub header_time : ℕ → Option ℕ
  pub handle : Log → ℕ → Outcome
  pub transfers : Bool
  pub persists : Bool
  pub alive : Bool

-- What the range left: the logs handled, with the time each was handled with, whether it
-- succeeded, and the cursor that it persisted.
pub record RangeResult (Log : Type 0) : Type 0 where
  pub handled : List (Log × ℕ)
  pub succeeded : Bool
  pub cursor : Option ℕ

-- What a backfill did: whether it succeeded, the ranges that did, oldest first, and the cursor
-- that is persisted after it. `none` is out of fuel.
pub record Backfill : Type 0 where
  pub complete : Option Bool
  pub ranges : List (ℕ × ℕ)
  pub cursor : ℕ

abbrev pub or_else : Option ℕ → ℕ → ℕ
or_else none n = n
or_else (some m) n = m

abbrev pub chunk_end : ℕ → ℕ → ℕ → ℕ
chunk_end chunk start to = let end = start + chunk - 1 in if ltb to end then to else end

module _ {Log : Type 0} (block_number : Log → ℕ) where
  -- A block's time: the one looked up before, or its header's.
  abbrev pub time_of : RangeAnswers Log → ℕ → Option ℕ → Option ℕ
  time_of ans b none = ans.header_time b
  time_of ans b (some t) = some t

  -- The loop over the logs: what was handled, and whether a handler failed; `none` where a header
  -- lookup aborts it.
  unfoldable pub dispatch_logs :
      RangeAnswers Log → List Log → GoMap ℕ ℕ → Bool → List (Log × ℕ) → List (Log × ℕ) × Option Bool
  unfolding lookup insert
  dispatch_logs ans [] block_times failed handled = (handled, some failed)
  dispatch_logs ans (l ∷ logs) block_times failed handled =
      let b = block_number l in
      elim (time_of ans b (lookup b block_times)) [
        | none ↦ (handled, none)
        | some t ↦
            dispatch_logs ans logs (insert b t block_times)
              (failed || is_retriable (ans.handle l t)) (handled ++ (l, t) ∷ [])
      ]

  abbrev pub finish_range : RangeAnswers Log → ℕ → List (Log × ℕ) × Option Bool → RangeResult Log
  finish_range ans to (handled, none) = record {
    handled = handled;
    succeeded = false;
    cursor = none;
  }
  finish_range ans to (handled, some failed) =
      if failed || not ans.transfers
      then record { handled = handled; succeeded = false; cursor = none }
      else record {
        handled = handled;
        succeeded = true;
        cursor = if ans.persists then some to else none;
      }

  abbrev pub range_of_logs : RangeAnswers Log → ℕ → Option (List Log) → RangeResult Log
  range_of_logs ans to none = record { handled = []; succeeded = false; cursor = none }
  range_of_logs ans to (some logs) = finish_range ans to (dispatch_logs ans logs [] false [])

  unfoldable pub process_range : RangeAnswers Log → ℕ → RangeResult Log
  unfolding dispatch_logs
  process_range ans to = range_of_logs ans to ans.filter_logs

  -- The loop of backfill; the answers are those of the range that begins at a block.
  unfoldable pub backfill_from :
      (ℕ → RangeAnswers Log) → ℕ → ℕ → ℕ → ℕ → List (ℕ × ℕ) → ℕ → Backfill
  unfolding process_range
  backfill_from ans chunk to zero start ranges cursor = record {
    complete = none;
    ranges = ranges;
    cursor = cursor;
  }
  backfill_from ans chunk to (suc fuel) start ranges cursor =
      let end = chunk_end chunk start to in
      let result = process_range (ans start) end in
      let cursor' = or_else result.cursor cursor in
      let ranges' = ranges ++ (start, end) ∷ [] in
      let rest = backfill_from ans chunk to fuel (start + chunk) ranges' cursor' in
      if not (leb start to)
      then record { complete = some true; ranges = ranges; cursor = cursor }
      else if not result.succeeded
      then record { complete = some false; ranges = ranges; cursor = cursor' }
      else if not (ans start).alive
      then record { complete = some false; ranges = ranges'; cursor = cursor' }
      else rest

  -- `chunk` is r.cfg.GetLogsChunk.
  unfoldable pub backfill : (ℕ → RangeAnswers Log) → ℕ → ℕ → ℕ → ℕ → Backfill
  unfolding backfill_from
  backfill ans chunk start to cursor =
      backfill_from ans (if nat_eqb chunk 0 then 30 else chunk) to (to + 2) start [] cursor
