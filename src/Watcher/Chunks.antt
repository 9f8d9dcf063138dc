-- ===== src/Watcher/Chunks.antt =====
-- backfill of backend/internal/indexer/runner.go: the blocks of a range, in chunks.
use native.Mathlib.Decide.{dec_lt}
use magic_webb.Base.{
  ℕ, zero, suc, ◌+◌, ◌≤◌, ◌<◌, ◌≡◌, ◌≢◌, ◌⊎◌, inl, inr, true, not, none, some, List, [], ◌∷◌, ◌++◌,
  All, All-append, arith, if◌then◌else◌, if_either, leb, nat_eqb,
}
use magic_webb.Watcher.{
  RangeAnswers, process_range, Backfill, or_else, chunk_end, backfill_from, backfill,
}

-- A block lies in one of the ranges.
abbrev pub InRanges : ℕ → List (ℕ × ℕ) → Type 0
InRanges b [] = ⊥
InRanges b ((lo, hi) ∷ ranges) = ((lo ≤ b) × (b ≤ hi)) ⊎ InRanges b ranges

InRanges-append :
    (b : ℕ) (xs ys : List (ℕ × ℕ)) → InRanges b xs ⊎ InRanges b ys → InRanges b (xs ++ ys)
InRanges-append b [] ys (inl h) = absurd h
InRanges-append b [] ys (inr h) = h
InRanges-append b (x ∷ xs) ys (inl (inl h)) = inl h
InRanges-append b (x ∷ xs) ys (inl (inr h)) = inr (InRanges-append b xs ys (inl h))
InRanges-append b (x ∷ xs) ys (inr h) = inr (InRanges-append b xs ys (inr h))

module _ {Log : Type 0} (block_number : Log → ℕ) (ans : ℕ → RangeAnswers Log)
    (first chunk to : ℕ) where
  -- A range inside [first..to], of at most `chunk` blocks, that was indexed.
  abbrev pub IsIndexed : ℕ × ℕ → Type 0
  IsIndexed (lo, hi) =
      (first ≤ lo)
      × (hi ≤ to)
      × (hi < lo + chunk)
      × ((process_range block_number (ans lo) hi).succeeded ≡ true)

  -- The blocks before `start` lie in the ranges.
  abbrev Reaches : ℕ → List (ℕ × ℕ) → Type 0
  Reaches start ranges = (b : ℕ) → first ≤ b → b < start → b ≤ to → InRanges b ranges

  abbrev Fine : Backfill → Type 0
  Fine r =
      (r.complete ≢ none)
      × All IsIndexed r.ranges
      × (r.complete ≡ some true → Reaches (to + 1) r.ranges)

  chunk_end-bounds :
      (start : ℕ)
      → 0 < chunk
      → start ≤ to
      → (chunk_end chunk start to ≤ to)
        × (chunk_end chunk start to < start + chunk)
        × (start ≤ chunk_end chunk start to)
  chunk_end-bounds start pos le = ground arith

  backfill_from-Fine :
      (fuel start : ℕ) (ranges : List (ℕ × ℕ)) (cursor : ℕ)
      → 0 < chunk
      → to + 2 ≤ start + fuel
      → 0 < fuel
      → first ≤ start
      → All IsIndexed ranges
      → Reaches start ranges
      → Fine (backfill_from block_number ans chunk to fuel start ranges cursor)
  unfolding backfill_from
  backfill_from-Fine zero start ranges cursor pos enough some_fuel le all reach =
      absurd (omega arith)
  backfill_from-Fine (suc fuel) start ranges cursor pos enough some_fuel le all reach =
      let end = chunk_end chunk start to in
      let result = process_range block_number (ans start) end in
      if_either Fine (not (leb start to))
        (λ past. (λ e. grind arith, all, λ e b lo hi top. reach b lo (ground arith) top))
        (λ inside.
          let (below, short, some_block) = chunk_end-bounds start pos (ground arith) in
          if_either Fine (not result.succeeded)
            (λ bad. (λ e. grind arith, all, λ e. absurd (grind arith)))
            (λ good.
              let next = all-next start end ranges all (le, below, short, ground arith) in
              if_either Fine (not (ans start).alive)
                (λ dead. (λ e. grind arith, next, λ e. absurd (grind arith)))
                (λ live.
                  backfill_from-Fine fuel (start + chunk) (ranges ++ (start, end) ∷ [])
                    (or_else result.cursor cursor) pos (omega arith) (ground arith) (omega arith)
                    next
                    (λ b lo hi top.
                      InRanges-append b ranges ((start, end) ∷ [])
                        (reach-next start ranges reach b lo hi top)))))
    where
      all-next :
          (start end : ℕ) (ranges : List (ℕ × ℕ))
          → All IsIndexed ranges
          → IsIndexed (start, end)
          → All IsIndexed (ranges ++ (start, end) ∷ [])
      all-next start end ranges all this =
          All-append IsIndexed ranges ((start, end) ∷ []) all (this, tt)

      reach-next :
          (start : ℕ) (ranges : List (ℕ × ℕ))
          → Reaches start ranges
          → (b : ℕ) → first ≤ b
          → b < start + chunk
          → b ≤ to
          → InRanges b ranges ⊎ InRanges b ((start, chunk_end chunk start to) ∷ [])
      reach-next start ranges reach b lo hi top = elim (dec_lt b start) [
        | yes lt ↦ inl (reach b lo lt top)
        | no ge ↦ inr (inl (omega arith, ground arith))
      ]

-- A backfill of the blocks from `start` to `to` ends; each range that it indexed lies inside, has
-- at most the configured number of blocks (30 where none is configured) and succeeded; and where it
-- reports success, every block is in a range that it indexed.
pub backfill-covers :
    {Log : Type 0} (block_number : Log → ℕ) (ans : ℕ → RangeAnswers Log) (chunk start to cursor : ℕ)
    → let r = backfill block_number ans chunk start to cursor in
      (r.complete ≢ none)
      × All (IsIndexed block_number ans start (if nat_eqb chunk 0 then 30 else chunk) to) r.ranges
      × (r.complete ≡ some true → (b : ℕ) → start ≤ b → b ≤ to → InRanges b r.ranges)
unfolding backfill
backfill-covers block_number ans chunk start to cursor =
    let n = if nat_eqb chunk 0 then 30 else chunk in
    let (ends, all, reach) =
      backfill_from-Fine block_number ans start n to (to + 2) start [] cursor (ground arith)
        (omega arith) (omega arith) (omega arith) tt (λ b lo hi top. absurd (omega arith)) in
    (ends, all, λ e b lo top. reach e b lo (omega arith) top)
