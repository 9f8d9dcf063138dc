-- ===== src/Watcher/Coverage.antt =====
-- The cursor of runWatcher, in backend/internal/indexer/runner.go, never passes a block that was
-- not indexed.
use native.Mathlib.Decide.{dec_le}
use magic_webb.Base.{
  ℕ, ◌+◌, ◌-◌, ◌≤◌, ◌<◌, ◌≡◌, refl, subst, ◌⊎◌, inl, inr, Bool, true, false, Option, none, some,
  List, [], ◌∷◌, arith, if◌then◌else◌, if_either, leb,
}
use magic_webb.Watcher.{Backfill, backfill}
use magic_webb.Watcher.Ticks.{
  head_lag, Header, TickAnswers, Watcher, Mark, ranged, rewound, reorg_seen, rewind, rewind_marked,
  completed, set_server_time, mark_ranges, idle_tick, after_backfill, advance_tick, on_head, tick,
}
use magic_webb.Watcher.Chunks.{InRanges, backfill-covers}

-- A block was indexed, and since then the cursor was not rewound below it.
abbrev pub IsCovered : ℕ → List Mark → Type 0
IsCovered b [] = ⊥
IsCovered b (ranged lo hi ∷ marks) = ((lo ≤ b) × (b ≤ hi)) ⊎ IsCovered b marks
IsCovered b (rewound r ∷ marks) = (b ≤ r) × IsCovered b marks

-- From the block `first` on, the cursor of the loop stands behind covered blocks alone.
abbrev pub NoGap : ℕ → Watcher × List Mark → Type 0
NoGap first (w, marks) = (b : ℕ) → first < b → b ≤ w.last_block → IsCovered b marks

IsCovered-mark_ranges :
    (b : ℕ) (ranges : List (ℕ × ℕ)) (marks : List Mark)
    → IsCovered b marks
    → IsCovered b (mark_ranges ranges marks)
IsCovered-mark_ranges b [] marks h = h
IsCovered-mark_ranges b ((lo, hi) ∷ ranges) marks h =
    IsCovered-mark_ranges b ranges (ranged lo hi ∷ marks) (inr h)

InRanges-IsCovered :
    (b : ℕ) (ranges : List (ℕ × ℕ)) (marks : List Mark)
    → InRanges b ranges
    → IsCovered b (mark_ranges ranges marks)
InRanges-IsCovered b [] marks h = absurd h
InRanges-IsCovered b ((lo, hi) ∷ ranges) marks (inl h) =
    IsCovered-mark_ranges b ranges (ranged lo hi ∷ marks) (inl h)
InRanges-IsCovered b ((lo, hi) ∷ ranges) marks (inr h) =
    InRanges-IsCovered b ranges (ranged lo hi ∷ marks) h

rewind-last_block :
    (safety : ℕ) (persists : Bool) (w : Watcher)
    → (rewind safety persists w).last_block ≤ w.last_block
unfolding rewind
rewind-last_block safety persists w = ground arith

rewind_marked-NoGap :
    (first safety : ℕ) (persists : Bool) (s : Watcher × List Mark)
    → NoGap first s
    → NoGap first (rewind_marked safety persists s)
unfolding rewind_marked
rewind_marked-NoGap first safety persists (w, marks) h b lo hi =
    let lower = rewind-last_block safety persists w in (hi, h b lo (omega arith))

set_server_time-last_block :
    (o : Option Header) (w : Watcher) → (set_server_time o w).last_block ≡ w.last_block
set_server_time-last_block none w = refl
set_server_time-last_block (some h) w = refl

module _ {Log : Type 0} (block_number : Log → ℕ) (safety chunk first : ℕ) where
  idle_tick-NoGap :
      (ans : TickAnswers Log) (head : ℕ) (s : Watcher × List Mark)
      → NoGap first s
      → NoGap first (idle_tick block_number safety ans head s)
  unfolding idle_tick
  idle_tick-NoGap ans head s h b lo hi =
      let checked =
        if_either (NoGap first) (reorg_seen ans.lineage s.0)
          (λ seen. rewind_marked-NoGap first safety ans.persists_rewind s h) (λ unseen. h) in
      let s' =
        if reorg_seen ans.lineage s.0 then rewind_marked safety ans.persists_rewind s else s in
      checked b lo (subst (λ n. b ≤ n) (set_server_time-last_block ans.target_header s'.0) hi)

  completed-NoGap :
      (ans : TickAnswers Log) (head target : ℕ) (done : Option Bool) (s : Watcher × List Mark)
      → NoGap first s
      → (done ≡ some true → (b : ℕ) → s.0.last_block + 1 ≤ b → b ≤ target → IsCovered b s.1)
      → NoGap first (completed block_number ans head target done s)
  completed-NoGap ans head target none s h reach b lo hi = h b lo hi
  completed-NoGap ans head target (some false) s h reach b lo hi = h b lo hi
  completed-NoGap ans head target (some true) (w, marks) h reach b lo hi =
      elim (dec_le b w.last_block) [ yes old ↦ h b lo old | no new ↦ reach refl b (omega arith) hi ]

  after_backfill-NoGap :
      (ans : TickAnswers Log) (head target : ℕ) (done : Backfill) (s : Watcher × List Mark)
      → NoGap first s
      → (done.complete ≡ some true
          → (b : ℕ) → s.0.last_block + 1 ≤ b
          → b ≤ target
          → InRanges b done.ranges)
      → NoGap first (after_backfill block_number ans head target done s)
  unfolding after_backfill
  after_backfill-NoGap ans head target done (w, marks) h reach =
      completed-NoGap ans head target done.complete
        (record w { cursor = done.cursor }, mark_ranges done.ranges marks)
        (λ b lo hi. IsCovered-mark_ranges b done.ranges marks (h b lo hi))
        (λ e b lo hi. InRanges-IsCovered b done.ranges marks (reach e b lo hi))

  advance_tick-NoGap :
      (ans : TickAnswers Log) (head target : ℕ) (s : Watcher × List Mark)
      → NoGap first s
      → NoGap first (advance_tick block_number safety chunk ans head target s)
  unfolding advance_tick
  advance_tick-NoGap ans head target s h =
      let done = backfill block_number ans.ranges chunk (s.0.last_block + 1) target s.0.cursor in
      let (ends, all, reach) =
        backfill-covers block_number ans.ranges chunk (s.0.last_block + 1) target s.0.cursor in
      if_either (NoGap first) (reorg_seen ans.lineage s.0)
        (λ seen. rewind_marked-NoGap first safety ans.persists_rewind s h)
        (λ unseen. after_backfill-NoGap ans head target done s h reach)

  on_head-NoGap :
      (ans : TickAnswers Log) (head : Option ℕ) (s : Watcher × List Mark)
      → NoGap first s
      → NoGap first (on_head block_number safety chunk ans head s)
  on_head-NoGap ans none s h = h
  on_head-NoGap ans (some head) s h =
      if_either (NoGap first) (leb head safety) (λ low. h)
        (λ high.
          if_either (NoGap first) (leb (head - head_lag) s.0.last_block)
            (λ idle. idle_tick-NoGap ans head s h)
            (λ new. advance_tick-NoGap ans head (head - head_lag) s h))

  abbrev pub run_ticks : List (TickAnswers Log) → Watcher × List Mark → Watcher × List Mark
  run_ticks [] s = s
  run_ticks (ans ∷ answers) s = run_ticks answers (tick block_number safety chunk ans s)

  -- Whatever the chain, the database and the handlers answer at each tick, and from any state of
  -- which it holds: every block after `first`, up to the cursor, lies in a range that was
  -- indexed after the cursor was last rewound below the block. So a failed range leaves no gap, nor does a rewind.
  pub run_ticks-NoGap :
      (answers : List (TickAnswers Log)) (s : Watcher × List Mark)
      → NoGap first s
      → NoGap first (run_ticks answers s)
  unfolding tick
  run_ticks-NoGap [] s h = h
  run_ticks-NoGap (ans ∷ answers) s h =
      run_ticks-NoGap answers (tick block_number safety chunk ans s)
        (on_head-NoGap ans ans.head s h)
