-- ===== src/Watcher/Ticks.antt =====
-- The ticks of runWatcher, in backend/internal/indexer/runner.go: the head, the check of chain
-- continuity, the rewind and the backfill of the new blocks. `safety` is reorg_safety's depth,
-- which is never 0, so that the head is at least headLag where it is taken from.
use magic_webb.Base.{
  ℕ, ◌+◌, ◌-◌, ◌*◌, ◌%◌, Bool, true, false, not, ◌&&◌, Option, none, some, List, [], ◌∷◌, nat_eqb,
  ltb, leb, if◌then◌else◌,
}
use magic_webb.Watcher.{RangeAnswers, Backfill, backfill}

abbrev pub head_lag : ℕ
head_lag = 2

abbrev pub reorg_safety_blocks : ℕ
reorg_safety_blocks = 12

-- reorgSafety: the profile's depth where it is set.
unfoldable pub reorg_safety : Option ℕ → ℕ
reorg_safety none = reorg_safety_blocks
reorg_safety (some n) = if ltb 0 n then n else reorg_safety_blocks

pub record Header : Type 0 where
  pub parent_hash : ℕ
  pub time : ℕ

-- What a tick meets: BlockNumber, the parent hash of the header at lastBlock, the ranges'
-- answers, the header at the target, and whether the rewound cursor is persisted.
pub record TickAnswers (Log : Type 0) : Type 0 where
  pub head : Option ℕ
  pub lineage : Option ℕ
  pub ranges : ℕ → RangeAnswers Log
  pub target_header : Option Header
  pub persists_rewind : Bool

-- The loop's variables, the persisted cursor and the two gauges. A hash is a number, 0 the zero
-- hash. `server_time_ms` is a uint64 product.
pub record Watcher : Type 0 where
  pub last_block : ℕ
  pub last_block_parent : ℕ
  pub backfilled : Bool
  pub cursor : ℕ
  pub server_time_ms : ℕ
  pub head_lag_blocks : ℕ

-- The ranges indexed and the rewinds, latest first.
pub data Mark : Type 0 where
  ranged : ℕ → ℕ → Mark
  rewound : ℕ → Mark

abbrev pub differs_from : ℕ → Option ℕ → Bool
differs_from expected none = false
differs_from expected (some actual) = not (nat_eqb actual expected)

-- The check of chain continuity: a reorg replaced the block at the cursor.
unfoldable pub reorg_seen : Option ℕ → Watcher → Bool
reorg_seen lineage w =
    (ltb 0 w.last_block && not (nat_eqb w.last_block_parent 0))
    && differs_from w.last_block_parent lineage

unfoldable pub rewind : ℕ → Bool → Watcher → Watcher
rewind safety persists w =
    let to = if ltb safety w.last_block then w.last_block - safety else 0 in
    record w { last_block = to; last_block_parent = 0; cursor = if persists then to else w.cursor }

unfoldable pub rewind_marked : ℕ → Bool → Watcher × List Mark → Watcher × List Mark
unfolding rewind
rewind_marked safety persists (w, marks) =
    let w1 = rewind safety persists w in (w1, rewound w1.last_block ∷ marks)

abbrev pub millis : ℕ → ℕ
millis t = t * 1000 % 18446744073709551616

abbrev pub set_server_time : Option Header → Watcher → Watcher
set_server_time none w = w
set_server_time (some h) w = record w { server_time_ms = millis h.time }

abbrev pub set_lineage : Option Header → Watcher → Watcher
set_lineage none w = record w { last_block_parent = 0 }
set_lineage (some h) w = record w {
  last_block_parent = h.parent_hash;
  server_time_ms = millis h.time;
}

-- The ranges of a backfill, onto the marks.
abbrev pub mark_ranges : List (ℕ × ℕ) → List Mark → List Mark
mark_ranges [] marks = marks
mark_ranges ((lo, hi) ∷ ranges) marks = mark_ranges ranges (ranged lo hi ∷ marks)

-- Where runWatcher begins: the persisted cursor (0 where the read fails), the least checkpoint of
-- the collections (`none` where the read fails) and r.cfg.IndexFromBlock.
unfoldable pub start_block : ℕ → Option ℕ → ℕ → ℕ
start_block cursor checkpoint index_from =
    let low : ℕ = elim checkpoint [
      | none ↦ cursor
      | some c ↦ if ltb 0 c && ltb c cursor then c else cursor
    ] in
    if ltb low index_from then index_from else low

module _ {Log : Type 0} (block_number : Log → ℕ) where
  -- A tick that finds no new block.
  unfoldable pub idle_tick : ℕ → TickAnswers Log → ℕ → Watcher × List Mark → Watcher × List Mark
  unfolding reorg_seen rewind_marked
  idle_tick safety ans head s =
      let (w1, marks) =
        if reorg_seen ans.lineage s.0 then rewind_marked safety ans.persists_rewind s else s in
      let w2 = set_server_time ans.target_header w1 in
      (
        record w2 {
          head_lag_blocks =
              if ltb w2.last_block head then head - w2.last_block else w2.head_lag_blocks;
        },
        marks,
      )

  abbrev pub completed :
      TickAnswers Log → ℕ → ℕ → Option Bool → Watcher × List Mark → Watcher × List Mark
  completed ans head target none s = s
  completed ans head target (some false) s = s
  completed ans head target (some true) (w, marks) =
      let w1 = set_lineage ans.target_header w in
      (record w1 { last_block = target; backfilled = true; head_lag_blocks = head - target }, marks)

  -- The end of a tick, on what its backfill did.
  unfoldable pub after_backfill :
      TickAnswers Log → ℕ → ℕ → Backfill → Watcher × List Mark → Watcher × List Mark
  after_backfill ans head target done (w, marks) =
      completed ans head target done.complete
        (record w { cursor = done.cursor }, mark_ranges done.ranges marks)

  unfoldable pub advance_tick :
      ℕ → ℕ → TickAnswers Log → ℕ → ℕ → Watcher × List Mark → Watcher × List Mark
  unfolding reorg_seen rewind_marked backfill after_backfill
  advance_tick safety chunk ans head target s =
      let done = backfill block_number ans.ranges chunk (s.0.last_block + 1) target s.0.cursor in
      if reorg_seen ans.lineage s.0
      then rewind_marked safety ans.persists_rewind s
      else after_backfill ans head target done s

  abbrev pub on_head :
      ℕ → ℕ → TickAnswers Log → Option ℕ → Watcher × List Mark → Watcher × List Mark
  on_head safety chunk ans none s = s
  on_head safety chunk ans (some head) s =
      if leb head safety
      then s
      else if leb (head - head_lag) s.0.last_block
      then idle_tick safety ans head s
      else advance_tick safety chunk ans head (head - head_lag) s

  -- A tick of runWatcher.
  unfoldable pub tick : ℕ → ℕ → TickAnswers Log → Watcher × List Mark → Watcher × List Mark
  unfolding idle_tick advance_tick
  tick safety chunk ans s = on_head safety chunk ans ans.head s
