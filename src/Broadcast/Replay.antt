-- ===== src/Broadcast/Replay.antt =====
-- Replay of backend/internal/sse/broadcaster.go against the log of all published events.
use native.Mathlib.Decide.{dec_lt}
use native.Mathlib.Nat.{add-zero, mod-add-mod, mod-lt, add-mod_right}
use magic_webb.Base.{
  ℕ, zero, suc, ◌+◌, ◌-◌, ◌%◌, ◌≤◌, ◌<◌, ◌≡◌, refl, true, Option, none, some, List, [], ◌∷◌, arith,
  Bytes, ltb, leb, if◌then◌else◌, length, get_elem?, drop, keep, drop_at, drop_all, lt→ltb,
}
use magic_webb.Broadcast.{
  RetryEvent, Broadcaster, uint64_mod, new_no_loop, oldest_pos, replay_from, replay, oldest_seq,
}
use magic_webb.Broadcast.Ring.{log_of, publish_all, Holds, new-Holds, publish_all-Holds}

-- What a client that asks for `from` gets after the publications `ps`: the events with the numbers from
-- `from` on, or nothing where `from` is below the oldest number kept.
abbrev pub expected : {D : Type 0} → ℕ → ℕ → List (Bytes × D) → Option (List (RetryEvent D))
expected size from [] = some []
expected size from (p ∷ ps) =
    if ltb from (length (p ∷ ps) - size + 1)
    then none
    else some (log_of (from - 1) (drop (from - 1) (p ∷ ps)))

length-log_of : {D : Type 0} (n : ℕ) (ps : List (Bytes × D)) → length (log_of n ps) ≡ length ps
length-log_of n [] = refl
length-log_of n (p ∷ ps) = omega (arith, length-log_of (n + 1) ps)

keep_all-log_of :
    {D : Type 0} (from n : ℕ) (ps : List (Bytes × D))
    → from ≤ n + 1
    → keep (λ ev. leb from ev.seq) (log_of n ps) ≡ log_of n ps
keep_all-log_of from n [] h = refl
keep_all-log_of from n (p ∷ ps) h = ground (arith, keep_all-log_of from (n + 1) ps)

-- From a suffix that starts at or before `from`, the test keeps what has the number `from` or more.
keep-drop-log_of :
    {D : Type 0} (from n j k : ℕ) (ps : List (Bytes × D))
    → n + k + 1 ≤ from
    → n + j + 1 ≡ from
    → keep (λ ev. leb from ev.seq) (drop k (log_of n ps)) ≡ log_of (n + j) (drop j ps)
keep-drop-log_of from n zero zero [] h e = refl
keep-drop-log_of from n zero (suc k) [] h e = refl
keep-drop-log_of from n (suc j) zero [] h e = refl
keep-drop-log_of from n (suc j) (suc k) [] h e = refl
keep-drop-log_of from n zero zero (p ∷ ps) h e =
    rw add-zero (keep_all-log_of from n (p ∷ ps) (omega arith))
keep-drop-log_of from n (suc j) zero (p ∷ ps) h e =
    let later : ltb (n + 1) from ≡ true = lt→ltb _ _ (omega arith) in
    ground (arith, later, keep-drop-log_of from (n + 1) j zero ps (omega arith) (omega arith))
keep-drop-log_of from n zero (suc k) (p ∷ ps) h e = absurd (omega arith)
keep-drop-log_of from n (suc j) (suc k) (p ∷ ps) h e =
    ground (arith, keep-drop-log_of from (n + 1) j k ps (omega arith) (omega arith))

module _ {D : Type 0} (size : ℕ) (some_room : 0 < size) where
  -- The slot that round `i` reads is that of entry `n - count + i` of the log.
  slot :
      (b : Broadcaster D) (log : List (RetryEvent D)) (i : ℕ)
      → Holds size log b
      → i < b.ring_count
      → (oldest_pos size b.ring_pos b.ring_count + i) % size
        ≡ (length log - b.ring_count + i) % size
  unfolding oldest_pos
  slot b log i k h = elim (dec_lt (length log) size) [
    | yes few ↦ ground (arith, k.count)
    | no wrapped ↦ ground (
      arith,
      k.count,
      k.pos,
      mod-add-mod (length log) size i,
      add-mod_right (length log - size + i) size,
    )
  ]

  replay_from-drop :
      (b : Broadcaster D) (log : List (RetryEvent D)) (from n i : ℕ)
      → Holds size log b
      → i + n ≡ b.ring_count
      → replay_from size b from n i
        ≡ keep (λ ev. leb from ev.seq) (drop (length log - b.ring_count + i) log)
  unfolding replay_from
  replay_from-drop b log from zero i k e =
      rw (drop_all log (length log - b.ring_count + i) (omega (arith, k.count))) refl
  replay_from-drop b log from (suc n) i k e =
      let at = length log - b.ring_count + i in
      let (x, here, rest) = drop_at log at (omega (arith, k.count)) in
      rw rest (
        ground (
          arith,
          slot b log i k (omega arith),
          k.slots at (omega (arith, k.count)) (omega (arith, k.count)),
          here,
          replay_from-drop b log from n (i + 1) k (omega arith),
        ))

  oldest_at :
      (b : Broadcaster D) (log : List (RetryEvent D))
      → Holds size log b
      → 0 < length log
      → get_elem? b.ring_buf (oldest_pos size b.ring_pos b.ring_count)
        ≡ get_elem? log (length log - size)
  unfolding oldest_pos
  oldest_at b log k h =
      let at = length log - size in
      ground (
        arith,
        k.slots at (omega arith) (omega arith),
        k.count,
        k.pos,
        add-mod_right at size,
        mod-lt at some_room,
      )

get_elem?-log_of :
    {D : Type 0} (n i : ℕ) (ps : List (Bytes × D))
    → i < length ps
    → oldest_seq (get_elem? (log_of n ps) i) ≡ n + i + 1
get_elem?-log_of n i [] h = elim h [ ]
get_elem?-log_of n zero (p ∷ ps) h = omega arith
get_elem?-log_of n (suc i) (p ∷ ps) h = omega (arith, get_elem?-log_of (n + 1) i ps (omega arith))

-- After any calls of Publish on a new broadcaster, fewer than 2^64 and no two of which overlap:
-- Replay returns exactly the events with the numbers from `from` on, in order and without a gap, or nil,
-- exactly where `from` is below the number of the oldest event kept: that event was evicted, or
-- `from` is 0, a number that no event has. The ring keeps the last `size` events.
pub replay-publish_all :
    {D : Type 0} (size from : ℕ) (nil : D) (ps : List (Bytes × D))
    → 0 < size
    → length ps < uint64_mod
    → replay size from (publish_all size ps (new_no_loop size nil)) ≡ expected size from ps
unfolding replay
replay-publish_all size from nil [] room h =
    let k =
      publish_all-Holds size room [] (new_no_loop size nil) [] (omega arith)
        (new-Holds size room nil) in
    ground (arith, k.count)
replay-publish_all size from nil (p ∷ ps) room h =
    let qs = p ∷ ps in
    let log = log_of 0 qs in
    let b = publish_all size qs (new_no_loop size nil) in
    let k =
      publish_all-Holds size room qs (new_no_loop size nil) [] (omega arith)
        (new-Holds size room nil) in
    let n = length-log_of 0 qs in
    ground (
      arith,
      k.count,
      n,
      oldest_at size room b log k (omega arith),
      get_elem?-log_of 0 (length log - size) qs (omega arith),
      replay_from-drop size room b log from b.ring_count 0 k (omega arith),
      keep-drop-log_of from 0 (from - 1) (length log - b.ring_count + 0) qs,
    )
