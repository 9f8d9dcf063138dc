-- ===== src/Broadcast/Examples.antt =====
-- Runs of the broadcaster.
use magic_webb.Base.{
  map, All, lookup, insert, ℕ, ◌+◌, ◌≤◌, ◌<◌, ◌≡◌, refl, none, List, [], ◌∷◌, arith, Bytes, bytes,
  length,
}
use magic_webb.Broadcast.{
  Event, Broadcaster, new_no_loop, publish, bridge_in, replay, oldest_pos, ring_write, enqueue,
  events_cap,
}
use magic_webb.Broadcast.Ring.{publish_all}
use magic_webb.Broadcast.Replay.{expected, replay-publish_all}
use magic_webb.Broadcast.Delivery.{RisesAbove}
use magic_webb.Broadcast.Disorder.{bridge_in-disorder}
use magic_webb.Broadcast.Publishers.{
  Publishing, Move, numbers, stores, sends, fans_out, subscribes, receives, run, deliveries,
}
use magic_webb.Broadcast.Publishers.Counting.{times}
use magic_webb.Broadcast.Publishers.InTurn.{InTurn, deliveries-rising}
use magic_webb.Broadcast.Publishers.Overlap.{overlap-disorder}

abbrev sale : Bytes
sale = bytes "sale"

abbrev three : List (Bytes × ℕ)
three = (sale, 7) ∷ (sale, 8) ∷ (sale, 9) ∷ []

-- A ring of two keeps the last two of three events, and a request for the first is refused.
evicted : replay 2 1 (publish_all 2 three (new_no_loop 2 0)) ≡ none
unfolding replay publish ring_write new_no_loop publish_all oldest_pos enqueue
evicted = refl

replay-publish_all_example : replay 2 2 (publish_all 2 three (new_no_loop 2 0)) ≡ expected 2 2 three
replay-publish_all_example = replay-publish_all 2 2 0 three (omega arith) (omega arith)

-- Two calls overlap: the second takes its number before the first writes to the ring, and the first
-- sends first.
abbrev session : List (Move ℕ)
session =
    subscribes 5
    ∷ numbers sale 7
    ∷ numbers sale 8
    ∷ stores 1
    ∷ stores 0
    ∷ sends 0
    ∷ fans_out
    ∷ sends 0
    ∷ fans_out
    ∷ receives 5
    ∷ receives 5
    ∷ []

abbrev idle : Publishing ℕ
idle = record { shared = new_no_loop 1024 0; in_flight = [] }

both_received : map (λ ev. ev.seq) (deliveries 1024 5 idle session) ≡ 1 ∷ 2 ∷ []
unfolding deliveries new_no_loop lookup insert
both_received = refl

deliveries-rising_example :
    (times 2 (deliveries 1024 5 idle session) ≤ 1)
    × (All InTurn session → RisesAbove 0 (deliveries 1024 5 idle session))
deliveries-rising_example = deliveries-rising 1024 2 5 0 session (omega arith)

overlap-disorder_example :
    ¬ RisesAbove 0
      (run 1024
        (numbers sale 7 ∷ numbers sale 8 ∷ stores 1 ∷ sends 1 ∷ stores 0 ∷ sends 0 ∷ [])
        idle).shared.events
unfolding new_no_loop
overlap-disorder_example =
    overlap-disorder 1024 0 sale sale 7 8 (new_no_loop 1024 0) (omega arith) (omega arith)

abbrev local_only : Broadcaster ℕ
local_only = new_no_loop 4 0

abbrev foreign : Event ℕ
foreign = record { type = sale; payload = 3; seq = 1 }

room_for_two : length local_only.events + 1 < events_cap
unfolding new_no_loop
room_for_two = omega arith

numbers_left : local_only.seq + 1 < 18446744073709551616
unfolding new_no_loop
numbers_left = omega arith

not_ahead : foreign.seq ≤ local_only.seq + 1
unfolding new_no_loop
not_ahead = omega arith

bridge_in-disorder_example :
    ¬ RisesAbove 0
      (bridge_in (bytes "fra") (bytes "iad") foreign (publish 4 sale 7 local_only)).events
bridge_in-disorder_example =
    bridge_in-disorder 4 0 (bytes "fra") (bytes "iad") sale 7 foreign local_only (λ e. grind arith)
      room_for_two numbers_left not_ahead
