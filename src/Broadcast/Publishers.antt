-- ===== src/Broadcast/Publishers.antt =====
-- Publishers whose calls of Publish, of backend/internal/sse/broadcaster.go, overlap. Taking the
-- number, the write to the ring and the send into the channel are steps of their own, as no lock
-- spans two of them.
use magic_webb.Base.{
  ℕ, zero, suc, ◌+◌, Bool, true, false, Option, none, some, List, [], ◌∷◌, ◌++◌, Bytes, nat_eq,
  ◌==◌, if◌then◌else◌,
}
use magic_webb.Broadcast.{
  Event, Broadcaster, take_number, retry_of, ring_write, enqueue, subscribe_raw, cancel, loop_step,
}
use magic_webb.Broadcast.Schedule.{receive, cons_some}
pub mod Counting
pub mod Once
pub mod Overlap
pub mod InTurn

-- A call of Publish that has its number, and whether it has written to the ring.
pub record Flight (D : Type 0) : Type 0 where
  pub event : Event D
  pub stored : Bool

-- The broadcaster, and the calls of Publish that run, in the order of their numbers.
pub record Publishing (D : Type 0) : Type 0 where
  pub shared : Broadcaster D
  pub in_flight : List (Flight D)

-- A call of Publish starts and takes its number; the call at a position writes to the ring; the call
-- at a position sends, and ends. The others are the steps of the fan-out and of the subscribers.
pub data Move (D : Type 0) : Type 0 where
  numbers : Bytes → D → Move D
  stores : ℕ → Move D
  sends : ℕ → Move D
  fans_out : Move D
  subscribes : ℕ → Move D
  cancels : ℕ → Move D
  receives : ℕ → Move D

module _ {D : Type 0} where
  abbrev pub flight_at : ℕ → List (Flight D) → Option (Flight D)
  flight_at i [] = none
  flight_at zero (f ∷ fs) = some f
  flight_at (suc i) (f ∷ fs) = flight_at i fs

  abbrev pub mark_stored : ℕ → List (Flight D) → List (Flight D)
  mark_stored i [] = []
  mark_stored zero (f ∷ fs) = record f { stored = true } ∷ fs
  mark_stored (suc i) (f ∷ fs) = f ∷ mark_stored i fs

  abbrev pub land : ℕ → List (Flight D) → List (Flight D)
  land i [] = []
  land zero (f ∷ fs) = fs
  land (suc i) (f ∷ fs) = f ∷ land i fs

  abbrev pub number : Bytes → D → Publishing D → Publishing D
  number type d s =
      let b = take_number s.shared in
      let ev : Event D = record { type = type; payload = d; seq = b.seq } in
      record { shared = b; in_flight = s.in_flight ++ record { event = ev; stored = false } ∷ [] }

  -- Once for each call.
  abbrev pub store_flight : ℕ → ℕ → Option (Flight D) → Publishing D → Publishing D
  store_flight size i none s = s
  store_flight size i (some f) s = if f.stored then s else record {
    shared = ring_write size (retry_of f.event) s.shared;
    in_flight = mark_stored i s.in_flight;
  }

  -- After the write to the ring.
  abbrev pub send_flight : ℕ → Option (Flight D) → Publishing D → Publishing D
  send_flight i none s = s
  send_flight i (some f) s =
      if f.stored
      then record { shared = enqueue f.event s.shared; in_flight = land i s.in_flight }
      else s

  unfoldable pub move : ℕ → Move D → Publishing D → Publishing D
  unfolding ring_write enqueue loop_step subscribe_raw cancel receive
  move size (numbers type d) s = number type d s
  move size (stores i) s = store_flight size i (flight_at i s.in_flight) s
  move size (sends i) s = send_flight i (flight_at i s.in_flight) s
  move size fans_out s = record s { shared = loop_step s.shared }
  move size (subscribes id) s = record s { shared = (subscribe_raw id s.shared).0 }
  move size (cancels id) s = record s { shared = cancel id s.shared }
  move size (receives id) s = record s { shared = (receive id s.shared).0 }

  unfoldable pub run : ℕ → List (Move D) → Publishing D → Publishing D
  unfolding move
  run size [] s = s
  run size (e ∷ moves) s = run size moves (move size e s)

  abbrev pub got : ℕ → Publishing D → Move D → Option (Event D)
  got id s (receives j) = if j == id then (receive j s.shared).1 else none
  got id s _ = none

  -- The events that subscriber `id` receives, in order.
  unfoldable pub deliveries : ℕ → ℕ → Publishing D → List (Move D) → List (Event D)
  unfolding move
  deliveries size id s [] = []
  deliveries size id s (e ∷ moves) =
      cons_some (got id s e) (deliveries size id (move size e s) moves)
