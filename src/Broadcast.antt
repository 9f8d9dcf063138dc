-- ===== src/Broadcast.antt =====
-- The event broadcaster: backend/internal/sse/broadcaster.go, with the receiving side of its
-- bridge to peer instances (StreamEvents of grpc_bridge.go). A channel is the list of what it
-- buffers, oldest first. `size` is RingBufferSize, `D` the type of an event's data.
use magic_webb.Base.{
  ℕ, zero, suc, ◌+◌, ◌%◌, Bool, true, false, Option, none, some, List, [], ◌∷◌, ◌++◌, Bytes, nat_eq,
  GoMap, bytes_eqb, ltb, leb, if◌then◌else◌, lookup, insert, delete, length, get_elem?, set,
}
pub mod Ring
pub mod Replay
pub mod Schedule
pub mod Order
pub mod Delivery
pub mod Publishers
pub mod Disorder
mod Examples

pub record RetryEvent (D : Type 0) : Type 0 where
  pub seq : ℕ
  pub type : Bytes
  pub payload : D

pub record Event (D : Type 0) : Type 0 where
  pub type : Bytes
  pub payload : D
  pub seq : ℕ

pub record RawClient (D : Type 0) : Type 0 where
  pub ch : List (Event D)
  pub dropped : ℕ

-- `outbox` is what was handed to grpcBridge.Send, `none` where there is no bridge. The three
-- counters are the package's.
pub record Broadcaster (D : Type 0) : Type 0 where
  pub events : List (Event D)
  pub outbox : Option (List (Event D))
  pub seq : ℕ
  pub ring_buf : List (RetryEvent D)
  pub ring_pos : ℕ
  pub ring_count : ℕ
  pub raw_clients : GoMap ℕ (RawClient D)
  pub dropped_total : ℕ
  pub saturation_streak : ℕ
  pub dropped_clients_total : ℕ

abbrev pub ring_buffer_size : ℕ
ring_buffer_size = 1024

abbrev pub events_cap : ℕ
events_cap = 256

abbrev pub client_cap : ℕ
client_cap = 64

abbrev pub max_clients : ℕ
max_clients = 10000

-- uint64 counters wrap.
abbrev pub uint64_mod : ℕ
uint64_mod = 18446744073709551616

abbrev pub replicate {ℓ} : {A : Type ℓ} → ℕ → A → List A
replicate zero a = []
replicate (suc n) a = a ∷ replicate n a

unfoldable pub oldest_pos : ℕ → ℕ → ℕ → ℕ
oldest_pos size write_pos count = if ltb count size then 0 else write_pos

module _ {D : Type 0} where
  unfoldable pub new_no_loop : ℕ → D → Broadcaster D
  new_no_loop size nil = record {
    events = [];
    outbox = none;
    seq = 0;
    ring_buf = replicate size (record { seq = 0; type = []; payload = nil });
    ring_pos = 0;
    ring_count = 0;
    raw_clients = [];
    dropped_total = 0;
    saturation_streak = 0;
    dropped_clients_total = 0;
  }

  -- The second step of Publish, under ringMu.
  unfoldable pub ring_write : ℕ → RetryEvent D → Broadcaster D → Broadcaster D
  ring_write size ev b = record b {
    ring_buf = set b.ring_buf b.ring_pos ev;
    ring_pos = (b.ring_pos + 1) % size;
    ring_count = if ltb b.ring_count size then b.ring_count + 1 else b.ring_count;
  }

  abbrev pub send_to_bridge : Event D → Option (List (Event D)) → Option (List (Event D))
  send_to_bridge ev none = none
  send_to_bridge ev (some out) = some (out ++ ev ∷ [])

  -- The third step of Publish, its `select`: enqueue and bridge, or drop both.
  unfoldable pub enqueue : Event D → Broadcaster D → Broadcaster D
  enqueue ev b =
      if ltb (length b.events) events_cap
      then record b {
        events = b.events ++ ev ∷ [];
        outbox = send_to_bridge ev b.outbox;
        saturation_streak = 0;
      }
      else record b {
        dropped_total = b.dropped_total + 1;
        saturation_streak = b.saturation_streak + 1;
      }

  -- The first step of Publish, seq.Add(1): the number that it takes is the new one.
  abbrev pub take_number : Broadcaster D → Broadcaster D
  take_number b = record b { seq = (b.seq + 1) % uint64_mod }

  -- What is kept in the ring of an event.
  abbrev pub retry_of : Event D → RetryEvent D
  retry_of ev = record { seq = ev.seq; type = ev.type; payload = ev.payload }

  -- A call of Publish that no other one overlaps: its three steps, one after the other.
  unfoldable pub publish : ℕ → Bytes → D → Broadcaster D → Broadcaster D
  unfolding ring_write enqueue
  publish size type d b =
      let b' = take_number b in
      let ev : Event D = record { type = type; payload = d; seq = b'.seq } in
      enqueue ev (ring_write size (retry_of ev) b')

  -- StreamEvents: an event of another instance keeps that instance's number and enters the
  -- channel alone.
  unfoldable pub bridge_in : Bytes → Bytes → Event D → Broadcaster D → Broadcaster D
  bridge_in own origin ev b =
      if bytes_eqb origin own
      then b
      else if ltb (length b.events) events_cap
      then record b { events = b.events ++ ev ∷ [] }
      else b

  -- Replay's loop: `n` rounds are left, `i` is the counter. The slots read lie inside the ring.
  unfoldable pub replay_from : ℕ → Broadcaster D → ℕ → ℕ → ℕ → List (RetryEvent D)
  unfolding oldest_pos
  replay_from size b from zero i = []
  replay_from size b from (suc n) i =
      let rest = replay_from size b from n (i + 1) in
      elim (get_elem? b.ring_buf ((oldest_pos size b.ring_pos b.ring_count + i) % size)) [
        | none ↦ rest
        | some ev ↦ if leb from ev.seq then ev ∷ rest else rest
      ]

  abbrev pub oldest_seq : Option (RetryEvent D) → ℕ
  oldest_seq none = 0
  oldest_seq (some ev) = ev.seq

  -- `none` is the nil slice: evicted, the caller must refresh in full.
  unfoldable pub replay : ℕ → ℕ → Broadcaster D → Option (List (RetryEvent D))
  unfolding replay_from oldest_pos
  replay size from b =
      if leb b.ring_count 0
      then some []
      else if ltb from (oldest_seq (get_elem? b.ring_buf (oldest_pos size b.ring_pos b.ring_count)))
      then none
      else some (replay_from size b from b.ring_count 0)

  -- `id` is the new uuid.
  unfoldable pub subscribe_raw : ℕ → Broadcaster D → Broadcaster D × Bool
  subscribe_raw id b = if leb max_clients (length b.raw_clients) then (b, false) else (
    record b { raw_clients = insert id (record { ch = []; dropped = 0 }) b.raw_clients },
    true,
  )

  unfoldable pub cancel : ℕ → Broadcaster D → Broadcaster D
  cancel id b = record b { raw_clients = delete id b.raw_clients }

  unfoldable pub offer : Event D → RawClient D → RawClient D
  offer ev rc =
      if ltb (length rc.ch) client_cap
      then record rc { ch = rc.ch ++ ev ∷ [] }
      else record rc { dropped = rc.dropped + 1 }

  unfoldable pub fan_out : Event D → GoMap ℕ (RawClient D) → GoMap ℕ (RawClient D)
  unfolding offer
  fan_out ev [] = []
  fan_out ev ((id, rc) ∷ m) = (id, offer ev rc) ∷ fan_out ev m

  unfoldable pub full_clients : GoMap ℕ (RawClient D) → ℕ
  full_clients [] = 0
  full_clients ((id, rc) ∷ m) = (if ltb (length rc.ch) client_cap then 0 else 1) + full_clients m

  -- One round of loop: it waits while the channel is empty.
  pub loop_event : List (Event D) → Broadcaster D → Broadcaster D
  loop_event [] b = b
  loop_event (ev ∷ rest) b = record b {
    events = rest;
    raw_clients = fan_out ev b.raw_clients;
    dropped_clients_total = b.dropped_clients_total + full_clients b.raw_clients;
  }

  unfoldable pub loop_step : Broadcaster D → Broadcaster D
  unfolding loop_event fan_out full_clients
  loop_step b = loop_event b.events b
