-- ===== src/Broadcast/Publishers/Once.antt =====
-- However the calls of Publish, of backend/internal/sse/broadcaster.go, overlap: no event is received
-- twice.
use magic_webb.Base.{
  false, ℕ, ◌+◌, ◌%◌, ◌≤◌, ◌<◌, ◌≡◌, refl, Option, none, some, List, [], ◌∷◌, arith, Bytes, nat_eq,
  if◌then◌else◌, leb, lookup, length, Bool-cases, inl, inr,
}
use magic_webb.Broadcast.{
  Event, Broadcaster, uint64_mod, new_no_loop, ring_write, enqueue, subscribe_raw, cancel,
  loop_step,
}
use magic_webb.Broadcast.Schedule.{receive, cons_some}
use magic_webb.Broadcast.Delivery.{if_same, loop_event-seq, receive_at-seq}
use magic_webb.Broadcast.Publishers.{
  Flight, Publishing, Move, numbers, stores, sends, fans_out, subscribes, cancels, receives,
  flight_at, number, store_flight, send_flight, move, got, deliveries,
}
use magic_webb.Broadcast.Publishers.Counting.{
  times, times_some, flights, flights-append, flights-mark_stored, flights-land, waits,
  enqueue-waits, loop_event-waits, subscribe-waits, cancel-waits, receive_at-waits,
}

enqueue-seq : {D : Type 0} (ev : Event D) (b : Broadcaster D) → (enqueue ev b).seq ≡ b.seq
unfolding enqueue
enqueue-seq ev b = ground arith

subscribe-seq : {D : Type 0} (j : ℕ) (b : Broadcaster D) → (subscribe_raw j b).0.seq ≡ b.seq
unfolding subscribe_raw
subscribe-seq j b = ground arith

cancel-seq : {D : Type 0} (j : ℕ) (b : Broadcaster D) → (cancel j b).seq ≡ b.seq
unfolding cancel
cancel-seq j b = refl

module _ {D : Type 0} (size n id : ℕ) where
  -- How often `n` may still be received.
  abbrev pub pending : Publishing D → ℕ
  pending s = waits n id s.shared + flights n s.in_flight

  -- Each number is given once.
  abbrev pub given : Publishing D → ℕ
  given s = if leb n s.shared.seq then 1 else 0

  -- A step gives at most the next number, and only what is given may be received.
  abbrev pub Spends : Publishing D → Publishing D → Option (Event D) → Type 0
  Spends s s' o =
      (s.shared.seq ≤ s'.shared.seq)
      × (s'.shared.seq ≤ s.shared.seq + 1)
      × (times_some n o + pending s' + given s ≤ pending s + given s')

  number-Spends :
      (type : Bytes) (d : D) (s : Publishing D)
      → s.shared.seq + 1 < uint64_mod
      → Spends s (number type d s) none
  number-Spends type d s h =
      let no_wrap : (s.shared.seq + 1) % uint64_mod ≡ s.shared.seq + 1 = omega arith in
      let ev : Event D = record { type = type; payload = d; seq = s.shared.seq + 1 } in
      let f : Flight D = record { event = ev; stored = false } in
      rw no_wrap (omega arith, omega arith, ground (arith, flights-append n s.in_flight (f ∷ [])))

  store_flight-Spends :
      (i : ℕ) (o : Option (Flight D)) (s : Publishing D) → Spends s (store_flight size i o s) none
  unfolding ring_write
  store_flight-Spends i none s = (omega arith, omega arith, omega arith)
  store_flight-Spends i (some f) s = elim (Bool-cases f.stored) [
    | inl t ↦ rw t (omega arith, omega arith, omega arith)
    | inr g ↦ rw g (omega arith, omega arith, omega (arith, flights-mark_stored n i s.in_flight))
  ]

  send_flight-Spends :
      (i : ℕ) (o : Option (Flight D)) (s : Publishing D)
      → flight_at i s.in_flight ≡ o
      → Spends s (send_flight i o s) none
  send_flight-Spends i none s e = (omega arith, omega arith, omega arith)
  send_flight-Spends i (some f) s e = elim (Bool-cases f.stored) [
    | inr g ↦ rw g (omega arith, omega arith, omega arith)
    | inl t ↦
        let same = enqueue-seq f.event s.shared in
        rw t (
          omega (arith, same),
          omega (arith, same),
          rw same (
              omega (arith, enqueue-waits n id f.event s.shared, flights-land n i f s.in_flight e)),
        )
  ]

  receive-Spends :
      (j : ℕ) (s : Publishing D)
      → Spends s
          (record s { shared = (receive j s.shared).0 })
          (if_same id j (receive j s.shared).1)
  unfolding receive
  receive-Spends j s =
      let same = receive_at-seq j s.shared (lookup j s.shared.raw_clients) in
      (
        omega (arith, same),
        omega (arith, same),
        rw same (omega (arith, receive_at-waits n id j s.shared)),
      )

  pub move-Spends :
      (e : Move D) (s : Publishing D)
      → s.shared.seq + 1 < uint64_mod
      → Spends s (move size e s) (got id s e)
  unfolding move loop_step
  move-Spends (numbers type d) s h = number-Spends type d s h
  move-Spends (stores i) s h = store_flight-Spends i (flight_at i s.in_flight) s
  move-Spends (sends i) s h = send_flight-Spends i (flight_at i s.in_flight) s refl
  move-Spends fans_out s h =
      let same = loop_event-seq s.shared.events s.shared in
      (
        omega (arith, same),
        omega (arith, same),
        rw same (omega (arith, loop_event-waits n id s.shared.events s.shared refl)),
      )
  move-Spends (subscribes j) s h =
      let same = subscribe-seq j s.shared in
      (
        omega (arith, same),
        omega (arith, same),
        rw same (omega (arith, subscribe-waits n id j s.shared)),
      )
  move-Spends (cancels j) s h =
      let same = cancel-seq j s.shared in
      (
        omega (arith, same),
        omega (arith, same),
        rw same (omega (arith, cancel-waits n id j s.shared)),
      )
  move-Spends (receives j) s h = receive-Spends j s

  times-cons_some :
      (o : Option (Event D)) (es : List (Event D))
      → times n (cons_some o es) ≡ times_some n o + times n es
  times-cons_some none es = omega arith
  times-cons_some (some ev) es = omega arith

  given-le : (s : Publishing D) → given s ≤ 1
  given-le s = ground arith

  -- `k` is how often it has been received.
  pub deliveries-le :
      (moves : List (Move D)) (s : Publishing D) (k : ℕ)
      → s.shared.seq + length moves < uint64_mod
      → k + pending s ≤ given s
      → k + times n (deliveries size id s moves) ≤ 1
  unfolding deliveries
  deliveries-le [] s k h le = omega (arith, le, given-le s)
  deliveries-le (e ∷ moves) s k h le =
      let (_, near, spends) = move-Spends e s (omega arith) in
      let here = times_some n (got id s e) in
      let rest =
        deliveries-le moves (move size e s) (k + here) (omega (arith, near))
          (omega (arith, spends, le)) in
      omega (arith, rest, times-cons_some (got id s e) (deliveries size id (move size e s) moves))

-- However calls of Publish overlap and whatever the other goroutines do in between, in a history of
-- fewer than 2^64 steps of a new broadcaster with no bridge: no subscriber receives an event with the
-- same number twice.
pub deliveries-once :
    {D : Type 0} (size n id : ℕ) (nil : D) (moves : List (Move D))
    → length moves < uint64_mod
    → times n (deliveries size id (record { shared = new_no_loop size nil; in_flight = [] }) moves)
      ≤ 1
unfolding new_no_loop lookup
deliveries-once {D = D} size n id nil moves h =
    let start : Publishing D = record { shared = new_no_loop size nil; in_flight = [] } in
    omega (arith, deliveries-le size n id moves start 0 (omega arith) (ground arith))
