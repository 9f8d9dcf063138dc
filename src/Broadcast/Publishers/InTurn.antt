-- ===== src/Broadcast/Publishers/InTurn.antt =====
-- Calls of Publish, of backend/internal/sse/broadcaster.go, that send in the order of their numbers.
use mathlib.Core.List.{append_assoc}
use magic_webb.Base.{
  ℕ, zero, suc, ◌+◌, ◌%◌, ◌≤◌, ◌<◌, ◌≡◌, refl, sym, ap, ◌∙◌, subst, Option, none, some, List, [],
  ◌∷◌, ◌++◌, map, All, arith, Bytes, nat_eq, lookup, length, ltb, Bool-cases, inl, inr,
}
use magic_webb.Broadcast.{
  Event, Broadcaster, uint64_mod, events_cap, new_no_loop, ring_write, enqueue, loop_step,
}
use magic_webb.Broadcast.Schedule.{channel}
use magic_webb.Broadcast.Order.{Rising, Rising-snoc, Rising-without}
use magic_webb.Broadcast.Delivery.{
  Above, last_of, Ready, RisesAbove, cons_some-RisesAbove, loop_event-Ready, subscribe-Ready,
  cancel-Ready, receive-Ready,
}
use magic_webb.Broadcast.Publishers.{
  Flight, Publishing, Move, numbers, stores, sends, fans_out, subscribes, cancels, receives,
  flight_at, mark_stored, number, store_flight, send_flight, move, got, deliveries,
}
use magic_webb.Broadcast.Publishers.Counting.{times}
use magic_webb.Broadcast.Publishers.Once.{move-Spends, deliveries-once}

module _ {D : Type 0} where
  -- Of the calls that run, the one that took its number first is the one that sends.
  abbrev pub InTurn : Move D → Type 0
  InTurn (sends i) = i ≡ 0
  InTurn _ = Unit

  abbrev events_of : List (Flight D) → List (Event D)
  events_of fs = map (λ f. f.event) fs

  events_of-snoc :
      (fs : List (Flight D)) (f : Flight D)
      → events_of (fs ++ f ∷ []) ≡ events_of fs ++ f.event ∷ []
  events_of-snoc [] f = refl
  events_of-snoc (g ∷ fs) f = ap (λ es. g.event ∷ es) (events_of-snoc fs f)

  events_of-mark_stored :
      (i : ℕ) (fs : List (Flight D)) → events_of (mark_stored i fs) ≡ events_of fs
  events_of-mark_stored i [] = refl
  events_of-mark_stored zero (f ∷ fs) = refl
  events_of-mark_stored (suc i) (f ∷ fs) = ap (λ es. f.event ∷ es) (events_of-mark_stored i fs)

  snoc_last :
      (xs ys zs : List (Event D)) (ev : Event D)
      → (xs ++ (ys ++ zs)) ++ ev ∷ [] ≡ xs ++ (ys ++ (zs ++ ev ∷ []))
  snoc_last xs ys zs ev =
      append_assoc xs (ys ++ zs) (ev ∷ []) ∙ ap (λ es. xs ++ es) (append_assoc ys zs (ev ∷ []))

  -- Nothing that waits for `id` has a number up to `f`, the last one that it received.
  abbrev IsReady : ℕ → ℕ → Publishing D → Type 0
  IsReady id f s = Ready (events_of s.in_flight) id f s.shared

  number-IsReady :
      (id f : ℕ) (type : Bytes) (d : D) (s : Publishing D)
      → s.shared.seq + 1 < uint64_mod
      → IsReady id f s
      → IsReady id f (number type d s)
  number-IsReady id f type d s h r =
      let no_wrap : (s.shared.seq + 1) % uint64_mod ≡ s.shared.seq + 1 = omega arith in
      let ev : Event D = record { type = type; payload = d; seq = s.shared.seq + 1 } in
      let ch = channel (lookup id s.shared.raw_clients) in
      let old = events_of s.in_flight in
      let longer = Rising-snoc f s.shared.seq (ch ++ (s.shared.events ++ old)) ev (omega arith) r in
      rw (no_wrap, events_of-snoc)
        (subst (Rising f (s.shared.seq + 1)) (snoc_last ch s.shared.events old ev) longer)

  store_flight-IsReady :
      (size i id f : ℕ) (o : Option (Flight D)) (s : Publishing D)
      → IsReady id f s
      → IsReady id f (store_flight size i o s)
  unfolding ring_write
  store_flight-IsReady size i id f none s r = r
  store_flight-IsReady size i id f (some g) s r = elim (Bool-cases g.stored) [
    | inl t ↦ rw t r
    | inr n ↦ rw (n, events_of-mark_stored) r
  ]

  -- The first call of Publish sends.
  send_first-IsReady :
      (id f : ℕ) (fs : List (Flight D)) (b : Broadcaster D)
      → Ready (events_of fs) id f b
      → IsReady id f (send_flight 0 (flight_at 0 fs) (record { shared = b; in_flight = fs }))
  unfolding enqueue
  send_first-IsReady id f [] b r = r
  send_first-IsReady id f (g ∷ fs) b r =
      let ch = channel (lookup id b.raw_clients) in
      let rest = events_of fs in
      elim (Bool-cases g.stored) [
        | inr n ↦ rw n r
        | inl t ↦ elim (Bool-cases (ltb (length b.events) events_cap)) [
          | inl room ↦ rw (t, room, append_assoc) r
          | inr full ↦
              rw (t, full)
                (subst (Rising f b.seq) (append_assoc ch b.events rest) (
                  Rising-without f b.seq (ch ++ b.events) g.event rest
                    (subst (Rising f b.seq) (sym (append_assoc ch b.events (g.event ∷ rest))) r)))
        ]
      ]

  move-IsReady :
      (size id f : ℕ) (e : Move D) (s : Publishing D)
      → s.shared.seq + 1 < uint64_mod
      → InTurn e
      → IsReady id f s
      → Above f (got id s e) × IsReady id (last_of f (got id s e)) (move size e s)
  unfolding move loop_step
  move-IsReady size id f (numbers type d) s h t r = (tt, number-IsReady id f type d s h r)
  move-IsReady size id f (stores i) s h t r =
      (tt, store_flight-IsReady size i id f (flight_at i s.in_flight) s r)
  move-IsReady size id f (sends zero) s h t r = (tt, send_first-IsReady id f s.in_flight s.shared r)
  move-IsReady size id f (sends (suc i)) s h t r = absurd (omega (arith, t))
  move-IsReady size id f fans_out s h t r =
      (tt, loop_event-Ready (events_of s.in_flight) id f s.shared.events s.shared r refl)
  move-IsReady size id f (subscribes j) s h t r =
      (tt, subscribe-Ready (events_of s.in_flight) id f j s.shared r)
  move-IsReady size id f (cancels j) s h t r =
      (tt, cancel-Ready (events_of s.in_flight) id f j s.shared r)
  move-IsReady size id f (receives j) s h t r =
      receive-Ready (events_of s.in_flight) id f j s.shared r

  deliveries-RisesAbove :
      (size id f : ℕ) (moves : List (Move D)) (s : Publishing D)
      → s.shared.seq + length moves < uint64_mod
      → All InTurn moves
      → IsReady id f s
      → RisesAbove f (deliveries size id s moves)
  unfolding deliveries
  deliveries-RisesAbove size id f [] s h t r = tt
  deliveries-RisesAbove size id f (e ∷ moves) s h (t, ts) r =
      let (above, ready) = move-IsReady size id f e s (omega arith) t r in
      let (_, near, _) = move-Spends size 0 id e s (omega arith) in
      cons_some-RisesAbove f (got id s e) _ above (
        deliveries-RisesAbove size id (last_of f (got id s e)) moves (move size e s)
          (omega (arith, near)) ts ready)

-- However calls of Publish overlap and whatever the other goroutines do in between, in a history of
-- fewer than 2^64 steps of a new broadcaster with no bridge: no subscriber receives an event with the
-- same number twice. And if the calls send in the order in which they took their numbers, every
-- subscriber receives events with strictly rising numbers. (Events may be dropped.)
pub deliveries-rising :
    {D : Type 0} (size n id : ℕ) (nil : D) (moves : List (Move D))
    → length moves < uint64_mod
    → let start : Publishing D = record { shared = new_no_loop size nil; in_flight = [] } in
      (times n (deliveries size id start moves) ≤ 1)
      × (All InTurn moves → RisesAbove 0 (deliveries size id start moves))
unfolding new_no_loop lookup
deliveries-rising {D = D} size n id nil moves h = (
  deliveries-once size n id nil moves h,
  λ turns.
      deliveries-RisesAbove size id 0 moves
        (record { shared = new_no_loop size nil; in_flight = [] }) (omega arith) turns
        (omega arith),
)
