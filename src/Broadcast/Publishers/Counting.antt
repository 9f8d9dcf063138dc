-- ===== src/Broadcast/Publishers/Counting.antt =====
-- How often a number stands in the buffers of backend/internal/sse/broadcaster.go.
use magic_webb.Base.{
  ℕ, zero, suc, ◌+◌, ◌≤◌, ◌≡◌, refl, false, Option, none, some, List, [], ◌∷◌, ◌++◌, arith, nat_eq,
  ◌==◌, if◌then◌else◌, ltb, leb, lookup, length, lookup-insert, lookup-delete, Bool-cases, inl, inr,
  eqb_refl,
}
use magic_webb.Broadcast.{
  Event, RawClient, Broadcaster, client_cap, events_cap, offer, enqueue, loop_event, subscribe_raw,
  cancel,
}
use magic_webb.Broadcast.Schedule.{channel, receive_at}
use magic_webb.Broadcast.Delivery.{after_offer, lookup-fan_out, if_same}
use magic_webb.Broadcast.Publishers.{Flight, flight_at, mark_stored, land}

module _ {D : Type 0} (n : ℕ) where
  abbrev pub one : Event D → ℕ
  one ev = if ev.seq == n then 1 else 0

  -- How many of the events have the number `n`.
  abbrev pub times : List (Event D) → ℕ
  times [] = 0
  times (ev ∷ es) = one ev + times es

  abbrev pub times_some : Option (Event D) → ℕ
  times_some none = 0
  times_some (some ev) = one ev

  abbrev pub flights : List (Flight D) → ℕ
  flights [] = 0
  flights (f ∷ fs) = one f.event + flights fs

  times-append : (es fs : List (Event D)) → times (es ++ fs) ≡ times es + times fs
  times-append [] fs = omega arith
  times-append (ev ∷ es) fs = omega (arith, times-append es fs)

  pub flights-append : (fs gs : List (Flight D)) → flights (fs ++ gs) ≡ flights fs + flights gs
  flights-append [] gs = omega arith
  flights-append (f ∷ fs) gs = omega (arith, flights-append fs gs)

  pub flights-mark_stored : (i : ℕ) (fs : List (Flight D)) → flights (mark_stored i fs) ≡ flights fs
  flights-mark_stored i [] = refl
  flights-mark_stored zero (f ∷ fs) = refl
  flights-mark_stored (suc i) (f ∷ fs) = omega (arith, flights-mark_stored i fs)

  -- What lands is no longer in flight.
  pub flights-land :
      (i : ℕ) (f : Flight D) (fs : List (Flight D))
      → flight_at i fs ≡ some f
      → flights (land i fs) + one f.event ≡ flights fs
  flights-land i f [] e = absurd (cc e)
  flights-land zero f (g ∷ fs) e = grind (arith, e)
  flights-land (suc i) f (g ∷ fs) e = omega (arith, flights-land i f fs e)

  -- How often `n` waits for subscriber `id`: in its channel and in the broadcaster's.
  abbrev pub waits : ℕ → Broadcaster D → ℕ
  waits id b = times (channel (lookup id b.raw_clients)) + times b.events

  pub enqueue-waits :
      (id : ℕ) (ev : Event D) (b : Broadcaster D) → waits id (enqueue ev b) ≤ waits id b + one ev
  unfolding enqueue
  enqueue-waits id ev b = elim (Bool-cases (ltb (length b.events) events_cap)) [
    | inl room ↦ rw room (omega (arith, times-append b.events (ev ∷ [])))
    | inr full ↦ rw full (omega arith)
  ]

  offer-times :
      (ev : Event D) (o : Option (RawClient D))
      → times (channel (after_offer ev o)) ≤ times (channel o) + one ev
  unfolding offer
  offer-times ev none = omega arith
  offer-times ev (some rc) = elim (Bool-cases (ltb (length rc.ch) client_cap)) [
    | inl room ↦ rw room (omega (arith, times-append rc.ch (ev ∷ [])))
    | inr full ↦ rw full (omega arith)
  ]

  pub loop_event-waits :
      (id : ℕ) (es : List (Event D)) (b : Broadcaster D)
      → b.events ≡ es
      → waits id (loop_event es b) ≤ waits id b
  unfolding loop_event
  loop_event-waits id [] b e = omega arith
  loop_event-waits id (ev ∷ rest) b e =
      rw (e, lookup-fan_out id ev b.raw_clients)
        (omega (arith, offer-times ev (lookup id b.raw_clients)))

  pub subscribe-waits : (id j : ℕ) (b : Broadcaster D) → waits id (subscribe_raw j b).0 ≤ waits id b
  unfolding subscribe_raw
  subscribe-waits id j b = elim (Bool-cases (leb 10000 (length b.raw_clients))) [
    | inl full ↦ rw full (omega arith)
    | inr room ↦ elim (Bool-cases (j == id)) [
      | inl same ↦ rw (room, lookup-insert, same) (omega arith)
      | inr other ↦ rw (room, lookup-insert, other) (omega arith)
    ]
  ]

  pub cancel-waits : (id j : ℕ) (b : Broadcaster D) → waits id (cancel j b) ≤ waits id b
  unfolding cancel
  cancel-waits id j b = elim (Bool-cases (j == id)) [
    | inl same ↦ rw (lookup-delete, same) (omega arith)
    | inr other ↦ rw (lookup-delete, other) (omega arith)
  ]

  receive_own :
      (id : ℕ) (b : Broadcaster D) (cs : List (Event D)) (k : ℕ)
      → let o : Option (RawClient D) = some (record { ch = cs; dropped = k }) in
        times_some (receive_at id b o).1 + waits id (receive_at id b o).0
        ≤ times cs + times b.events
  receive_own id b [] k = rw (lookup-insert, eqb_refl id) (omega arith)
  receive_own id b (ev ∷ cs) k = rw (lookup-insert, eqb_refl id) (omega arith)

  receive_same :
      (id : ℕ) (b : Broadcaster D) (o : Option (RawClient D))
      → lookup id b.raw_clients ≡ o
      → times_some (receive_at id b o).1 + waits id (receive_at id b o).0 ≤ waits id b
  receive_same id b none e = omega arith
  receive_same id b (some rc) e = rw e (receive_own id b rc.ch rc.dropped)

  receive_other :
      (id j : ℕ) (b : Broadcaster D) (o : Option (RawClient D))
      → (j == id) ≡ false
      → waits id (receive_at j b o).0 ≤ waits id b
  receive_other id j b none other = omega arith
  receive_other id j b (some rc) other = rw (lookup-insert, other) (omega arith)

  -- What is received no longer waits.
  pub receive_at-waits :
      (id j : ℕ) (b : Broadcaster D)
      → times_some (if_same id j (receive_at j b (lookup j b.raw_clients)).1)
          + waits id (receive_at j b (lookup j b.raw_clients)).0
        ≤ waits id b
  receive_at-waits id j b = elim (Bool-cases (j == id)) [
    | inl same ↦
        rw ((nat_eq.equals_iff j id).0 same)
          (rw (eqb_refl id) (receive_same id b (lookup id b.raw_clients) refl))
    | inr other ↦ rw other (omega (arith, receive_other id j b (lookup j b.raw_clients) other))
  ]
