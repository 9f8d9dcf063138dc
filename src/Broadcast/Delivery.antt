-- ===== src/Broadcast/Delivery.antt =====
-- What the fan-out and the subscribers of backend/internal/sse/broadcaster.go do to the events that wait
-- for one subscriber.
use magic_webb.Base.{
  ℕ, ◌<◌, ◌≡◌, refl, false, Option, none, some, List, [], ◌∷◌, ◌++◌, arith, nat_eq, ◌==◌, GoMap,
  ltb, leb, if◌then◌else◌, lookup, lookup-insert, lookup-delete, length, Bool-cases, inl, inr,
  eqb_refl,
}
use mathlib.Core.List.{append_assoc}
use magic_webb.Broadcast.{
  Event, RawClient, Broadcaster, client_cap, subscribe_raw, cancel, offer, fan_out, loop_event,
}
use magic_webb.Broadcast.Schedule.{channel, receive_at, receive, cons_some}
use magic_webb.Broadcast.Order.{Rising, Rising-without, Rising-suffix}

module _ {D : Type 0} where
  abbrev pub after_offer : Event D → Option (RawClient D) → Option (RawClient D)
  after_offer ev none = none
  after_offer ev (some rc) = some (offer ev rc)

  pub lookup-fan_out :
      (id : ℕ) (ev : Event D) (m : GoMap ℕ (RawClient D))
      → lookup id (fan_out ev m) ≡ after_offer ev (lookup id m)
  unfolding lookup fan_out
  lookup-fan_out id ev [] = refl
  lookup-fan_out id ev ((j, rc) ∷ m) = ground (arith, lookup-fan_out id ev m)

  abbrev pub if_same : ℕ → ℕ → Option (Event D) → Option (Event D)
  if_same id j got = if j == id then got else none

  abbrev pub last_of : ℕ → Option (Event D) → ℕ
  last_of f none = f
  last_of f (some ev) = ev.seq

  abbrev pub Above : ℕ → Option (Event D) → Type 0
  Above f none = Unit {0}
  Above f (some ev) = f < ev.seq

  -- Numbers that rise strictly above `f`.
  abbrev pub RisesAbove : ℕ → List (Event D) → Type 0
  RisesAbove f [] = Unit
  RisesAbove f (ev ∷ es) = (f < ev.seq) × RisesAbove ev.seq es

  pub cons_some-RisesAbove :
      (f : ℕ) (o : Option (Event D)) (es : List (Event D))
      → Above f o
      → RisesAbove (last_of f o) es
      → RisesAbove f (cons_some o es)
  cons_some-RisesAbove f none es a r = r
  cons_some-RisesAbove f (some ev) es a r = (a, r)

  pub loop_event-seq : (es : List (Event D)) (b : Broadcaster D) → (loop_event es b).seq ≡ b.seq
  unfolding loop_event
  loop_event-seq [] b = refl
  loop_event-seq (ev ∷ es) b = refl

  pub receive_at-seq :
      (j : ℕ) (b : Broadcaster D) (o : Option (RawClient D)) → (receive_at j b o).0.seq ≡ b.seq
  receive_at-seq j b none = refl
  receive_at-seq j b (some rc) = refl

  offer-Rising :
      (f hi : ℕ) (ev : Event D) (rest : List (Event D)) (o : Option (RawClient D))
      → Rising f hi (channel o ++ ev ∷ rest)
      → Rising f hi (channel (after_offer ev o) ++ rest)
  unfolding offer
  offer-Rising f hi ev rest none r = Rising-without f hi [] ev rest r
  offer-Rising f hi ev rest (some rc) r = elim (Bool-cases (ltb (length rc.ch) client_cap)) [
    | inl room ↦ rw (room, append_assoc) r
    | inr full ↦ rw full (Rising-without f hi rc.ch ev rest r)
  ]

module _ {D : Type 0} (flying : List (Event D)) where
  -- What waits for subscriber `id`: in its channel, in the broadcaster's, and in calls of Publish.
  abbrev pub waiting : ℕ → Broadcaster D → List (Event D)
  waiting id b = channel (lookup id b.raw_clients) ++ (b.events ++ flying)

  -- Nothing that waits for `id` has a number up to `f`, the last number that it received.
  abbrev pub Ready : ℕ → ℕ → Broadcaster D → Type 0
  Ready id f b = Rising f b.seq (waiting id b)

  pub loop_event-Ready :
      (id f : ℕ) (es : List (Event D)) (b : Broadcaster D)
      → Rising f b.seq (channel (lookup id b.raw_clients) ++ (es ++ flying))
      → b.events ≡ es
      → Ready id f (loop_event es b)
  unfolding loop_event
  loop_event-Ready id f [] b r e = rw e r
  loop_event-Ready id f (ev ∷ rest) b r e =
      rw lookup-fan_out (offer-Rising f b.seq ev (rest ++ flying) (lookup id b.raw_clients) r)

  pub subscribe-Ready :
      (id f j : ℕ) (b : Broadcaster D) → Ready id f b → Ready id f (subscribe_raw j b).0
  unfolding subscribe_raw
  subscribe-Ready id f j b r =
      let fresh : RawClient D = record { ch = []; dropped = 0 } in
      elim (Bool-cases (leb 10000 (length b.raw_clients))) [
        | inl full ↦ rw full r
        | inr room ↦ elim (Bool-cases (j == id)) [
          | inl same ↦
              rw (room, lookup-insert, same) (Rising-suffix f b.seq _ (b.events ++ flying) r)
          | inr other ↦ rw (room, lookup-insert, other) r
        ]
      ]

  pub cancel-Ready : (id f j : ℕ) (b : Broadcaster D) → Ready id f b → Ready id f (cancel j b)
  unfolding cancel
  cancel-Ready id f j b r = elim (Bool-cases (j == id)) [
    | inl same ↦ rw (lookup-delete, same) (Rising-suffix f b.seq _ (b.events ++ flying) r)
    | inr other ↦ rw (lookup-delete, other) r
  ]

  receive_other :
      (id f j : ℕ) (b : Broadcaster D) (o : Option (RawClient D))
      → Ready id f b
      → (j == id) ≡ false
      → Above f (if_same id j (receive_at j b o).1)
        × Ready id (last_of f (if_same id j (receive_at j b o).1)) (receive_at j b o).0
  receive_other id f j b none r other = rw other (tt, r)
  receive_other id f j b (some rc) r other = (rw other tt, rw (lookup-insert, other) r)

  receive_own :
      (id f : ℕ) (b : Broadcaster D) (cs : List (Event D)) (n : ℕ)
      → let o : Option (RawClient D) = some (record { ch = cs; dropped = n }) in
        Rising f b.seq (cs ++ (b.events ++ flying))
        → Above f (receive_at id b o).1
          × Ready id (last_of f (receive_at id b o).1) (receive_at id b o).0
  receive_own id f b [] n r = (tt, rw (lookup-insert, eqb_refl id) r)
  receive_own id f b (ev ∷ cs) n r = (r.0, rw (lookup-insert, eqb_refl id) r.1)

  receive_same :
      (id f : ℕ) (b : Broadcaster D) (o : Option (RawClient D))
      → Rising f b.seq (channel o ++ (b.events ++ flying))
      → lookup id b.raw_clients ≡ o
      → Above f (receive_at id b o).1
        × Ready id (last_of f (receive_at id b o).1) (receive_at id b o).0
  receive_same id f b none r e = (tt, rw e r)
  receive_same id f b (some rc) r e = receive_own id f b rc.ch rc.dropped r

  pub receive-Ready :
      (id f j : ℕ) (b : Broadcaster D)
      → Ready id f b
      → Above f (if_same id j (receive j b).1)
        × Ready id (last_of f (if_same id j (receive j b).1)) (receive j b).0
  unfolding receive
  receive-Ready id f j b r = elim (Bool-cases (j == id)) [
    | inl same ↦
        rw ((nat_eq.equals_iff j id).0 same)
          (rw (eqb_refl id) (receive_same id f b (lookup id b.raw_clients) r refl))
    | inr other ↦ receive_other id f j b (lookup j b.raw_clients) r other
  ]
