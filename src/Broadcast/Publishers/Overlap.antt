-- ===== src/Broadcast/Publishers/Overlap.antt =====
-- What two calls of Publish, of backend/internal/sse/broadcaster.go, that overlap do to the order of
-- events.
use mathlib.Core.List.{append_assoc}
use magic_webb.Base.{ℕ, ◌+◌, ◌<◌, ◌≡◌, subst, [], ◌∷◌, ◌++◌, arith, Bytes, length, length-append}
use magic_webb.Broadcast.{Event, Broadcaster, uint64_mod, events_cap, enqueue}
use magic_webb.Broadcast.Delivery.{RisesAbove}
use magic_webb.Broadcast.Disorder.{no_fall}
use magic_webb.Broadcast.Publishers.{numbers, stores, sends, run}

module _ {D : Type 0} where
  -- Two calls of Publish overlap: the first takes its number, then the second takes its own, writes to
  -- the ring and sends; then the first does. Where the channel has room, the events wait in it in the
  -- wrong order: whatever number `lo` a subscriber has reached, they are out of order for it.
  pub overlap-disorder :
      (size lo : ℕ) (type type' : Bytes) (d d' : D) (b : Broadcaster D)
      → length b.events + 1 < events_cap
      → b.seq + 2 < uint64_mod
      → ¬ RisesAbove lo
          (run size
            (numbers type d ∷ numbers type' d' ∷ stores 1 ∷ sends 1 ∷ stores 0 ∷ sends 0 ∷ [])
            (record { shared = b; in_flight = [] })).shared.events
  unfolding run enqueue
  overlap-disorder size lo type type' d d' b room h rises =
      let x : Event D = record { type = type; payload = d; seq = b.seq + 1 } in
      let y : Event D = record { type = type'; payload = d'; seq = b.seq + 2 } in
      let queued : (run size
            (numbers type d ∷ numbers type' d' ∷ stores 1 ∷ sends 1 ∷ stores 0 ∷ sends 0 ∷ [])
            (record { shared = b; in_flight = [] })).shared.events
          ≡ b.events ++ y ∷ x ∷ [] =
        ground (arith, length-append b.events (y ∷ []), append_assoc b.events (y ∷ []) (x ∷ [])) in
      no_fall lo b.events y x (omega arith) (subst (RisesAbove lo) queued rises)
