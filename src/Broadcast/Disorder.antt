-- ===== src/Broadcast/Disorder.antt =====
-- What a bridge to other instances, backend/internal/sse/grpc_bridge.go, does to the order of events.
use mathlib.Core.List.{append_assoc}
use magic_webb.Base.{
  ℕ, ◌+◌, subst, ◌≤◌, ◌<◌, ◌≡◌, ◌≢◌, List, [], ◌∷◌, ◌++◌, arith, Bytes, bytes_eqb_iff, length,
  length-append,
}
use magic_webb.Broadcast.{Event, Broadcaster, uint64_mod, events_cap, publish, bridge_in}
use magic_webb.Broadcast.Delivery.{RisesAbove}

module _ {D : Type 0} where
  pub no_fall :
      (lo : ℕ) (es : List (Event D)) (x y : Event D)
      → y.seq ≤ x.seq
      → ¬ RisesAbove lo (es ++ x ∷ y ∷ [])
  no_fall lo [] x y h r = omega arith
  no_fall lo (e ∷ es) x y h r = no_fall e.seq es x y h r.1

  -- An event of another instance that arrives after a local one, with a number up to the local
  -- event's, is queued behind it: the numbers in the queue do not rise. Whatever `lo` a subscriber
  -- has reached, they are out of order for it.
  pub bridge_in-disorder :
      (size lo : ℕ) (own origin type : Bytes) (d : D) (ev : Event D) (b : Broadcaster D)
      → origin ≢ own
      → length b.events + 1 < events_cap
      → b.seq + 1 < uint64_mod
      → ev.seq ≤ b.seq + 1
      → ¬ RisesAbove lo (bridge_in own origin ev (publish size type d b)).events
  unfolding bridge_in publish
  bridge_in-disorder size lo own origin type d ev b other room h le rises =
      let x : Event D = record { type = type; payload = d; seq = b.seq + 1 } in
      let queued : (bridge_in own origin ev (publish size type d b)).events
          ≡ b.events ++ x ∷ ev ∷ [] =
        ground (
          arith,
          bytes_eqb_iff origin own,
          length-append b.events (x ∷ []),
          append_assoc b.events (x ∷ []) (ev ∷ []),
        ) in
      no_fall lo b.events x ev le (subst (RisesAbove lo) queued rises)
