-- ===== src/Broadcast/Schedule.antt =====
-- A subscriber of backend/internal/sse/broadcaster.go that receives from its channel.
use magic_webb.Base.{ℕ, Option, none, some, List, [], ◌∷◌, nat_eq, lookup, insert}
use magic_webb.Broadcast.{Event, RawClient, Broadcaster}

-- `<-ch`, where the channel holds something.
abbrev pub take_first : {D : Type 0} → List (Event D) → List (Event D) × Option (Event D)
take_first [] = ([], none)
take_first (ev ∷ rest) = (rest, some ev)

abbrev pub channel : {D : Type 0} → Option (RawClient D) → List (Event D)
channel none = []
channel (some rc) = rc.ch

module _ {D : Type 0} where
  abbrev pub receive_at :
      ℕ → Broadcaster D → Option (RawClient D) → Broadcaster D × Option (Event D)
  receive_at id b none = (b, none)
  receive_at id b (some rc) =
      let (rest, got) = take_first rc.ch in
      (record b { raw_clients = insert id (record rc { ch = rest }) b.raw_clients }, got)

  unfoldable pub receive : ℕ → Broadcaster D → Broadcaster D × Option (Event D)
  receive id b = receive_at id b (lookup id b.raw_clients)

  abbrev pub cons_some : Option (Event D) → List (Event D) → List (Event D)
  cons_some none es = es
  cons_some (some ev) es = ev ∷ es
