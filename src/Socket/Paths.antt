-- ===== src/Socket/Paths.antt =====
-- The three paths by which backend/internal/ws/handler.go pushes an event to a connection.
use magic_webb.Base.{ℕ, ◌≡◌, true, false, some, [], ◌∷◌, ◌++◌, Bytes, arith}
use magic_webb.Socket.{Payload, push, Connection, write_json, is_subscribed_to_event}
use magic_webb.Socket.Receive.{dispatch_to, broadcast_one, replay_one}
use magic_webb.Socket.Gates.{allowed_notification-parsed}

module _ (canon : Bytes → Bytes) where
  -- An event whose data marshals leaves a connection in the same state whether it comes by the
  -- dispatcher, by BroadcastTo or by a replay, and it is counted as sent only where the channel grew.
  pub paths_agree :
      (etype : Bytes) (payload : Payload) (seq : ℕ) (c : Connection)
      → (broadcast_one canon etype payload seq c ≡ (dispatch_to canon etype payload seq c).0)
        × (replay_one canon (record { seq = seq; type = etype; payload = some payload }) c
            ≡ (dispatch_to canon etype payload seq c).0)
        × ((dispatch_to canon etype payload seq c).1 ≡ true
            → (dispatch_to canon etype payload seq c).0.send
              ≡ c.send ++ push etype payload seq ∷ [])
        × ((dispatch_to canon etype payload seq c).1 ≡ false
            → (dispatch_to canon etype payload seq c).0 ≡ c)
  unfolding broadcast_one dispatch_to replay_one write_json is_subscribed_to_event
  paths_agree etype payload seq c =
      let same = allowed_notification-parsed canon etype payload c in
      (ground (arith, same), ground (arith, same), ground arith, ground arith)
