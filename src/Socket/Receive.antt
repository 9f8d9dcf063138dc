-- ===== src/Socket/Receive.antt =====
-- What a connection is sent: the dispatcher, BroadcastTo, the replay of missed events and the
-- read pump of backend/internal/ws/handler.go.
use magic_webb.Base.{
  ℕ, zero, suc, ◌+◌, Bool, true, false, not, Option, none, some, List, [], ◌∷◌, ◌++◌, Bytes, bytes,
  nat_eq, GoMap, ltb, if◌then◌else◌, length,
}
use magic_webb.Broadcast.{Broadcaster, Event, RetryEvent, replay, ring_buffer_size}
use magic_webb.Socket.{
  Payload, empty, Message, push, control, Connection, Handler, write_json, send_cap, parsed,
  is_malformed, is_subscribed_to_event_parsed, is_subscribed_to_event, allowed_notification_parsed,
  allowed_notification,
}

-- The Connect-RPC client's answer to a get_* action, for its name and parameters. `from_seq` is
-- what the parameters decode to as RetryData.
pub record Action : Type 0 where
  pub action : Bytes
  pub params : Bytes
  pub from_seq : Option ℕ

-- A client's frame, by its type; `none` is a body that does not decode.
pub data Inbound : Type 0 where
  undecodable : Inbound
  ping : Inbound
  action : Option Action → Inbound
  subscribe_to : Option (List Bytes) → Inbound
  unsubscribe_from : Option (List Bytes) → Inbound
  binary_upgrade : Inbound
  unknown : Bytes → Inbound

abbrev pub failed : Bytes → Message
failed text = control (bytes "error") text

-- mustJSON of data that does not marshal is empty.
abbrev pub must_json : Option Payload → Payload
must_json none = empty
must_json (some payload) = payload

abbrev pub count_sent : Bool → ℕ → ℕ
count_sent true n = n + 1
count_sent false n = n

module _ (canon : Bytes → Bytes) where
  -- The dispatcher's body for one connection, and whether the event counts as sent.
  unfoldable pub dispatch_to : Bytes → Payload → ℕ → Connection → Connection × Bool
  unfolding allowed_notification_parsed is_subscribed_to_event_parsed
  dispatch_to etype payload seq c =
      if not (allowed_notification_parsed canon etype (parsed payload) c)
      then (c, false)
      else if not
          (is_subscribed_to_event_parsed canon etype (parsed payload) (is_malformed payload) c)
      then (c, false)
      else if ltb (length c.send) send_cap
      then (record c { send = c.send ++ push etype payload seq ∷ [] }, true)
      else (c, false)

  unfoldable pub dispatch_all : Bytes → Payload → ℕ → GoMap ℕ Connection → GoMap ℕ Connection × ℕ
  unfolding dispatch_to
  dispatch_all etype payload seq [] = ([], 0)
  dispatch_all etype payload seq ((id, c) ∷ conns) =
      let (c', sent) = dispatch_to etype payload seq c in
      let (rest, n) = dispatch_all etype payload seq conns in ((id, c') ∷ rest, count_sent sent n)

  -- A round of the dispatcher. `none` is data that does not marshal.
  abbrev pub dispatch_payload : Event (Option Payload) → Option Payload → Handler → Handler
  dispatch_payload ev none h = h
  dispatch_payload ev (some payload) h =
      let (conns, n) = dispatch_all ev.type payload ev.seq h.conns in
      record h { conns = conns; events_sent = h.events_sent + n }

  unfoldable pub dispatch : Event (Option Payload) → Handler → Handler
  unfolding dispatch_all
  dispatch ev h = dispatch_payload ev ev.payload h

  -- BroadcastTo's body for one connection.
  unfoldable pub broadcast_one : Bytes → Payload → ℕ → Connection → Connection
  unfolding allowed_notification is_subscribed_to_event
  broadcast_one etype payload seq c =
      if not (allowed_notification canon etype payload c)
      then c
      else if not (is_subscribed_to_event canon etype payload c)
      then c
      else if ltb (length c.send) send_cap
      then record c { send = c.send ++ push etype payload seq ∷ [] }
      else c

  unfoldable pub broadcast_all : Bytes → Payload → ℕ → GoMap ℕ Connection → GoMap ℕ Connection
  unfolding broadcast_one
  broadcast_all etype payload seq [] = []
  broadcast_all etype payload seq ((id, c) ∷ conns) =
      (id, broadcast_one etype payload seq c) ∷ broadcast_all etype payload seq conns

  abbrev pub broadcast_payload : Event (Option Payload) → Option Payload → Handler → Handler
  broadcast_payload ev none h = h
  broadcast_payload ev (some payload) h = record h {
    conns = broadcast_all ev.type payload ev.seq h.conns;
  }

  unfoldable pub broadcast_to : Event (Option Payload) → Handler → Handler
  unfolding broadcast_all
  broadcast_to ev h = broadcast_payload ev ev.payload h

  -- The body of handleRetry's loop.
  unfoldable pub replay_one : RetryEvent (Option Payload) → Connection → Connection
  unfolding allowed_notification is_subscribed_to_event write_json
  replay_one rev c =
      let payload = must_json rev.payload in
      if not (allowed_notification canon rev.type payload c)
      then c
      else if not (is_subscribed_to_event canon rev.type payload c)
      then c
      else write_json (push rev.type payload rev.seq) c

  unfoldable pub replay_all : List (RetryEvent (Option Payload)) → Connection → Connection
  unfolding replay_one
  replay_all [] c = c
  replay_all (rev ∷ events) c = replay_all events (replay_one rev c)

  -- What is written of Replay's answer; `none` is the nil slice.
  abbrev pub write_replay : Option (List (RetryEvent (Option Payload))) → Connection → Connection
  write_replay none c = write_json (control (bytes "error") (bytes "stale_state")) c
  write_replay (some events) c =
      write_json (control (bytes "replay_complete") (bytes "replay complete")) (replay_all events c)

  abbrev pub retry_from : Broadcaster (Option Payload) → Option ℕ → Connection → Connection
  retry_from b none c = write_json (failed (bytes "invalid retry params: need from_seq")) c
  retry_from b (some zero) c = write_json (failed (bytes "invalid retry params: need from_seq")) c
  retry_from b (some (suc n)) c = write_replay (replay ring_buffer_size (suc n) b) c

  unfoldable pub handle_retry :
      Option (Broadcaster (Option Payload)) → Option ℕ → Connection → Connection
  unfolding replay_all write_json replay
  handle_retry none from_seq c = write_json (failed (bytes "broadcaster not available")) c
  handle_retry (some b) from_seq c = retry_from b from_seq c
