-- ===== src/Socket/Pump.antt =====
-- The read pump of backend/internal/ws/handler.go, and the steps by which the handler's
-- connections change. `ask` is the Connect-RPC client behind the get_* actions: the text it
-- answers with, `none` where there is no client; `time` is the server's time as a text.
use magic_webb.Base.{
  ℕ, ◌+◌, Bool, true, false, ◌||◌, Option, none, some, List, [], ◌∷◌, ◌++◌, Bytes, bytes, nat_eq,
  bytes_eqb, lookup, insert, delete, if◌then◌else◌, drop,
}
use magic_webb.Broadcast.{Broadcaster, Event}
use magic_webb.Socket.{
  Payload, Message, control, Connection, Handler, write_json, admit, release_ip, consume_msg_token,
  refill_tick, subscribe, unsubscribe, ws_conn_msg_limit,
}
use magic_webb.Socket.Receive.{
  Action, Inbound, undecodable, ping, action, subscribe_to, unsubscribe_from, binary_upgrade,
  unknown, failed, handle_retry, dispatch, broadcast_to,
}

-- What the client answers: a state, or an error.
pub data Answer : Type 0 where
  state : Bytes → Answer
  refused : Bytes → Answer

abbrev pub answer_message : Answer → Message
answer_message (state text) = control (bytes "state") text
answer_message (refused text) = failed text

unfoldable pub is_query : Bytes → Bool
unfolding bytes_eqb
is_query name =
    bytes_eqb name (bytes "get_listing")
    || (bytes_eqb name (bytes "get_auction")
        || (bytes_eqb name (bytes "get_offer") || bytes_eqb name (bytes "get_token")))

abbrev pub count_limited : Bool → ℕ → ℕ
count_limited true n = n + 1
count_limited false n = n

-- The welcome that a new connection is given before it is registered.
unfoldable pub new_connection : Bytes → Bytes → Connection
new_connection addr ip = record {
  addr = addr;
  ip = ip;
  send = control (bytes "ack") (bytes "connected") ∷ [];
  subscriptions = [];
  msg_tokens = ws_conn_msg_limit;
  use_binary = false;
}

-- What happens to the handler: a request asks for an upgrade, the upgrade fails, or its
-- connection is registered and in the end removed, its pumps read, write or
-- are refilled (a read with the broadcaster as it then is), and an event comes from the dispatcher or from BroadcastTo.
pub data Activity : Type 0 where
  requests : Bytes → Activity
  upgrade_fails : Bytes → Activity
  registers : ℕ → Bytes → Bytes → Activity
  closes : ℕ → Activity
  reads : ℕ → Inbound → Option (Broadcaster (Option Payload)) → Activity
  writes : ℕ → ℕ → Activity
  refills : ℕ → Activity
  dispatches : Event (Option Payload) → Activity
  broadcasts : Event (Option Payload) → Activity

-- The teardown after writePump returns.
abbrev pub tear_down : ℕ → Option Connection → Handler → Handler
tear_down id none h = h
tear_down id (some c) h = release_ip c.ip (record h { conns = delete id h.conns })

abbrev pub on_conn : ℕ → (Connection → Connection) → Option Connection → Handler → Handler
on_conn id f none h = h
on_conn id f (some c) h = record h { conns = insert id (f c) h.conns }

-- writePump takes the oldest `n` messages of the channel for a frame.
abbrev pub take_frame : ℕ → Connection → Connection
take_frame n c = record c { send = drop n c.send }

module _ (canon : Bytes → Bytes) (ask : Option (Bytes → Bytes → Answer))
    (bcast : Option (Broadcaster (Option Payload))) (time : Bytes) where
  abbrev pub query : Option (Bytes → Bytes → Answer) → Action → Connection → Connection
  query none act c = write_json (failed (bytes "server not ready")) c
  query (some f) act c =
      if is_query act.action
      then write_json (answer_message (f act.action act.params)) c
      else write_json (failed (bytes "unknown action: " ++ act.action)) c

  unfoldable pub dispatch_action : Action → Connection → Connection
  unfolding handle_retry bytes_eqb is_query write_json
  dispatch_action act c =
      if bytes_eqb act.action (bytes "retry")
      then handle_retry canon bcast act.from_seq c
      else query ask act c

  -- The `switch` of readPump.
  unfoldable pub handle_message : Inbound → Connection → Connection
  unfolding dispatch_action subscribe unsubscribe write_json
  handle_message undecodable c = write_json (failed (bytes "malformed message")) c
  handle_message ping c = write_json (control (bytes "pong") time) c
  handle_message (action none) c = write_json (failed (bytes "invalid action")) c
  handle_message (action (some act)) c = dispatch_action act c
  handle_message (subscribe_to none) c = write_json (failed (bytes "invalid subscribe payload")) c
  handle_message (subscribe_to (some channels)) c = subscribe canon channels c
  handle_message (unsubscribe_from none) c =
      write_json (failed (bytes "invalid unsubscribe payload")) c
  handle_message (unsubscribe_from (some channels)) c = unsubscribe channels c
  handle_message binary_upgrade c =
      write_json (control (bytes "ack") (bytes "binary_upgrade")) (record c { use_binary = true })
  handle_message (unknown type) c = write_json (failed (bytes "unknown message type: " ++ type)) c

  -- A round of readPump: the connection, and whether the message was rate limited.
  unfoldable pub read_message : Inbound → Connection → Connection × Bool
  unfolding consume_msg_token handle_message
  read_message msg c =
      let (c', granted) = consume_msg_token c in
      if granted
      then (handle_message msg c', false)
      else (write_json (failed (bytes "rate limit exceeded")) c', true)

  abbrev pub on_read : ℕ → Inbound → Option Connection → Handler → Handler
  on_read id msg none h = h
  on_read id msg (some c) h =
      let (c', limited) = read_message msg c in
      record h {
        conns = insert id c' h.conns;
        msg_rate_limited = count_limited limited h.msg_rate_limited;
      }

module _ (canon : Bytes → Bytes) (ask : Option (Bytes → Bytes → Answer)) (time : Bytes) where
  unfoldable pub act : Activity → Handler → Handler
  unfolding read_message new_connection refill_tick dispatch broadcast_to admit release_ip lookup
      insert delete
  act (requests ip) h = (admit ip h).0
  act (upgrade_fails ip) h = release_ip ip h
  act (registers id addr ip) h = record h {
    conns = insert id (new_connection addr ip) h.conns;
    conn_count = h.conn_count + 1;
  }
  act (closes id) h = tear_down id (lookup id h.conns) h
  act (reads id msg bcast) h = on_read canon ask bcast time id msg (lookup id h.conns) h
  act (writes id n) h = on_conn id (take_frame n) (lookup id h.conns) h
  act (refills id) h = on_conn id refill_tick (lookup id h.conns) h
  act (dispatches ev) h = dispatch canon ev h
  act (broadcasts ev) h = broadcast_to canon ev h

  abbrev pub run : List Activity → Handler → Handler
  run [] h = h
  run (a ∷ activities) h = run activities (act a h)
