-- ===== src/Socket.antt =====
-- The WebSocket handler: backend/internal/ws/handler.go, its connections, what they receive and
-- what they may subscribe to. A connection's id is a number in place of its uuid.
use magic_webb.Base.{
  ℕ, zero, suc, ◌+◌, ◌-◌, Bool, true, false, not, ◌&&◌, ◌||◌, Option, none, some, List, [], ◌∷◌,
  ◌++◌, Bytes, bytes, bytes_eq, nat_eq, bytes_eqb, has_prefix, GoMap, lookup, insert, delete, ltb,
  leb, if◌then◌else◌, length,
}
use magic_webb.Broadcast.{Broadcaster, Event, RetryEvent, replay}
use magic_webb.Channels.{
  EventPayload, channel_user, is_empty, trim_prefix, equal_fold, is_valid_channel,
  channel_matches_prefix, channel_matches_event,
}
pub mod Receive
pub mod Pump
pub mod Gates
pub mod Reading
pub mod Privacy
pub mod Paths
pub mod Tokens
pub mod Counters
pub mod Slots
mod Examples

abbrev pub ws_per_ip_limit : ℕ
ws_per_ip_limit = 20

abbrev pub ws_global_limit : ℕ
ws_global_limit = 5000

abbrev pub ws_conn_msg_limit : ℕ
ws_conn_msg_limit = 20

abbrev pub ws_conn_msg_refill : ℕ
ws_conn_msg_refill = 10

abbrev pub send_cap : ℕ
send_cap = 64

abbrev pub notification : Bytes
notification = bytes "notification"

-- The JSON bytes of an event, by what decoding them into eventPayload gives.
pub data Payload : Type 0 where
  empty : Payload
  malformed : Payload
  object : EventPayload → Payload

-- The frames for a client: an event, or one of the handler's own messages, by its type and text.
pub data Message : Type 0 where
  push : Bytes → Payload → ℕ → Message
  control : Bytes → Bytes → Message
  channels_set : Bytes → List Bytes → Message

pub record Connection : Type 0 where
  pub addr : Bytes
  pub ip : Bytes
  pub send : List Message
  pub subscriptions : GoMap Bytes (Unit {0})
  pub msg_tokens : ℕ
  pub use_binary : Bool

pub record Handler : Type 0 where
  pub conns : GoMap ℕ Connection
  pub ip_counters : GoMap Bytes ℕ
  pub events_sent : ℕ
  pub conn_count : ℕ
  pub msg_rate_limited : ℕ
  pub conns_rejected_ip : ℕ
  pub conns_rejected_global : ℕ

-- `select { case c.send <- msg: default: }`
unfoldable pub write_json : Message → Connection → Connection
write_json msg c =
    if ltb (length c.send) send_cap then record c { send = c.send ++ msg ∷ [] } else c

unfoldable pub consume_msg_token : Connection → Connection × Bool
consume_msg_token c =
    if leb c.msg_tokens 0 then (c, false) else (record c { msg_tokens = c.msg_tokens - 1 }, true)

-- A tick of refillTokens.
unfoldable pub refill_tick : Connection → Connection
refill_tick c =
    let next = c.msg_tokens + ws_conn_msg_refill in
    record c { msg_tokens = if ltb ws_conn_msg_limit next then ws_conn_msg_limit else next }

-- A counter that is not there is made as 0.
abbrev pub or_zero : Option ℕ → ℕ
or_zero none = 0
or_zero (some n) = n

unfoldable pub acquire_ip : Bytes → Handler → Handler × Bool
unfolding lookup insert
acquire_ip ip h =
    let cnt = or_zero (lookup ip h.ip_counters) in
    if ltb ws_per_ip_limit (cnt + 1)
    then (record h { ip_counters = insert ip cnt h.ip_counters }, false)
    else (record h { ip_counters = insert ip (cnt + 1) h.ip_counters }, true)

abbrev pub release_counter : Bytes → Option ℕ → GoMap Bytes ℕ → GoMap Bytes ℕ
release_counter ip none counters = counters
release_counter ip (some cnt) counters =
    if leb cnt 1 then delete ip counters else insert ip (cnt - 1) counters

unfoldable pub release_ip : Bytes → Handler → Handler
unfolding lookup insert delete
release_ip ip h = record h {
  ip_counters = release_counter ip (lookup ip h.ip_counters) h.ip_counters;
}

-- HandleWebSocket up to the upgrade: whether the request may be upgraded.
unfoldable pub admit : Bytes → Handler → Handler × Bool
unfolding acquire_ip release_ip
admit ip h =
    let (h', acquired) = acquire_ip ip h in
    if not acquired
    then (record h' { conns_rejected_ip = h'.conns_rejected_ip + 1 }, false)
    else if leb ws_global_limit (length h'.conns)
    then (release_ip ip (record h' { conns_rejected_global = h'.conns_rejected_global + 1 }), false)
    else (h', true)

-- A nil eventPayload, and whether the bytes are malformed.
abbrev pub parsed : Payload → Option EventPayload
parsed empty = none
parsed malformed = none
parsed (object ev) = some ev

abbrev pub is_malformed : Payload → Bool
is_malformed empty = false
is_malformed malformed = true
is_malformed (object ev) = false

-- A loop over the subscriptions that looks for a match.
abbrev pub any_channel : (Bytes → Bool) → GoMap Bytes (Unit {0}) → Bool
any_channel f [] = false
any_channel f ((ch, u) ∷ m) = if f ch then true else any_channel f m

module _ (canon : Bytes → Bytes) where
  -- The loop of `subscribe`: the connection's set and the channels confirmed.
  unfoldable pub subscribe_all :
      Bytes → List Bytes → GoMap Bytes (Unit {0}) → List Bytes → GoMap Bytes (Unit {0}) × List Bytes
  unfolding has_prefix trim_prefix equal_fold is_valid_channel insert
  subscribe_all addr [] subs done = (subs, done)
  subscribe_all addr (ch ∷ channels) subs done =
      let foreign =
        has_prefix ch channel_user && not (equal_fold canon (trim_prefix ch channel_user) addr) in
      let skip = subscribe_all addr channels subs done in
      let add = subscribe_all addr channels (insert ch tt subs) (done ++ ch ∷ []) in
      if foreign then skip else if is_valid_channel ch then add else skip

  unfoldable pub subscribe : List Bytes → Connection → Connection
  unfolding subscribe_all write_json
  subscribe channels c =
      let (subs, done) = subscribe_all c.addr channels c.subscriptions [] in
      write_json (channels_set (bytes "subscribed") done) (record c { subscriptions = subs })

  unfoldable pub is_subscribed_to_event_parsed :
      Bytes → Option EventPayload → Bool → Connection → Bool
  unfolding channel_matches_prefix channel_matches_event
  is_subscribed_to_event_parsed event_type ev is_bad c =
      if leb (length c.subscriptions) 0
      then true
      else if not (any_channel (λ ch. channel_matches_prefix ch event_type) c.subscriptions)
      then false
      else if is_bad
      then true
      else any_channel (λ ch. channel_matches_event canon ch event_type ev) c.subscriptions

  unfoldable pub is_subscribed_to_event : Bytes → Payload → Connection → Bool
  unfolding is_subscribed_to_event_parsed
  is_subscribed_to_event event_type payload c =
      is_subscribed_to_event_parsed event_type (parsed payload) (is_malformed payload) c

  abbrev pub addressed : Bytes → Option EventPayload → Bool
  addressed addr none = false
  addressed addr (some ev) = equal_fold canon ev.user_addr addr

  unfoldable pub allowed_notification_parsed : Bytes → Option EventPayload → Connection → Bool
  unfolding bytes_eqb equal_fold
  allowed_notification_parsed event_type ev c =
      if not (bytes_eqb event_type notification)
      then true
      else if is_empty c.addr
      then false
      else addressed c.addr ev

  -- Decoding empty or malformed bytes fails.
  unfoldable pub allowed_notification : Bytes → Payload → Connection → Bool
  unfolding allowed_notification_parsed bytes_eqb
  allowed_notification event_type payload c =
      if not (bytes_eqb event_type notification)
      then true
      else if is_empty c.addr
      then false
      else elim payload [
        | empty ↦ false
        | malformed ↦ false
        | object ev ↦ allowed_notification_parsed event_type (some ev) c
      ]

-- The loop of `unsubscribe`.
unfoldable pub delete_all : List Bytes → GoMap Bytes (Unit {0}) → GoMap Bytes (Unit {0})
unfolding delete
delete_all [] subs = subs
delete_all (ch ∷ channels) subs = delete_all channels (delete ch subs)

unfoldable pub unsubscribe : List Bytes → Connection → Connection
unfolding delete_all write_json
unsubscribe channels c =
    write_json (channels_set (bytes "unsubscribed") channels)
      (record c { subscriptions = delete_all channels c.subscriptions })
