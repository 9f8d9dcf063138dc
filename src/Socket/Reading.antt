-- ===== src/Socket/Reading.antt =====
-- What a client's messages can make of its connection: the read pump of
-- backend/internal/ws/handler.go.
use magic_webb.Base.{
  Bool, true, not, ◌&&◌, Option, none, some, List, [], ◌∷◌, ◌++◌, Bytes, bytes, bytes_eq, nat_eq,
  bytes_eqb, arith, has_prefix, GoMap, insert, delete, if_either, All, All-insert, All-delete, leb,
}
use magic_webb.Broadcast.{Broadcaster}
use magic_webb.Channels.{channel_user, trim_prefix, equal_fold, is_valid_channel}
use magic_webb.Socket.{
  Payload, control, channels_set, Connection, write_json, consume_msg_token, subscribe_all,
  subscribe, delete_all, unsubscribe,
}
use magic_webb.Socket.Receive.{
  Action, Inbound, undecodable, ping, action, subscribe_to, unsubscribe_from, binary_upgrade,
  unknown, failed,
}
use magic_webb.Socket.Pump.{
  Answer, answer_message, state, refused, is_query, query, dispatch_action, handle_message,
  read_message,
}
use magic_webb.Socket.Gates.{IsOwn, IsPrivate, write_json-IsPrivate, handle_retry-IsPrivate}

module _ (canon : Bytes → Bytes) where
  subscribe_all-IsOwn :
      (addr : Bytes) (channels : List Bytes) (subs : GoMap Bytes (Unit {0})) (done : List Bytes)
      → All (IsOwn canon addr) subs
      → All (IsOwn canon addr) (subscribe_all canon addr channels subs done).0
  unfolding subscribe_all
  subscribe_all-IsOwn addr [] subs done o = o
  subscribe_all-IsOwn addr (ch ∷ channels) subs done o =
      let Fine : GoMap Bytes (Unit {0}) × List Bytes → Type 0 = λ r. All (IsOwn canon addr) r.0 in
      if_either Fine
        (has_prefix ch channel_user && not (equal_fold canon (trim_prefix ch channel_user) addr))
        (λ t. subscribe_all-IsOwn addr channels subs done o)
        (λ f.
          if_either Fine (is_valid_channel ch)
            (λ v.
              subscribe_all-IsOwn addr channels (insert ch tt subs) (done ++ ch ∷ [])
                (All-insert (IsOwn canon addr) ch tt subs (v, λ u. ground arith) o))
            (λ v. subscribe_all-IsOwn addr channels subs done o))

  delete_all-IsOwn :
      (addr : Bytes) (channels : List Bytes) (subs : GoMap Bytes (Unit {0}))
      → All (IsOwn canon addr) subs
      → All (IsOwn canon addr) (delete_all channels subs)
  unfolding delete_all
  delete_all-IsOwn addr [] subs o = o
  delete_all-IsOwn addr (ch ∷ channels) subs o =
      delete_all-IsOwn addr channels (delete ch subs) (All-delete (IsOwn canon addr) ch subs o)

  subscribe-IsPrivate :
      (channels : List Bytes) (c : Connection)
      → IsPrivate canon c
      → IsPrivate canon (subscribe canon channels c)
  unfolding subscribe
  subscribe-IsPrivate channels c p =
      let r = subscribe_all canon c.addr channels c.subscriptions [] in
      write_json-IsPrivate canon (channels_set (bytes "subscribed") r.1)
        (record c { subscriptions = r.0 }) tt
        (record {
          queue = p.queue;
          own = subscribe_all-IsOwn c.addr channels c.subscriptions [] p.own;
        })

  unsubscribe-IsPrivate :
      (channels : List Bytes) (c : Connection)
      → IsPrivate canon c
      → IsPrivate canon (unsubscribe channels c)
  unfolding unsubscribe
  unsubscribe-IsPrivate channels c p =
      write_json-IsPrivate canon (channels_set (bytes "unsubscribed") channels)
        (record c { subscriptions = delete_all channels c.subscriptions }) tt
        (record { queue = p.queue; own = delete_all-IsOwn c.addr channels c.subscriptions p.own })

  consume_msg_token-IsPrivate :
      (c : Connection) → IsPrivate canon c → IsPrivate canon (consume_msg_token c).0
  unfolding consume_msg_token
  consume_msg_token-IsPrivate c p =
      let Fine : Connection × Bool → Type 0 = λ r. IsPrivate canon r.0 in
      if_either Fine (leb c.msg_tokens 0) (λ t. p) (λ f. record { queue = p.queue; own = p.own })

  module _ (ask : Option (Bytes → Bytes → Answer)) (bcast : Option (Broadcaster (Option Payload)))
      (time : Bytes) where
    query-IsPrivate :
        (client : Option (Bytes → Bytes → Answer)) (a : Action) (c : Connection)
        → IsPrivate canon c
        → IsPrivate canon (query canon ask bcast time client a c)
    query-IsPrivate none a c p =
        write_json-IsPrivate canon (failed (bytes "server not ready")) c tt p
    query-IsPrivate (some f) a c p =
        if_either (IsPrivate canon) (is_query a.action) (λ t. answered (f a.action a.params))
          (λ u. write_json-IsPrivate canon (failed (bytes "unknown action: " ++ a.action)) c tt p)
      where
        answered : (r : Answer) → IsPrivate canon (write_json (answer_message r) c)
        answered (state text) = write_json-IsPrivate canon (control (bytes "state") text) c tt p
        answered (refused text) = write_json-IsPrivate canon (failed text) c tt p

    handle_message-IsPrivate :
        (msg : Inbound) (c : Connection)
        → IsPrivate canon c
        → IsPrivate canon (handle_message canon ask bcast time msg c)
    unfolding handle_message dispatch_action
    handle_message-IsPrivate undecodable c p =
        write_json-IsPrivate canon (failed (bytes "malformed message")) c tt p
    handle_message-IsPrivate ping c p =
        write_json-IsPrivate canon (control (bytes "pong") time) c tt p
    handle_message-IsPrivate (action none) c p =
        write_json-IsPrivate canon (failed (bytes "invalid action")) c tt p
    handle_message-IsPrivate (action (some a)) c p =
        if_either (IsPrivate canon) (bytes_eqb a.action (bytes "retry"))
          (λ t. handle_retry-IsPrivate canon bcast a.from_seq c p) (λ f. query-IsPrivate ask a c p)
    handle_message-IsPrivate (subscribe_to none) c p =
        write_json-IsPrivate canon (failed (bytes "invalid subscribe payload")) c tt p
    handle_message-IsPrivate (subscribe_to (some channels)) c p = subscribe-IsPrivate channels c p
    handle_message-IsPrivate (unsubscribe_from none) c p =
        write_json-IsPrivate canon (failed (bytes "invalid unsubscribe payload")) c tt p
    handle_message-IsPrivate (unsubscribe_from (some channels)) c p =
        unsubscribe-IsPrivate channels c p
    handle_message-IsPrivate binary_upgrade c p =
        write_json-IsPrivate canon (control (bytes "ack") (bytes "binary_upgrade"))
          (record c { use_binary = true }) tt (record { queue = p.queue; own = p.own })
    handle_message-IsPrivate (unknown type) c p =
        write_json-IsPrivate canon (failed (bytes "unknown message type: " ++ type)) c tt p

    pub read_message-IsPrivate :
        (msg : Inbound) (c : Connection)
        → IsPrivate canon c
        → IsPrivate canon (read_message canon ask bcast time msg c).0
    unfolding read_message
    read_message-IsPrivate msg c p =
        let Fine : Connection × Bool → Type 0 = λ r. IsPrivate canon r.0 in
        let r = consume_msg_token c in
        let after = consume_msg_token-IsPrivate c p in
        if_either Fine r.1 (λ t. handle_message-IsPrivate msg r.0 after)
          (λ f. write_json-IsPrivate canon (failed (bytes "rate limit exceeded")) r.0 tt after)
