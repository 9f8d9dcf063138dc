-- ===== src/Socket/Gates.antt =====
-- The gates of backend/internal/ws/handler.go: what they let into a connection's channel.
use magic_webb.Base.{
  ℕ, zero, suc, ◌≡◌, refl, Bool, true, false, not, Option, none, some, List, [], ◌∷◌, ◌++◌, Bytes,
  bytes, bytes_eq, nat_eq, bytes_eqb_iff, arith, has_prefix, if_either, length, All, All-append,
  ltb,
}
use magic_webb.Broadcast.{Broadcaster, RetryEvent, replay, ring_buffer_size}
use magic_webb.Channels.{
  EventPayload, channel_user, is_empty, trim_prefix, equal_fold, is_valid_channel,
}
use magic_webb.Socket.{
  notification, Payload, empty, malformed, object, Message, push, control, channels_set, Connection,
  send_cap, write_json, parsed, is_malformed, is_subscribed_to_event_parsed, is_subscribed_to_event,
  addressed, allowed_notification_parsed, allowed_notification,
}
use magic_webb.Socket.Receive.{
  failed, dispatch_to, broadcast_one, must_json, replay_one, replay_all, write_replay, handle_retry,
}

-- The two decodings of a notification's payload admit the same ones.
pub allowed_notification-parsed :
    (canon : Bytes → Bytes) (event_type : Bytes) (payload : Payload) (c : Connection)
    → allowed_notification canon event_type payload c
      ≡ allowed_notification_parsed canon event_type (parsed payload) c
unfolding allowed_notification allowed_notification_parsed
allowed_notification-parsed canon event_type empty c = ground arith
allowed_notification-parsed canon event_type malformed c = ground arith
allowed_notification-parsed canon event_type (object ev) c = ground arith

module _ (canon : Bytes → Bytes) where
  -- A message that the wallet `addr` may read: a notification is addressed to it.
  abbrev pub IsFor : Bytes → Message → Type 0
  IsFor addr (push type payload seq) =
      type ≡ notification
      → (is_empty addr ≡ false)
        × (ev : EventPayload) × (payload ≡ object ev)
        × (equal_fold canon ev.user_addr addr ≡ true)
  IsFor addr (control type text) = Unit
  IsFor addr (channels_set type channels) = Unit

  -- A subscription is to a channel of a valid form, and to no other wallet's.
  abbrev pub IsOwn : Bytes → Bytes × Unit {0} → Type 0
  IsOwn addr (ch, u) =
      (is_valid_channel ch ≡ true)
      × (has_prefix ch channel_user ≡ true
          → equal_fold canon (trim_prefix ch channel_user) addr ≡ true)

  pub record IsPrivate (c : Connection) : Type 0 where
    pub queue : All (IsFor c.addr) c.send
    pub own : All (IsOwn c.addr) c.subscriptions

  gate :
      (event_type : Bytes) (ev : Option EventPayload) (c : Connection)
      → allowed_notification_parsed canon event_type ev c ≡ true
      → event_type ≡ notification
      → (is_empty c.addr ≡ false) × (addressed canon c.addr ev ≡ true)
  unfolding allowed_notification_parsed
  gate event_type ev c h is = ground (arith, bytes_eqb_iff event_type notification)

  allowed-IsFor :
      (event_type : Bytes) (payload : Payload) (seq : ℕ) (c : Connection)
      → allowed_notification_parsed canon event_type (parsed payload) c ≡ true
      → IsFor c.addr (push event_type payload seq)
  allowed-IsFor event_type empty seq c h is = grind (arith, gate event_type none c h is)
  allowed-IsFor event_type malformed seq c h is = grind (arith, gate event_type none c h is)
  allowed-IsFor event_type (object ev) seq c h is =
      let (known, same) = gate event_type (some ev) c h is in (known, ev, refl, same)

  pub push-IsPrivate :
      (event_type : Bytes) (payload : Payload) (seq : ℕ) (c : Connection)
      → IsPrivate c
      → allowed_notification_parsed canon event_type (parsed payload) c ≡ true
      → IsPrivate (record c { send = c.send ++ push event_type payload seq ∷ [] })
  push-IsPrivate event_type payload seq c p h = record {
    queue =
        All-append (IsFor c.addr) c.send (push event_type payload seq ∷ []) p.queue
          (allowed-IsFor event_type payload seq c h, tt);
    own = p.own;
  }

  pub write_json-IsPrivate :
      (msg : Message) (c : Connection)
      → IsFor c.addr msg
      → IsPrivate c
      → IsPrivate (write_json msg c)
  unfolding write_json
  write_json-IsPrivate msg c m p =
      if_either IsPrivate (ltb (length c.send) send_cap)
        (λ t. record {
          queue = All-append (IsFor c.addr) c.send (msg ∷ []) p.queue (m, tt);
          own = p.own;
        })
        (λ f. p)

  pub dispatch_to-IsPrivate :
      (event_type : Bytes) (payload : Payload) (seq : ℕ) (c : Connection)
      → IsPrivate c
      → IsPrivate (dispatch_to canon event_type payload seq c).0
  unfolding dispatch_to
  dispatch_to-IsPrivate event_type payload seq c p =
      let Fine : Connection × Bool → Type 0 = λ r. IsPrivate r.0 in
      if_either Fine (not (allowed_notification_parsed canon event_type (parsed payload) c))
        (λ t. p)
        (λ f.
          if_either Fine
            (not (
              is_subscribed_to_event_parsed canon event_type (parsed payload) (is_malformed payload)
                c))
            (λ t. p)
            (λ g.
              if_either Fine (ltb (length c.send) send_cap)
                (λ t. push-IsPrivate event_type payload seq c p (ground arith)) (λ k. p)))

  pub broadcast_one-IsPrivate :
      (event_type : Bytes) (payload : Payload) (seq : ℕ) (c : Connection)
      → IsPrivate c
      → IsPrivate (broadcast_one canon event_type payload seq c)
  unfolding broadcast_one
  broadcast_one-IsPrivate event_type payload seq c p =
      let same = allowed_notification-parsed canon event_type payload c in
      if_either IsPrivate (not (allowed_notification canon event_type payload c)) (λ t. p)
        (λ f.
          if_either IsPrivate (not (is_subscribed_to_event canon event_type payload c)) (λ t. p)
            (λ g.
              if_either IsPrivate (ltb (length c.send) send_cap)
                (λ t. push-IsPrivate event_type payload seq c p (ground (arith, same))) (λ k. p)))

  pub replay_one-IsPrivate :
      (rev : RetryEvent (Option Payload)) (c : Connection)
      → IsPrivate c
      → IsPrivate (replay_one canon rev c)
  unfolding replay_one
  replay_one-IsPrivate rev c p =
      let payload = must_json rev.payload in
      let same = allowed_notification-parsed canon rev.type payload c in
      if_either IsPrivate (not (allowed_notification canon rev.type payload c)) (λ t. p)
        (λ f.
          if_either IsPrivate (not (is_subscribed_to_event canon rev.type payload c)) (λ t. p)
            (λ g.
              write_json-IsPrivate (push rev.type payload rev.seq) c
                (allowed-IsFor rev.type payload rev.seq c (ground (arith, same))) p))

  pub replay_all-IsPrivate :
      (events : List (RetryEvent (Option Payload))) (c : Connection)
      → IsPrivate c
      → IsPrivate (replay_all canon events c)
  unfolding replay_all
  replay_all-IsPrivate [] c p = p
  replay_all-IsPrivate (rev ∷ events) c p =
      replay_all-IsPrivate events (replay_one canon rev c) (replay_one-IsPrivate rev c p)

  pub write_replay-IsPrivate :
      (events : Option (List (RetryEvent (Option Payload)))) (c : Connection)
      → IsPrivate c
      → IsPrivate (write_replay canon events c)
  write_replay-IsPrivate none c p =
      write_json-IsPrivate (control (bytes "error") (bytes "stale_state")) c tt p
  write_replay-IsPrivate (some events) c p =
      write_json-IsPrivate (control (bytes "replay_complete") (bytes "replay complete"))
        (replay_all canon events c) tt (replay_all-IsPrivate events c p)

  pub handle_retry-IsPrivate :
      (bcast : Option (Broadcaster (Option Payload))) (from_seq : Option ℕ) (c : Connection)
      → IsPrivate c
      → IsPrivate (handle_retry canon bcast from_seq c)
  unfolding handle_retry
  handle_retry-IsPrivate none from_seq c p =
      write_json-IsPrivate (failed (bytes "broadcaster not available")) c tt p
  handle_retry-IsPrivate (some b) none c p =
      write_json-IsPrivate (failed (bytes "invalid retry params: need from_seq")) c tt p
  handle_retry-IsPrivate (some b) (some zero) c p =
      write_json-IsPrivate (failed (bytes "invalid retry params: need from_seq")) c tt p
  handle_retry-IsPrivate (some b) (some (suc n)) c p =
      write_replay-IsPrivate (replay ring_buffer_size (suc n) b) c p
