-- ===== src/Socket/Examples.antt =====
-- Runs of the WebSocket handler.
use magic_webb.Base.{
  ◌≡◌, refl, true, false, Option, none, some, List, [], ◌∷◌, ◌++◌, arith, Bytes, bytes, bytes_eq,
  nat_eq, lookup, insert,
}
use magic_webb.Broadcast.{Event}
use magic_webb.Channels.{EventPayload}
use magic_webb.Socket.{notification, Payload, object, push, Handler, acquire_ip, release_ip, admit}
use magic_webb.Socket.Receive.{subscribe_to, dispatch_to, broadcast_one, replay_one}
use magic_webb.Socket.Pump.{
  Activity, requests, registers, reads, dispatches, new_connection, act, run,
}
use magic_webb.Socket.Privacy.{AllPrivate, run-AllPrivate}
use magic_webb.Socket.Paths.{paths_agree}
use magic_webb.Socket.Counters.{Counted}
use magic_webb.Socket.Slots.{granted, upgraded, SlotSteps, done, after, steps-Counted}

abbrev no_handler : Handler
no_handler = record {
  conns = [];
  ip_counters = [];
  events_sent = 0;
  conn_count = 0;
  msg_rate_limited = 0;
  conns_rejected_ip = 0;
  conns_rejected_global = 0;
}

abbrev same_case : Bytes → Bytes
same_case s = s

abbrev wallet : Bytes
wallet = bytes "0xa1"

abbrev home : Bytes
home = bytes "10.0.0.1"

abbrev to_wallet : EventPayload
to_wallet = record {
  collection = [];
  token_id = [];
  address = [];
  seller = [];
  buyer = [];
  bidder = [];
  owner = [];
  from_addr = [];
  to_addr = [];
  user_addr = wallet;
  tx_hash = [];
}

abbrev private_event : Event (Option Payload)
private_event = record { type = notification; payload = some (object to_wallet); seq = 1 }

-- An anonymous connection and the wallet's own, of which one subscribes to the wallet's channel.
abbrev session : List Activity
session =
    registers 1 [] home
    ∷ registers 2 wallet home
    ∷ reads 1 (subscribe_to (some (bytes "user:0xa1" ∷ []))) none
    ∷ dispatches private_event
    ∷ []

run-AllPrivate_example :
    AllPrivate same_case (run same_case none (bytes "0") session no_handler).conns
run-AllPrivate_example = run-AllPrivate same_case none (bytes "0") session no_handler tt

paths_agree_example :
    (broadcast_one same_case notification (object to_wallet) 1 (new_connection wallet home)
      ≡ (dispatch_to same_case notification (object to_wallet) 1 (new_connection wallet home)).0)
    × (replay_one same_case
          (record { seq = 1; type = notification; payload = some (object to_wallet) })
          (new_connection wallet home)
        ≡ (dispatch_to same_case notification (object to_wallet) 1 (new_connection wallet home)).0)
    × ((dispatch_to same_case notification (object to_wallet) 1 (new_connection wallet home)).1
          ≡ true
        → (dispatch_to same_case notification
            (object to_wallet)
            1
            (new_connection wallet home)).0.send
          ≡ (new_connection wallet home).send ++ push notification (object to_wallet) 1 ∷ [])
    × ((dispatch_to same_case notification (object to_wallet) 1 (new_connection wallet home)).1
          ≡ false
        → (dispatch_to same_case notification (object to_wallet) 1 (new_connection wallet home)).0
          ≡ new_connection wallet home)
paths_agree_example =
    paths_agree same_case notification (object to_wallet) 1 (new_connection wallet home)

abbrev asked : Handler
asked = act same_case none (bytes "0") (requests home) no_handler

abbrev served : Handler
served = act same_case none (bytes "0") (registers 1 wallet home) asked

home_admitted : (admit home no_handler).1 ≡ true
unfolding admit acquire_ip lookup
home_admitted = refl

new_id : lookup 1 asked.conns ≡ none
unfolding act admit acquire_ip release_ip lookup insert
new_id = refl

one_visit : SlotSteps same_case none (bytes "0") no_handler [] served []
one_visit =
    after no_handler asked served [] (home ∷ []) [] (granted home no_handler [] home_admitted) (
      after asked served served (home ∷ []) [] [] (upgraded 1 wallet home asked [] [] new_id)
        (done served []))

no_handler-Counted : Counted no_handler []
unfolding lookup
no_handler-Counted = record { unique = tt; exact = λ ip. refl; capped = λ ip. omega arith }

steps-Counted_example : Counted served []
steps-Counted_example =
    steps-Counted same_case none (bytes "0") no_handler served [] [] one_visit no_handler-Counted
