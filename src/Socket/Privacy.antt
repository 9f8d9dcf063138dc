-- ===== src/Socket/Privacy.antt =====
-- Notifications are private, on every path of backend/internal/ws/handler.go that reaches a client.
use magic_webb.Base.{
  ℕ, ◌≡◌, sym, subst, inl, inr, Option, none, some, List, [], ◌∷◌, Bytes, bytes_eq, nat_eq, arith,
  GoMap, lookup, All, All-drop, All-insert, All-delete, All-lookup, Option-cases,
}
use magic_webb.Broadcast.{Broadcaster, Event}
use magic_webb.Socket.{admit, acquire_ip, release_ip, Payload, Connection, Handler, refill_tick}
use magic_webb.Socket.Receive.{
  Inbound, dispatch_all, dispatch_payload, dispatch, broadcast_all, broadcast_payload, broadcast_to,
}
use magic_webb.Socket.Pump.{
  Answer, read_message, new_connection, Activity, requests, upgrade_fails, registers, closes,
  tear_down, reads, writes, refills, dispatches, broadcasts, on_conn, on_read, take_frame, act, run,
}
use magic_webb.Socket.Gates.{IsFor, IsPrivate, dispatch_to-IsPrivate, broadcast_one-IsPrivate}
use magic_webb.Socket.Reading.{read_message-IsPrivate}

module _ (canon : Bytes → Bytes) where
  abbrev pub AllPrivate : GoMap ℕ Connection → Type 0
  AllPrivate conns = All (λ entry. IsPrivate canon entry.1) conns

  dispatch_all-AllPrivate :
      (etype : Bytes) (payload : Payload) (seq : ℕ) (conns : GoMap ℕ Connection)
      → AllPrivate conns
      → AllPrivate (dispatch_all canon etype payload seq conns).0
  unfolding dispatch_all
  dispatch_all-AllPrivate etype payload seq [] p = tt
  dispatch_all-AllPrivate etype payload seq ((id, c) ∷ conns) (q, p) = (
    dispatch_to-IsPrivate canon etype payload seq c q,
    dispatch_all-AllPrivate etype payload seq conns p,
  )

  broadcast_all-AllPrivate :
      (etype : Bytes) (payload : Payload) (seq : ℕ) (conns : GoMap ℕ Connection)
      → AllPrivate conns
      → AllPrivate (broadcast_all canon etype payload seq conns)
  unfolding broadcast_all
  broadcast_all-AllPrivate etype payload seq [] p = tt
  broadcast_all-AllPrivate etype payload seq ((id, c) ∷ conns) (q, p) = (
    broadcast_one-IsPrivate canon etype payload seq c q,
    broadcast_all-AllPrivate etype payload seq conns p,
  )

  dispatch-AllPrivate :
      (ev : Event (Option Payload)) (payload : Option Payload) (h : Handler)
      → AllPrivate h.conns
      → AllPrivate (dispatch_payload canon ev payload h).conns
  dispatch-AllPrivate ev none h p = p
  dispatch-AllPrivate ev (some payload) h p =
      dispatch_all-AllPrivate ev.type payload ev.seq h.conns p

  broadcast-AllPrivate :
      (ev : Event (Option Payload)) (payload : Option Payload) (h : Handler)
      → AllPrivate h.conns
      → AllPrivate (broadcast_payload canon ev payload h).conns
  broadcast-AllPrivate ev none h p = p
  broadcast-AllPrivate ev (some payload) h p =
      broadcast_all-AllPrivate ev.type payload ev.seq h.conns p

  on_conn-AllPrivate :
      (id : ℕ) (f : Connection → Connection) (h : Handler)
      → ((c : Connection) → IsPrivate canon c → IsPrivate canon (f c))
      → AllPrivate h.conns
      → AllPrivate (on_conn id f (lookup id h.conns) h).conns
  on_conn-AllPrivate id f h keeps p = elim (Option-cases (lookup id h.conns)) [
    | inl e ↦ subst (λ o. AllPrivate (on_conn id f o h).conns) (sym e) p
    | inr (c, e) ↦
        let q = All-lookup (λ entry. IsPrivate canon entry.1) id c h.conns p e in
        subst (λ o. AllPrivate (on_conn id f o h).conns) (sym e)
          (All-insert (λ entry. IsPrivate canon entry.1) id (f c) h.conns (keeps c q) p)
  ]

  admit-conns : (ip : Bytes) (h : Handler) → (admit ip h).0.conns ≡ h.conns
  unfolding admit acquire_ip release_ip
  admit-conns ip h = ground arith

  module _ (ask : Option (Bytes → Bytes → Answer)) (time : Bytes) where
    on_read-AllPrivate :
        (id : ℕ) (msg : Inbound) (bcast : Option (Broadcaster (Option Payload))) (h : Handler)
        → AllPrivate h.conns
        → AllPrivate (on_read canon ask bcast time id msg (lookup id h.conns) h).conns
    on_read-AllPrivate id msg bcast h p = elim (Option-cases (lookup id h.conns)) [
      | inl e ↦ subst (λ o. AllPrivate (on_read canon ask bcast time id msg o h).conns) (sym e) p
      | inr (c, e) ↦
          let q = All-lookup (λ entry. IsPrivate canon entry.1) id c h.conns p e in
          subst (λ o. AllPrivate (on_read canon ask bcast time id msg o h).conns) (sym e)
            (All-insert (λ entry. IsPrivate canon entry.1) id
              (read_message canon ask bcast time msg c).0 h.conns
              (read_message-IsPrivate canon ask bcast time msg c q) p)
    ]

    act-AllPrivate :
        (a : Activity) (h : Handler)
        → AllPrivate h.conns
        → AllPrivate (act canon ask time a h).conns
    unfolding act new_connection refill_tick dispatch broadcast_to release_ip
    act-AllPrivate (requests ip) h p = subst AllPrivate (sym (admit-conns ip h)) p
    act-AllPrivate (upgrade_fails ip) h p = p
    act-AllPrivate (registers id addr ip) h p =
        All-insert (λ entry. IsPrivate canon entry.1) id (new_connection addr ip) h.conns
          (record { queue = (tt, tt); own = tt }) p
    act-AllPrivate (closes id) h p = elim (Option-cases (lookup id h.conns)) [
      | inl e ↦ subst (λ o. AllPrivate (tear_down id o h).conns) (sym e) p
      | inr (c, e) ↦
          subst (λ o. AllPrivate (tear_down id o h).conns) (sym e)
            (All-delete (λ entry. IsPrivate canon entry.1) id h.conns p)
    ]
    act-AllPrivate (reads id msg bcast) h p = on_read-AllPrivate id msg bcast h p
    act-AllPrivate (writes id n) h p =
        on_conn-AllPrivate id (take_frame n) h
          (λ c q. record { queue = All-drop (IsFor canon c.addr) n c.send q.queue; own = q.own }) p
    act-AllPrivate (refills id) h p =
        on_conn-AllPrivate id refill_tick h (λ c q. record { queue = q.queue; own = q.own }) p
    act-AllPrivate (dispatches ev) h p = dispatch-AllPrivate ev ev.payload h p
    act-AllPrivate (broadcasts ev) h p = broadcast-AllPrivate ev ev.payload h p

    -- Whatever the connections, the clients' messages and the events are, and from any handler
    -- of which it holds, each connection's channel holds only notifications that are addressed to
    -- its own authenticated wallet, those of a replay included, and its subscriptions are to channels of a
    -- valid form, the user channels among them to its own wallet's.
    pub run-AllPrivate :
        (activities : List Activity) (h : Handler)
        → AllPrivate h.conns
        → AllPrivate (run canon ask time activities h).conns
    run-AllPrivate [] h p = p
    run-AllPrivate (a ∷ activities) h p =
        run-AllPrivate activities (act canon ask time a h) (act-AllPrivate a h p)
