-- ===== src/Socket/Slots.antt =====
-- The per-IP connection cap over the life of the requests of HandleWebSocket, in
-- backend/internal/ws/handler.go.
use magic_webb.Base.{
  ℕ, ◌≡◌, sym, subst, true, false, Option, none, some, List, ◌∷◌, ◌++◌, Bytes, bytes_eq, nat_eq,
  lookup,
}
use magic_webb.Socket.{Connection, Handler, admit}
use magic_webb.Socket.Pump.{Answer, tear_down, requests, upgrade_fails, registers, closes, act}
use magic_webb.Socket.Counters.{
  Counted, granted-Counted, refused-Counted, fails-Counted, upgraded-Counted, ended-Counted,
}

module _ (canon : Bytes → Bytes) (ask : Option (Bytes → Bytes → Answer)) (time : Bytes) where
  -- The steps of a request's life that touch a slot: it asks, its upgrade fails, or its callback
  -- registers a connection under a new id, which is torn down at the end. The list holds the IPs
  -- of the requests that were granted and wait for their upgrade.
  pub data SlotStep : Handler → List Bytes → Handler → List Bytes → Type 0 where
    granted :
        (ip : Bytes) (h : Handler) (waiting : List Bytes)
        → (admit ip h).1 ≡ true
        → SlotStep h waiting (act canon ask time (requests ip) h) (ip ∷ waiting)
    refused :
        (ip : Bytes) (h : Handler) (waiting : List Bytes)
        → (admit ip h).1 ≡ false
        → SlotStep h waiting (act canon ask time (requests ip) h) waiting
    fails :
        (ip : Bytes) (h : Handler) (us vs : List Bytes)
        → SlotStep h (us ++ ip ∷ vs) (act canon ask time (upgrade_fails ip) h) (us ++ vs)
    upgraded :
        (id : ℕ) (addr ip : Bytes) (h : Handler) (us vs : List Bytes)
        → lookup id h.conns ≡ none
        → SlotStep h (us ++ ip ∷ vs) (act canon ask time (registers id addr ip) h) (us ++ vs)
    ended :
        (id : ℕ) (c : Connection) (h : Handler) (waiting : List Bytes)
        → lookup id h.conns ≡ some c
        → SlotStep h waiting (act canon ask time (closes id) h) waiting

  pub data SlotSteps : Handler → List Bytes → Handler → List Bytes → Type 0 where
    done : (h : Handler) (waiting : List Bytes) → SlotSteps h waiting h waiting
    after :
        (h h' h'' : Handler) (w w' w'' : List Bytes)
        → SlotStep h w h' w'
        → SlotSteps h' w' h'' w''
        → SlotSteps h w h'' w''

  step-Counted :
      (h h' : Handler) (w w' : List Bytes) → SlotStep h w h' w' → Counted h w → Counted h' w'
  unfolding act
  step-Counted h h' w w' (granted ip g v e) k = granted-Counted ip g v k e
  step-Counted h h' w w' (refused ip g v e) k = refused-Counted ip g v k e
  step-Counted h h' w w' (fails ip g us vs) k = fails-Counted ip g us vs k
  step-Counted h h' w w' (upgraded id addr ip g us vs e) k = upgraded-Counted id addr ip g us vs k e
  step-Counted h h' w w' (ended id c g v e) k =
      subst (λ o. Counted (tear_down id o g) v) (sym e) (ended-Counted id c g v k e)

  -- From a handler of which it holds, and after any steps of the requests' lives, the counter of
  -- each IP is the number of its waiting requests and its connections, and at most the cap.
  pub steps-Counted :
      (h h' : Handler) (w w' : List Bytes) → SlotSteps h w h' w' → Counted h w → Counted h' w'
  steps-Counted h h' w w' (done g v) k = k
  steps-Counted h h' w w' (after g g' g'' v v' v'' s rest) k =
      steps-Counted g' g'' v' v'' rest (step-Counted g g' v v' s k)
