-- ===== src/Election/Lock.antt =====
-- The keeper's lock is held exactly by a leader.
use magic_webb.Base.{
  ℕ, ◌≡◌, ◌≢◌, ◌↔◌, refl, Bool, true, false, Option, none, List, [], ◌∷◌, arith, Bytes, bytes_eq,
  bytes_eqb_iff, length,
}
use magic_webb.Election.{
  Election, leader, lock_live, has_lock, new_election, become_leader, resign, release,
  yield_leadership, shutdown, Request, Response, settle_conflict, start_election, on_heartbeat,
  heartbeat, on_response, Outcome, failed, answered, on_outcomes, account, count_tick,
  heartbeat_tick, failures, loop_start, election_timer, failure_tick, yield_event,
}

-- What holds between two events: until Shutdown, a leader holds a lock and follows itself with
-- its gate open, and any other instance holds none and keeps its gate shut.
pub record IsSound (e : Election) : Type 0 where
  pub named : e.instance_id ≢ []
  pub held :
      e.state ≡ leader
      → (e.root_done ≡ false → has_lock e.lock_cancel ≡ true)
        × (e.leader_id ≡ e.instance_id)
        × (e.gate_ready ≡ true)
  pub free : e.state ≢ leader → e.lock_cancel ≡ none
  pub shut : e.state ≢ leader → e.root_done ≡ false → e.gate_ready ≡ false

become_leader-IsSound : (now : ℕ) (e : Election) → IsSound e → IsSound (become_leader now e)
unfolding become_leader
become_leader-IsSound now e k = ground (arith, k.held, k.free, k.shut)

resign-IsSound : (now : ℕ) (e : Election) → IsSound e → IsSound (resign now e)
unfolding resign
resign-IsSound now e k = ground (arith, k.held, k.free, k.shut)

settle_conflict-IsSound :
    (now : ℕ) (req : Request) (e : Election) → IsSound e → IsSound (settle_conflict now req e).0
unfolding settle_conflict
settle_conflict-IsSound now req e k = ground (arith, k.held, k.free, k.shut)

start_election-IsSound :
    (now : ℕ) (req : Request) (e : Election) → IsSound e → IsSound (start_election now req e)
unfolding start_election
start_election-IsSound now req e k = ground (arith, k.held, k.free, k.shut)

on_heartbeat-IsSound :
    (now : ℕ) (req : Request) (e : Election) → IsSound e → IsSound (on_heartbeat now req e).0
unfolding on_heartbeat
on_heartbeat-IsSound now req e k =
    ground (arith, k.held, k.free, k.shut, k.named, bytes_eqb_iff e.leader_id [])

heartbeat-IsSound :
    (header : Option Bytes) (now : ℕ) (req : Request) (e : Election)
    → IsSound e
    → IsSound (heartbeat header now req e).0
unfolding heartbeat
heartbeat-IsSound header now req e k = ground (arith, on_heartbeat-IsSound now req e k)

on_response-IsSound :
    (now : ℕ) (resp : Response) (e : Election) → IsSound e → IsSound (on_response now resp e)
unfolding on_response
on_response-IsSound now resp e k = ground (arith, k.held, k.free, k.shut)

on_outcomes-IsSound : (os : List Outcome) (e : Election) → IsSound e → IsSound (on_outcomes os e)
unfolding on_outcomes
on_outcomes-IsSound [] e k = k
on_outcomes-IsSound (failed ∷ os) e k = on_outcomes-IsSound os e k
on_outcomes-IsSound (answered now resp ∷ os) e k =
    on_outcomes-IsSound os (on_response now resp e) (on_response-IsSound now resp e k)

account-IsSound :
    (now attempts fails : ℕ) (probe_ok : Bool) (e : Election)
    → IsSound e
    → IsSound (account now attempts fails probe_ok e)
unfolding account
account-IsSound now attempts fails probe_ok e k = ground (arith, k.held, k.free, k.shut)

loop_start-IsSound : (now : ℕ) (e : Election) → IsSound e → IsSound (loop_start now e)
unfolding loop_start
loop_start-IsSound now e k = ground (arith, k.held, k.free, k.shut)

-- One event of an instance's life: an event that nothing interrupts, or one section of e.mu of an
-- event of the loop. What a tick or a timer decides on was read in an earlier section, so that what it
-- then does, to become leader or to resign, may come in any state.
pub data Step : Election → Election → Type 0 where
  hears :
      (header : Option Bytes) (now : ℕ) (req : Request) (e : Election)
      → Step e (heartbeat header now req e).0
  ticks :
      (now : ℕ) (os : List Outcome) (probe_ok : Bool) (e : Election)
      → Step e (heartbeat_tick now os probe_ok e)
  responds : (now : ℕ) (resp : Response) (e : Election) → Step e (on_response now resp e)
  counts :
      (attempts fails : ℕ) (probe_ok : Bool) (e : Election)
      → Step e (count_tick attempts fails probe_ok e)
  resigns : (now : ℕ) (e : Election) → Step e (resign now e)
  declares : (now : ℕ) (e : Election) → Step e (become_leader now e)
  starts : (now : ℕ) (e : Election) → Step e (loop_start now e)
  times_out : (now : ℕ) (e : Election) → Step e (election_timer now e)
  watches : (now : ℕ) (e : Election) → Step e (failure_tick now e)
  asks_to_yield : (e : Election) → Step e (yield_leadership e).0
  yields : (now : ℕ) (e : Election) → Step e (yield_event now e)
  releases : (e : Election) → Step e (release e)
  shuts_down : (e : Election) → Step e (shutdown e)

pub data Reach (s : Election) : Election → Type 0 where
  here : Reach s s
  next : {e e' : Election} → Reach s e → Step e e' → Reach s e'

Step-IsSound : {e e' : Election} → Step e e' → IsSound e → IsSound e'
unfolding heartbeat_tick election_timer failure_tick yield_leadership yield_event release shutdown
Step-IsSound (hears header now req e) k = heartbeat-IsSound header now req e k
Step-IsSound (ticks now os probe_ok e) k =
    let k' = on_outcomes-IsSound os e k in
    ground (arith, k', account-IsSound now (length os) (failures os) probe_ok (on_outcomes os e) k')
Step-IsSound (responds now resp e) k = on_response-IsSound now resp e k
Step-IsSound (counts attempts fails probe_ok e) k = ground (arith, k.held, k.free, k.shut, k.named)
Step-IsSound (resigns now e) k = resign-IsSound now e k
Step-IsSound (declares now e) k = become_leader-IsSound now e k
Step-IsSound (starts now e) k = loop_start-IsSound now e k
Step-IsSound (times_out now e) k = ground (arith, become_leader-IsSound now e k)
Step-IsSound (watches now e) k = ground (arith, become_leader-IsSound now e k)
Step-IsSound (asks_to_yield e) k = ground (arith, k.held, k.free, k.shut)
Step-IsSound (yields now e) k = ground (arith, k.held, k.free, k.shut)
Step-IsSound (releases e) k = ground (arith, k.held, k.free, k.shut)
Step-IsSound (shuts_down e) k = ground (arith, k.held, k.free, k.shut)

pub Reach-IsSound : {s e : Election} → IsSound s → Reach s e → IsSound e
Reach-IsSound k here = k
Reach-IsSound k (next r st) = Step-IsSound st (Reach-IsSound k r)

pub new_election-IsSound :
    (id : Bytes) (peers : List Bytes) (my_addr secret : Bytes) (has_eth : Bool) (n : ℕ)
    → id ≢ []
    → IsSound (new_election id peers my_addr secret has_eth n)
unfolding new_election
new_election-IsSound id peers my_addr secret has_eth n h = record {
  named = h;
  held = λ e. cc;
  free = λ _. refl;
  shut = λ _ _. refl;
}

-- After any sequence of heartbeats received, ticks, timeouts, yields, releases and a shutdown of
-- an instance with a non-empty id, the ticks and timeouts whole or with other events between the
-- sections of their mutex, the context that LockCtx hands to the keepers is alive exactly while
-- the instance is leader and has not been shut down.
pub lock_live_iff_leader :
    (id : Bytes) (peers : List Bytes) (my_addr secret : Bytes) (has_eth : Bool) (n : ℕ)
    (e : Election)
    → id ≢ []
    → Reach (new_election id peers my_addr secret has_eth n) e
    → (lock_live e ≡ true) ↔ ((e.state ≡ leader) × (e.root_done ≡ false))
lock_live_iff_leader id peers my_addr secret has_eth n e h r =
    let k = Reach-IsSound (new_election-IsSound id peers my_addr secret has_eth n h) r in
    ground (arith, k.held, k.free)
