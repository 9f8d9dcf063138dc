-- ===== src/Election.antt =====
-- The keeper's leader election: backend/internal/keeper/election.go. Instants are milliseconds.
-- A section under e.mu is one step. The loop's events are whole here, and their sections, between which
-- a heartbeat of a peer may come in, are functions of their own; a context is the number of its creation, and `lock_cancel`
-- holds the number of the context that its function would cancel.
use magic_webb.Base.{
  ℕ, zero, suc, ◌+◌, ◌*◌, Bool, true, false, not, ◌&&◌, ◌||◌, Option, none, some, List, [], ◌∷◌,
  Bytes, bytes_eq, bytes_eqb, bytes_ltb, nat_eqb, ◌==◌, ltb, leb, if◌then◌else◌, length, keep,
}
pub mod Lock
pub mod Convergence
pub mod StaleBelief
mod Examples

pub data ElectionState : Type 0 where
  follower leader candidate : ElectionState

abbrev pub is_leader_state : ElectionState → Bool
is_leader_state leader = true
is_leader_state _ = false

abbrev pub is_follower_state : ElectionState → Bool
is_follower_state follower = true
is_follower_state _ = false

-- `last_heartbeat` is `none` for the zero time. `gate_ready` says that gateReady is closed,
-- `root_done` that Shutdown has cancelled e.ctx, `yield_pending` that yieldCh holds its value.
pub record Election : Type 0 where
  pub instance_id : Bytes
  pub peers : List Bytes
  pub secret : Bytes
  pub state : ElectionState
  pub leader_id : Bytes
  pub last_heartbeat : Option ℕ
  pub lock_cancel : Option ℕ
  pub contexts : ℕ
  pub gate_ready : Bool
  pub has_eth : Bool
  pub yield_pending : Bool
  pub degraded_cnt : ℕ
  pub max_degraded : ℕ
  pub root_done : Bool

abbrev pub heartbeat_interval : ℕ
heartbeat_interval = 1000

abbrev pub missed_threshold : ℕ
missed_threshold = 3

unfoldable pub filter_self : List Bytes → Bytes → List Bytes
filter_self peers my_addr = keep (λ p. not (p == my_addr)) peers

-- New, with the uuid of the instance, the environment's secret and the two options.
unfoldable pub new_election : Bytes → List Bytes → Bytes → Bytes → Bool → ℕ → Election
unfolding filter_self
new_election id peers my_addr secret has_eth max_degraded = record {
  instance_id = id;
  peers = filter_self peers my_addr;
  secret = secret;
  state = follower;
  leader_id = [];
  last_heartbeat = none;
  lock_cancel = none;
  contexts = 0;
  gate_ready = false;
  has_eth = has_eth;
  yield_pending = false;
  degraded_cnt = 0;
  max_degraded = max_degraded;
  root_done = false;
}

-- context.WithCancel(e.ctx): whether the lock's context is alive.
abbrev pub lock_live : Election → Bool
lock_live e = elim e.lock_cancel [ none ↦ false | some _ ↦ not e.root_done ]

unfoldable pub become_leader : ℕ → Election → Election
become_leader now e = if is_leader_state e.state then e else record e {
  state = leader;
  leader_id = e.instance_id;
  last_heartbeat = some now;
  lock_cancel = some e.contexts;
  contexts = e.contexts + 1;
  gate_ready = true;
}

unfoldable pub resign : ℕ → Election → Election
resign now e =
    if is_leader_state e.state
    then record e {
      state = follower;
      leader_id = [];
      last_heartbeat = some now;
      degraded_cnt = 0;
      lock_cancel = none;
      gate_ready = false;
    }
    else e

unfoldable pub release : Election → Election
release e = record e { lock_cancel = none; state = follower; leader_id = []; gate_ready = false }

unfoldable pub yield_leadership : Election → Election × Bool
yield_leadership e =
    if e.yield_pending then (e, false) else (record e { yield_pending = true }, true)

unfoldable pub shutdown : Election → Election
shutdown e = record e { root_done = true; lock_cancel = none }

pub record Request : Type 0 where
  pub sender : Bytes
  pub is_leader : Bool

-- `conflict` says that the response carries an error text.
pub record Response : Type 0 where
  pub leader_id : Bytes
  pub conflict : Bool

-- The cluster secret of the metadata: a request without it, or with another, is denied.
abbrev pub authorised : Bytes → Option Bytes → Bool
authorised [] header = true
authorised (c ∷ s) none = false
authorised (c ∷ s) (some h) = bytes_eqb h (c ∷ s)

abbrev pub has_lock : Option ℕ → Bool
has_lock none = false
has_lock (some _) = true

-- A claim of leadership against the leader that this instance knows: the lower id wins.
unfoldable pub settle_conflict : ℕ → Request → Election → Election × Response
settle_conflict now req e =
    if bytes_ltb req.sender e.leader_id
    then (
      record e {
        leader_id = req.sender;
        state = follower;
        last_heartbeat = some now;
        lock_cancel = none;
        gate_ready = if has_lock e.lock_cancel then false else e.gate_ready;
      },
      record { leader_id = req.sender; conflict = false },
    )
    else (e, record { leader_id = e.leader_id; conflict = true })

-- A follower announces itself where no leader is known.
unfoldable pub start_election : ℕ → Request → Election → Election
unfolding become_leader
start_election now req e = if bytes_ltb e.instance_id req.sender then become_leader now e else e

-- The `switch` of Heartbeat.
unfoldable pub on_heartbeat : ℕ → Request → Election → Election × Response
unfolding settle_conflict start_election
on_heartbeat now req e =
    if req.is_leader && (req.sender == e.leader_id)
    then (
      record e { last_heartbeat = some now },
      record { leader_id = e.leader_id; conflict = false },
    )
    else if req.is_leader && (e.leader_id == [])
    then (
      record e { leader_id = req.sender; state = follower; last_heartbeat = some now },
      record { leader_id = req.sender; conflict = false },
    )
    else if req.is_leader
    then settle_conflict now req e
    else if e.leader_id == []
    then (
      start_election now req e,
      record { leader_id = (start_election now req e).leader_id; conflict = false },
    )
    else (e, record { leader_id = e.leader_id; conflict = false })

abbrev pub answer : Election × Response → Election × Option Response
answer (e, resp) = (e, some resp)

-- The RPC: `none` is PermissionDenied.
unfoldable pub heartbeat : Option Bytes → ℕ → Request → Election → Election × Option Response
unfolding on_heartbeat
heartbeat header now req e =
    if authorised e.secret header then answer (on_heartbeat now req e) else (e, none)

-- What heartbeatTick does with a peer's response.
unfoldable pub on_response : ℕ → Response → Election → Election
on_response now resp e =
    if resp.conflict && not (resp.leader_id == [])
    then if bytes_ltb resp.leader_id e.instance_id && is_leader_state e.state
      then record e {
        state = follower;
        leader_id = resp.leader_id;
        last_heartbeat = some now;
        lock_cancel = none;
        gate_ready = if has_lock e.lock_cancel then false else e.gate_ready;
      }
      else e
    else e

-- One peer's call of a tick: it fails, or is answered at an instant.
pub data Outcome : Type 0 where
  failed : Outcome
  answered : ℕ → Response → Outcome

unfoldable pub on_outcomes : List Outcome → Election → Election
on_outcomes [] e = e
on_outcomes (failed ∷ os) e = on_outcomes os e
on_outcomes (answered now resp ∷ os) e = on_outcomes os (on_response now resp e)

abbrev pub failures : List Outcome → ℕ
failures [] = 0
failures (failed ∷ os) = suc (failures os)
failures (answered now resp ∷ os) = failures os

-- Of the end of heartbeatTick: count a tick that failed whole, or reset the count after a good one.
abbrev pub count_tick : ℕ → ℕ → Bool → Election → Election
count_tick attempts failed_calls probe_ok e =
    let all_failed = ltb 0 attempts && nat_eqb failed_calls attempts in
    let degraded_tick = all_failed || (e.has_eth && not probe_ok) in
    record e {
      degraded_cnt =
          if ltb 0 attempts || e.has_eth
          then if degraded_tick then e.degraded_cnt + 1 else 0
          else e.degraded_cnt;
    }

-- The end of heartbeatTick: count the tick, and resign at the limit.
unfoldable pub account : ℕ → ℕ → ℕ → Bool → Election → Election
unfolding resign
account now attempts failed_calls probe_ok e =
    let e' = count_tick attempts failed_calls probe_ok e in
    if leb e.max_degraded e'.degraded_cnt then resign now e' else e'

-- A tick with nothing else between its sections: the responses, the count, and the resignation.
unfoldable pub heartbeat_tick : ℕ → List Outcome → Bool → Election → Election
unfolding on_outcomes account
heartbeat_tick now outcomes probe_ok e =
    let e' = on_outcomes outcomes e in
    if is_leader_state e.state && ltb 0 e.max_degraded
    then account now (length outcomes) (failures outcomes) probe_ok e'
    else e'

-- The start of electionLoop.
unfoldable pub loop_start : ℕ → Election → Election
unfolding become_leader
loop_start now e =
    if (e.leader_id == []) && is_follower_state e.state
    then if leb (length e.peers) 0 then become_leader now e else record e { state = candidate }
    else e

abbrev pub already_has_leader : Election → Bool
already_has_leader e = not (e.leader_id == []) && not (e.leader_id == e.instance_id)

-- leaderElectionCh fires: the check, and the takeover right after it.
unfoldable pub election_timer : ℕ → Election → Election
unfolding become_leader
election_timer now e = if already_has_leader e then e else become_leader now e

-- time.Since(lastHB) > heartbeatInterval*missedThreshold, and false for the zero time.
abbrev pub timed_out : ℕ → Option ℕ → Bool
timed_out now none = false
timed_out now (some hb) = ltb (hb + heartbeat_interval * missed_threshold) now

abbrev pub leader_failed : ℕ → Election → Bool
leader_failed now e =
    is_follower_state e.state
    && (not (e.leader_id == e.instance_id) && timed_out now e.last_heartbeat)

-- failureTicker fires: the check, and the takeover right after it.
unfoldable pub failure_tick : ℕ → Election → Election
unfolding become_leader
failure_tick now e = if leader_failed now e then become_leader now e else e

-- yieldCh delivers.
unfoldable pub yield_event : ℕ → Election → Election
unfolding resign
yield_event now e = if e.yield_pending then resign now (record e { yield_pending = false }) else e
