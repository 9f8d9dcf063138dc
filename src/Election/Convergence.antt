-- ===== src/Election/Convergence.antt =====
-- Instances that exchange heartbeats: the lowest leader wins.
use magic_webb.Base.{
  ℕ, ◌≡◌, ◌≢◌, ◌⊎◌, refl, sym, ◌∙◌, true, false, Option, none, some, List, [], ◌∷◌, arith, Bytes,
  bytes_eq, bytes_eqb_iff, bytes_ltb, bytes_ltb_asymm, bytes_ltb_irrefl, All, if◌then◌else◌, inr,
  eqb_refl,
}
use magic_webb.Election.{
  Election, follower, leader, is_leader_state, lock_live, has_lock, Request, Response, authorised,
  on_heartbeat, heartbeat, on_response, answer,
}
use magic_webb.Election.Lock.{IsSound}

-- The metadata that the client's interceptor appends.
abbrev pub header_of : Bytes → Option Bytes
header_of [] = none
header_of (c ∷ s) = some (c ∷ s)

abbrev pub respond : ℕ → Option Response → Election → Election
respond now none a = a
respond now (some resp) a = on_response now resp a

abbrev pub request_of : Election → Request
request_of a = record { sender = a.instance_id; is_leader = is_leader_state a.state }

-- One delivered heartbeat of heartbeatTick with the tick's request: the sender, then the peer.
unfoldable pub contact : ℕ → Request → Election → Election → Election × Election
contact now req a b =
    let (b', resp) = heartbeat (header_of a.secret) now req b in (respond now resp a, b')

-- The loop of heartbeatTick over the connected peers, where every call is delivered.
unfoldable pub contact_all : ℕ → Request → Election → List Election → Election × List Election
contact_all now req a [] = (a, [])
contact_all now req a (b ∷ bs) =
    let (a', b') = contact now req a b in
    let (a'', bs') = contact_all now req a' bs in (a'', b' ∷ bs')

authorised_own : (s : Bytes) → authorised s (header_of s) ≡ true
authorised_own [] = refl
authorised_own (c ∷ s) = eqb_refl {A = Bytes} (c ∷ s)

-- A peer that yields to the leader `a`: another instance of the same cluster that knows no
-- leader, or `a` itself, or a leader with a greater id.
pub record Yields (a b : Election) : Type 0 where
  pub sound : IsSound b
  pub cluster : b.secret ≡ a.secret
  pub other : b.instance_id ≢ a.instance_id
  pub belief :
      (b.leader_id ≡ [])
      ⊎ ((b.leader_id ≡ a.instance_id) ⊎ (bytes_ltb a.instance_id b.leader_id ≡ true))

pub record Follows (now : ℕ) (a b : Election) : Type 0 where
  pub not_leader : b.state ≢ leader
  pub lock_free : lock_live b ≡ false
  pub leader_known : b.leader_id ≡ a.instance_id
  pub fresh : b.last_heartbeat ≡ some now

heartbeat_own :
    (now : ℕ) (req : Request) (a b : Election)
    → b.secret ≡ a.secret
    → heartbeat (header_of a.secret) now req b ≡ answer (on_heartbeat now req b)
unfolding heartbeat
heartbeat_own now req a b same = rw (same, authorised_own)

hear-Follows :
    (now : ℕ) (a b : Election)
    → IsSound a
    → a.state ≡ leader
    → Yields a b
    → ((on_heartbeat now (request_of a) b).1.conflict ≡ false)
      × Follows now a (on_heartbeat now (request_of a) b).0
unfolding on_heartbeat
hear-Follows now a b k l y = ground (
  arith,
  y.sound.held,
  y.sound.free,
  k.named,
  bytes_eqb_iff a.instance_id b.leader_id,
  bytes_eqb_iff b.leader_id [],
)

respond_agreed :
    (now : ℕ) (resp : Response) (a : Election) → resp.conflict ≡ false → on_response now resp a ≡ a
unfolding on_response
respond_agreed now resp a h = ground arith

contact-Follows :
    (now : ℕ) (a b : Election)
    → IsSound a
    → a.state ≡ leader
    → Yields a b
    → ((contact now (request_of a) a b).0 ≡ a) × Follows now a (contact now (request_of a) a b).1
unfolding contact
contact-Follows now a b k l y =
    let (agreed, follows) = hear-Follows now a b k l y in
    rw (heartbeat_own now (request_of a) a b y.cluster) (respond_agreed now _ a agreed, follows)

-- A leader whose id is lower than that of every other leader that its peers know reaches all of
-- them with one round of heartbeats: it stays as it is, so it keeps its lock, and afterwards every
-- peer is no leader, holds no live lock, knows this leader, and has just heard from it.
pub contact_all-Follows :
    (now : ℕ) (a : Election) (bs : List Election)
    → IsSound a
    → a.state ≡ leader
    → All (Yields a) bs
    → ((contact_all now (request_of a) a bs).0 ≡ a)
      × All (Follows now a) (contact_all now (request_of a) a bs).1
unfolding contact_all
contact_all-Follows now a [] k l ys = (refl, tt)
contact_all-Follows now a (b ∷ bs) k l ys =
    let (same, follows) = contact-Follows now a b k l ys.0 in
    let (rest, others) = contact_all-Follows now a bs k l ys.1 in rw same (rest, (follows, others))

-- An instance that knows a leader with a lower id refuses the claim, whoever that leader is.
pub hear_refuses :
    (now : ℕ) (a b : Election)
    → a.state ≡ leader
    → b.leader_id ≢ []
    → bytes_ltb b.leader_id a.instance_id ≡ true
    → on_heartbeat now (request_of a) b ≡ (b, record { leader_id = b.leader_id; conflict = true })
unfolding on_heartbeat
hear_refuses now a b l known lower = ground (
  arith,
  bytes_eqb_iff a.instance_id b.leader_id,
  bytes_eqb_iff b.leader_id [],
  bytes_ltb_asymm b.leader_id a.instance_id lower,
  bytes_ltb_irrefl a.instance_id,
)

-- A leader that is refused for the sake of a lower id.
abbrev pub given_way : ℕ → Bytes → Election → Election
given_way now d a = record a {
  state = follower;
  leader_id = d;
  last_heartbeat = some now;
  lock_cancel = none;
  gate_ready = if has_lock a.lock_cancel then false else a.gate_ready;
}

respond_refused :
    (now : ℕ) (d : Bytes) (a : Election)
    → a.state ≡ leader
    → d ≢ []
    → bytes_ltb d a.instance_id ≡ true
    → on_response now (record { leader_id = d; conflict = true }) a ≡ given_way now d a
unfolding on_response
respond_refused now d a l known lower = ground (arith, bytes_eqb_iff d [])

-- Then the leader gives way, and the peer stays as it was.
pub contact_refused :
    (now : ℕ) (a b : Election)
    → a.state ≡ leader
    → b.secret ≡ a.secret
    → b.leader_id ≢ []
    → bytes_ltb b.leader_id a.instance_id ≡ true
    → contact now (request_of a) a b ≡ (given_way now b.leader_id a, b)
unfolding contact
contact_refused now a b l same known lower =
    rw
      (
        heartbeat_own now (request_of a) a b same,
        hear_refuses now a b l known lower,
        respond_refused now b.leader_id a l known lower,
      )
      refl

-- Two leaders of one cluster that hear of each other, in whichever direction the heartbeat goes:
-- the one with the lower id stays leader, and the other follows it and loses its lock.
pub split_brain_heals :
    (now : ℕ) (a b : Election)
    → IsSound a
    → IsSound b
    → b.secret ≡ a.secret
    → a.state ≡ leader
    → b.state ≡ leader
    → bytes_ltb a.instance_id b.instance_id ≡ true
    → let (a₁, b₁) = contact now (request_of a) a b in
      let (b₂, a₂) = contact now (request_of b) b a in
      ((a₁.state ≡ leader) × Follows now a b₁) × ((a₂.state ≡ leader) × Follows now a b₂)
split_brain_heals now a b ka kb same la lb lt =
    let own_a = (ka.held la).1 in
    let own_b = (kb.held lb).1 in
    let yields : Yields a b = record {
      sound = kb;
      cluster = same;
      other = λ e. ground (arith, e, bytes_ltb_irrefl a.instance_id);
      belief = inr (inr (rw own_b lt));
    } in
    let (stays, follows) = contact-Follows now a b ka la yields in
    let refused =
      contact_refused now b a lb (sym same) (λ e. ka.named (sym own_a ∙ e)) (rw own_a lt) in
    (
      (rw stays la, follows),
      rw refused (
        la,
        record { not_leader = λ e. cc; lock_free = refl; leader_known = own_a; fresh = refl },
      ),
    )
