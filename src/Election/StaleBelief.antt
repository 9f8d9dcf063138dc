-- ===== src/Election/StaleBelief.antt =====
-- A leader that has died with the lowest id: the survivors' memory of it deposes every successor.
use magic_webb.Base.{
  ℕ, ◌+◌, ◌*◌, ◌<◌, ◌≡◌, ◌≢◌, refl, sym, ◌∙◌, ap, subst, true, some, [], zero, suc, arith, Bytes,
  bytes_eq, bytes_eqb_iff, bytes_ltb, bytes_ltb_irrefl,
}
use native.Mathlib.Nat.{add-zero}
use magic_webb.Election.{Election, follower, leader, become_leader, failure_tick}
use magic_webb.Election.Convergence.{request_of, contact, contact_refused, given_way}

-- Two survivors of one cluster, whose dead leader `d` had the lowest id: `a` has just been elected
-- in its place, and `b`, which heard of `d` last at `h`, does not know it yet.
pub record IsStuck (d : Bytes) (h : ℕ) (a b : Election) : Type 0 where
  pub known : d ≢ []
  pub below_a : bytes_ltb d a.instance_id ≡ true
  pub below_b : bytes_ltb d b.instance_id ≡ true
  pub cluster : b.secret ≡ a.secret
  pub leads : a.state ≡ leader
  pub waits : b.state ≡ follower
  pub believes : b.leader_id ≡ d
  pub heard : b.last_heartbeat ≡ some h

-- A heartbeat of the elected one, the other's timeout, a heartbeat of that one, and the first
-- one's timeout.
unfoldable pub round : ℕ → ℕ → ℕ → ℕ → Election → Election → Election × Election
round t₁ t₂ t₃ t₄ a b =
    let (a₁, b₁) = contact t₁ (request_of a) a b in
    let b₂ = failure_tick t₂ b₁ in
    let (b₃, a₃) = contact t₃ (request_of b₂) b₂ a₁ in (failure_tick t₄ a₃, b₃)

abbrev taken_over : ℕ → Election → Election
taken_over t b = record b {
  state = leader;
  leader_id = b.instance_id;
  last_heartbeat = some t;
  lock_cancel = some b.contexts;
  contexts = b.contexts + 1;
  gate_ready = true;
}

-- A follower of `d` that has heard nothing for three seconds takes over.
elected :
    (t h : ℕ) (b : Election) (d : Bytes)
    → b.state ≡ follower
    → b.leader_id ≡ d
    → bytes_ltb d b.instance_id ≡ true
    → b.last_heartbeat ≡ some h
    → h + 3000 < t
    → failure_tick t b ≡ taken_over t b
unfolding failure_tick become_leader
elected t h b d f known lower heard late =
    ground (arith, bytes_eqb_iff b.leader_id b.instance_id, bytes_ltb_irrefl b.instance_id)

refused_by :
    (t : ℕ) (d : Bytes) (a b : Election)
    → a.state ≡ leader
    → b.secret ≡ a.secret
    → b.leader_id ≡ d
    → d ≢ []
    → bytes_ltb d a.instance_id ≡ true
    → contact t (request_of a) a b ≡ (given_way t d a, b)
refused_by t d a b leads same e known lower =
    rw (← e) (contact_refused t a b leads same (λ x. known (sym e ∙ x)) (rw e lower))

round_lem :
    (d : Bytes) (h t₁ t₂ t₃ t₄ : ℕ) (a b : Election)
    → IsStuck d h a b
    → h + 3000 < t₂
    → t₁ + 3000 < t₄
    → round t₁ t₂ t₃ t₄ a b ≡ (taken_over t₄ (given_way t₁ d a), given_way t₃ d (taken_over t₂ b))
unfolding round
round_lem d h t₁ t₂ t₃ t₄ a b k late late' =
    rw (refused_by t₁ d a b k.leads k.cluster k.believes k.known k.below_a) (
      rw (elected t₂ h b d k.waits k.believes k.below_b k.heard late) (
        rw
          (refused_by t₃ d (taken_over t₂ b) (given_way t₁ d a) refl (sym k.cluster) refl k.known
            k.below_b)
          (rw (elected t₄ t₁ (given_way t₁ d a) d refl refl k.below_a refl late') refl)))

-- The elected survivor is deposed by the other's memory of `d`; and after the other's timeout, its
-- heartbeat, and the first one's timeout all is as at the start: the first leads, and the other
-- believes in `d`, of which nothing has been heard.
pub round-IsStuck :
    (d : Bytes) (h t₁ t₂ t₃ t₄ : ℕ) (a b : Election)
    → IsStuck d h a b
    → h + 3000 < t₂
    → t₁ + 3000 < t₄
    → ((contact t₁ (request_of a) a b).0.state ≡ follower)
      × IsStuck d t₃ (round t₁ t₂ t₃ t₄ a b).0 (round t₁ t₂ t₃ t₄ a b).1
round-IsStuck d h t₁ t₂ t₃ t₄ a b k late late' =
    let first = refused_by t₁ d a b k.leads k.cluster k.believes k.known k.below_a in
    (
      ap (λ (p : Election × Election). p.0.state) first,
      subst (λ p. IsStuck d t₃ p.0 p.1) (sym (round_lem d h t₁ t₂ t₃ t₄ a b k late late'))
          (record {
            known = k.known;
            below_a = k.below_a;
            below_b = k.below_b;
            cluster = k.cluster;
            leads = refl;
            waits = refl;
            believes = refl;
            heard = refl;
          }),
    )

-- Rounds that follow one another: each survivor is heard of two seconds, or a millisecond, after
-- the other's last event, and times out a millisecond after its three seconds.
unfoldable pub rounds : ℕ → ℕ → Election → Election → Election × Election
rounds zero h a b = (a, b)
rounds (suc n) h a b =
    let (a', b') = round (h + 2000) (h + 3001) (h + 3002) (h + 5001) a b in
    rounds n (h + 3002) a' b'

-- With a schedule that lets every heartbeat through and every timeout fire, two survivors of a
-- dead leader with the lowest id can go on deposing one another for any number of rounds: after
-- each, the situation is again the one at the start.
pub rounds-IsStuck :
    (n : ℕ) (d : Bytes) (h : ℕ) (a b : Election)
    → IsStuck d h a b
    → IsStuck d (h + n * 3002) (rounds n h a b).0 (rounds n h a b).1
unfolding rounds
rounds-IsStuck zero d h a b k = rw add-zero k
rounds-IsStuck (suc n) d h a b k =
    let k' =
      (round-IsStuck d h (h + 2000) (h + 3001) (h + 3002) (h + 5001) a b k (omega arith)
        (omega arith)).1 in
    let (a', b') = round (h + 2000) (h + 3001) (h + 3002) (h + 5001) a b in
    let later : h + 3002 + n * 3002 ≡ h + suc n * 3002 = omega arith in
    subst (λ x. IsStuck d x (rounds n (h + 3002) a' b').0 (rounds n (h + 3002) a' b').1) later
      (rounds-IsStuck n d (h + 3002) a' b' k')
