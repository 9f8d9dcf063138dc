-- ===== src/Election/Examples.antt =====
-- Runs of the election.
use magic_webb.Base.{
  ◌+◌, ◌*◌, ◌≡◌, ◌≢◌, ◌↔◌, refl, true, false, some, [], ◌∷◌, arith, Bytes, bytes, bytes_eqb,
  bytes_ltb, All, inl,
}
use magic_webb.Election.{
  Election, follower, leader, lock_live, new_election, become_leader, loop_start, election_timer,
}
use magic_webb.Election.Lock.{
  IsSound, starts, times_out, Reach, here, next, Reach-IsSound, new_election-IsSound,
  lock_live_iff_leader,
}
use magic_webb.Election.Convergence.{
  request_of, contact, contact_all, Yields, Follows, contact_all-Follows, split_brain_heals,
}
use magic_webb.Election.StaleBelief.{IsStuck, round, rounds, round-IsStuck, rounds-IsStuck}

abbrev lowest : Bytes
lowest = bytes "a"

abbrev middle : Bytes
middle = bytes "b"

abbrev highest : Bytes
highest = bytes "c"

abbrev fresh : Bytes → Election
fresh id = new_election id (bytes "x" ∷ []) (bytes "y") [] true 3

-- An instance that has taken over at its election timeout.
abbrev elected : Bytes → Election
elected id = election_timer 5000 (loop_start 0 (fresh id))

elected-Reach : (id : Bytes) → Reach (fresh id) (elected id)
elected-Reach id = next (next here (starts 0 (fresh id))) (times_out 5000 (loop_start 0 (fresh id)))

lock_live_iff_leader_example :
    (lock_live (elected middle) ≡ true)
    ↔ (((elected middle).state ≡ leader) × ((elected middle).root_done ≡ false))
lock_live_iff_leader_example =
    lock_live_iff_leader middle (bytes "x" ∷ []) (bytes "y") [] true 3 (elected middle)
      (λ e. grind arith) (elected-Reach middle)

elected-IsSound : (id : Bytes) → id ≢ [] → IsSound (elected id)
elected-IsSound id named =
    Reach-IsSound (new_election-IsSound id (bytes "x" ∷ []) (bytes "y") [] true 3 named)
      (elected-Reach id)

middle_leads : (elected middle).state ≡ leader
unfolding election_timer loop_start new_election become_leader bytes_eqb
middle_leads = refl

highest_leads : (elected highest).state ≡ leader
unfolding election_timer loop_start new_election become_leader bytes_eqb
highest_leads = refl

highest-Yields : Yields (elected middle) (fresh highest)
unfolding election_timer loop_start new_election become_leader bytes_ltb bytes_eqb
highest-Yields = record {
  sound = new_election-IsSound highest (bytes "x" ∷ []) (bytes "y") [] true 3 (λ e. grind arith);
  cluster = refl;
  other = λ e. grind arith;
  belief = inl refl;
}

contact_all-Follows_example :
    ((contact_all 6000 (request_of (elected middle)) (elected middle) (fresh highest ∷ [])).0
      ≡ elected middle)
    × All
        (Follows 6000 (elected middle))
        (contact_all 6000 (request_of (elected middle)) (elected middle) (fresh highest ∷ [])).1
contact_all-Follows_example =
    contact_all-Follows 6000 (elected middle) (fresh highest ∷ [])
      (elected-IsSound middle (λ e. grind arith)) middle_leads (highest-Yields, tt)

same_cluster : (elected highest).secret ≡ (elected middle).secret
unfolding election_timer loop_start new_election become_leader bytes_eqb
same_cluster = refl

in_order : bytes_ltb (elected middle).instance_id (elected highest).instance_id ≡ true
unfolding election_timer loop_start new_election become_leader bytes_ltb bytes_eqb
in_order = refl

split_brain_heals_example :
    let (a₁, b₁) = contact 6000 (request_of (elected middle)) (elected middle) (elected highest) in
    let (b₂, a₂) = contact 6000 (request_of (elected highest)) (elected highest) (elected middle) in
    ((a₁.state ≡ leader) × Follows 6000 (elected middle) b₁)
    × ((a₂.state ≡ leader) × Follows 6000 (elected middle) b₂)
split_brain_heals_example =
    split_brain_heals 6000 (elected middle) (elected highest)
      (elected-IsSound middle (λ e. grind arith)) (elected-IsSound highest (λ e. grind arith))
      same_cluster middle_leads highest_leads in_order

-- A follower that still believes in the dead leader with the lowest id.
abbrev believer : Election
believer = record (fresh highest) { leader_id = lowest; last_heartbeat = some 4000 }

survivors-IsStuck : IsStuck lowest 4000 (elected middle) believer
unfolding election_timer loop_start new_election become_leader bytes_ltb bytes_eqb
survivors-IsStuck = record {
  known = λ e. grind arith;
  below_a = refl;
  below_b = refl;
  cluster = refl;
  leads = refl;
  waits = refl;
  believes = refl;
  heard = refl;
}

round-IsStuck_example :
    ((contact 6000 (request_of (elected middle)) (elected middle) believer).0.state ≡ follower)
    × IsStuck lowest 7002
        (round 6000 7001 7002 9001 (elected middle) believer).0
        (round 6000 7001 7002 9001 (elected middle) believer).1
round-IsStuck_example =
    round-IsStuck lowest 4000 6000 7001 7002 9001 (elected middle) believer survivors-IsStuck
      (omega arith) (omega arith)

rounds-IsStuck_example :
    IsStuck lowest
      (4000 + 5 * 3002)
      (rounds 5 4000 (elected middle) believer).0
      (rounds 5 4000 (elected middle) believer).1
rounds-IsStuck_example = rounds-IsStuck 5 lowest 4000 (elected middle) believer survivors-IsStuck
