-- ===== src/Nonce/Examples.antt =====
-- Runs of the nonce stores.
use magic_webb.Base.{
  ◌⊎◌, ℕ, ◌≡◌, ◌≤◌, refl, ◌+◌, true, false, none, some, List, [], ◌∷◌, arith, Bytes, bytes,
  bytes_eq, bytes_eqb, ◌==◌, lookup, insert, delete, if◌then◌else◌,
}
use magic_webb.Nonce.{
  Entries, set_if_free, get_del, TxFaults, no_faults, loses_answer, pg_set_if_free, pg_get_del,
  is_live, value_if_live, issued, issue_nonce,
}
use magic_webb.Nonce.SingleUse.{
  Call, issue, redeem, sweep, step, run, times_issued, times_redeemed, redeemed-le-issued,
}
use magic_webb.Nonce.Cleanup.{answers, without_sweeps, cleanup_invisible}
use magic_webb.Nonce.Postgres.{
  row, pg_set_if_free-refines, pg_set_if_free_keeps_live, pg_get_del-refines, issue_nonce-replaces,
}

abbrev alice : Bytes
alice = bytes "0xa1"

abbrev first_nonce : Bytes
first_nonce = bytes "n1"

abbrev history : List Call
history = issue alice first_nonce 300 0 0 ∷ redeem alice 10 ∷ redeem alice 11 ∷ sweep 500 ∷ []

abbrev held : Entries
held = insert alice (row first_nonce 300) []

abbrev commit_fault : TxFaults
commit_fault = record no_faults { commit_result = loses_answer }

redeemed_once : times_redeemed alice first_nonce (run [] history).1 ≡ 1
unfolding run step set_if_free get_del insert delete lookup bytes_eqb
redeemed_once = refl

redeemed-le-issued_example :
    times_redeemed alice first_nonce (run [] history).1
    ≤ times_issued alice first_nonce (run [] history).1
redeemed-le-issued_example = redeemed-le-issued alice first_nonce history

cleanup_invisible_example : answers (run [] history).1 ≡ (run [] (without_sweeps history)).1
cleanup_invisible_example =
    cleanup_invisible history
      (omega arith, omega arith, (omega arith, (omega arith, (omega arith, tt))))

pg_set_if_free-refines_example :
    ((pg_set_if_free no_faults held alice (bytes "n2") 300 301 301).1
      ≡ (set_if_free held alice (bytes "n2") 300 301 301).1)
    × ((b : Bytes)
        → lookup b (pg_set_if_free no_faults held alice (bytes "n2") 300 301 301).0
          ≡ lookup b (set_if_free held alice (bytes "n2") 300 301 301).0)
pg_set_if_free-refines_example = pg_set_if_free-refines held alice (bytes "n2") 300 301 301

pg_set_if_free_keeps_live_example :
    let result = pg_set_if_free commit_fault held alice (bytes "n2") 300 301 301 in
    ((result.0 ≡ held) × (result.1 ≡ false))
    ⊎ ((is_live 301 (lookup alice held) ≡ false)
        × ((b : Bytes)
            → lookup b result.0
              ≡ (if alice == b then some (row (bytes "n2") 601) else lookup b held))
        × ((result.1 ≡ true) ⊎ (commit_fault.commit_result ≡ loses_answer)))
pg_set_if_free_keeps_live_example =
    pg_set_if_free_keeps_live commit_fault held alice (bytes "n2") 300 301 301

pg_get_del-refines_example :
    ((pg_get_del false held alice 10).1 ≡ (get_del held alice 10).1)
    × ((b : Bytes) (later : ℕ)
        → 10 ≤ later
        → value_if_live later (lookup b (pg_get_del false held alice 10).0)
          ≡ value_if_live later (lookup b (get_del held alice 10).0))
    × (pg_get_del true held alice 10 ≡ (held, none))
pg_get_del-refines_example = pg_get_del-refines held alice 10

abbrev seconds : ℕ → ℕ
seconds i = i + 20

issue_nonce-replaces_example :
    ((issue_nonce held alice (bytes "n2") 300 seconds).1 ≡ issued (bytes "n2"))
    × ((get_del (issue_nonce held alice (bytes "n2") 300 seconds).0 alice 30).1 ≡ some (bytes "n2"))
issue_nonce-replaces_example =
    issue_nonce-replaces held alice (bytes "n2") 300 seconds 30 (omega arith) (omega arith)
