-- ===== src/Nonce/SingleUse.antt =====
-- Histories of calls on a MemStore: what is redeemed was issued, and only once.
use magic_webb.Base.{
  ℕ, ◌+◌, ◌≤◌, Bool, true, false, not, Option, none, some, List, [], ◌∷◌, arith, Bytes, bytes_eq,
  ltb, if◌then◌else◌, lookup, lookup-insert, lookup-delete, lookup-delete_where, Unique,
  insert-Unique, delete-Unique, delete_where-Unique, ◌==◌,
}
use magic_webb.Nonce.{Entry, Entries, set_if_free, get_del, cleanup}

-- The calls of a Store, with the clock readings that each makes.
pub data Call : Type 0 where
  issue : Bytes → Bytes → ℕ → ℕ → ℕ → Call
  redeem : Bytes → ℕ → Call
  sweep : ℕ → Call

-- What a call reports to its caller.
pub data Report : Type 0 where
  issued : Bytes → Bytes → Report
  refused : Bytes → Report
  redeemed : Bytes → Bytes → Report
  missing : Bytes → Report
  swept : Report

abbrev pub report_issue : Bytes → Bytes → Bool → Report
report_issue a n true = issued a n
report_issue a n false = refused a

abbrev pub report_redeem : Bytes → Option Bytes → Report
report_redeem a none = missing a
report_redeem a (some n) = redeemed a n

unfoldable pub step : Entries → Call → Entries × Report
step m (issue a n ttl now now') =
    let (m', done) = set_if_free m a n ttl now now' in (m', report_issue a n done)
step m (redeem a now) = let (m', found) = get_del m a now in (m', report_redeem a found)
step m (sweep now) = (cleanup m now, swept)

unfoldable pub run : Entries → List Call → Entries × List Report
run m [] = (m, [])
run m (c ∷ cs) = let (m', r) = step m c in let (m'', rs) = run m' cs in (m'', r ∷ rs)

abbrev bit : Bool → ℕ
bit true = 1
bit false = 0

abbrev is_issued : Bytes → Bytes → Report → Bool
is_issued a n (issued b v) = if b == a then v == n else false
is_issued a n _ = false

abbrev is_redeemed : Bytes → Bytes → Report → Bool
is_redeemed a n (redeemed b v) = if b == a then v == n else false
is_redeemed a n _ = false

abbrev pub times_issued : Bytes → Bytes → List Report → ℕ
times_issued a n [] = 0
times_issued a n (r ∷ rs) = bit (is_issued a n r) + times_issued a n rs

abbrev pub times_redeemed : Bytes → Bytes → List Report → ℕ
times_redeemed a n [] = 0
times_redeemed a n (r ∷ rs) = bit (is_redeemed a n r) + times_redeemed a n rs

abbrev holds : Bytes → Option Entry → ℕ
holds n none = 0
holds n (some r) = bit (r.value == n)

pub step-Unique : (m : Entries) (c : Call) → Unique m → Unique (step m c).0
unfolding step set_if_free get_del cleanup
step-Unique m (issue a n ttl now now') u =
    ground (arith, insert-Unique a (record { value = n; expires_at = now' + ttl }) m u)
step-Unique m (redeem a now) u = delete-Unique a m u
step-Unique m (sweep now) u = delete_where-Unique _ m u

-- One call: redemptions and what stays stored are paid for by issues and what was stored.
step-balance :
    (a n : Bytes) (m : Entries) (c : Call)
    → Unique m
    → bit (is_redeemed a n (step m c).1) + holds n (lookup a (step m c).0)
      ≤ bit (is_issued a n (step m c).1) + holds n (lookup a m)
unfolding step set_if_free get_del cleanup
step-balance a n m (issue b v ttl now now') u = ground (
  arith,
  lookup-insert b a (record { value = v; expires_at = now' + ttl }) m,
  bytes_eq.equals_iff b a,
)
step-balance a n m (redeem b now) u = ground (arith, lookup-delete b a m, bytes_eq.equals_iff b a)
step-balance a n m (sweep now) u =
    ground (arith, lookup-delete_where (λ _ r. not (ltb now r.expires_at)) a m u)

run-balance :
    (a n : Bytes) (m : Entries) (cs : List Call)
    → Unique m
    → times_redeemed a n (run m cs).1 ≤ times_issued a n (run m cs).1 + holds n (lookup a m)
unfolding run
run-balance a n m [] u = omega arith
run-balance a n m (c ∷ cs) u =
    omega (arith, step-balance a n m c u, run-balance a n (step m c).0 cs (step-Unique m c u))

-- From an empty store, whatever calls are made at whatever times, a nonce is redeemed for an
-- address at most as often as it was issued for that address.
pub redeemed-le-issued :
    (a n : Bytes) (cs : List Call)
    → times_redeemed a n (run [] cs).1 ≤ times_issued a n (run [] cs).1
unfolding lookup
redeemed-le-issued a n cs = omega (arith, run-balance a n [] cs tt)
