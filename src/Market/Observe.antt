-- ===== src/Market/Observe.antt =====
-- The instant lane: ObserveTx and observedSet of backend/internal/indexer/observe.go.
use magic_webb.Base.{
  ℕ, zero, suc, ◌+◌, ◌-◌, Bool, true, false, not, ◌&&◌, ◌||◌, Option, none, some, List, [], ◌∷◌,
  Bytes, bytes_eq, bytes_eqb, if◌then◌else◌, GoMap, lookup, insert, delete, delete_where, ltb, leb,
  length, keep,
}
use magic_webb.Watcher.{Outcome, applied, malformed, retriable}
use magic_webb.Market.Abi.{Log}
use magic_webb.Market.Tables.{Published}
use magic_webb.Market.Ownership.{lower}
use magic_webb.Market.Handling.{Store, Call, publish}
use magic_webb.Market.Dispatch.{dispatch}

-- 10 minutes, in nanoseconds.
abbrev pub observed_ttl : ℕ
observed_ttl = 600000000000

abbrev pub observed_max_entries : ℕ
observed_max_entries = 4096

-- The hashes observed, with the time of each.
abbrev pub Observed : Type 0
Observed = GoMap Bytes ℕ

abbrev pub is_after : Option ℕ → ℕ → Bool
is_after none now = false
is_after (some t) now = ltb now (t + observed_ttl)

unfoldable pub is_seen : Bytes → ℕ → Observed → Bool
unfolding lookup
is_seen h now m = is_after (lookup h m) now

abbrev pub older : Option (Bytes × ℕ) → Bytes → ℕ → Option (Bytes × ℕ)
older none k t = some (k, t)
older (some (best, oldest)) k t = if ltb t oldest then some (k, t) else some (best, oldest)

-- The oldest entry, of the rest of the map and of the one found before.
unfoldable pub oldest_of : Observed → Option (Bytes × ℕ) → Option (Bytes × ℕ)
oldest_of [] best = best
oldest_of ((k, t) ∷ m) best = oldest_of m (older best k t)

abbrev pub delete_found : Option (Bytes × ℕ) → Observed → Observed
delete_found none m = m
delete_found (some (k, t)) m = delete k m

-- The loop of the hard cap.
unfoldable pub evict_oldest : ℕ → Observed → Observed
unfolding oldest_of delete
evict_oldest zero m = m
evict_oldest (suc fuel) m =
    let rest = evict_oldest fuel (delete_found (oldest_of m none) m) in
    if ltb observed_max_entries (length m) then rest else m

unfoldable pub mark : Bytes → ℕ → Observed → Observed
unfolding insert delete_where evict_oldest
mark h now m =
    let marked = insert h now m in
    if leb (length marked) observed_max_entries
    then marked
    else let swept = delete_where (λ k t. ltb observed_ttl (now - t)) marked in
      evict_oldest (length swept) swept

-- A receipt, and what the RPC endpoint answers for it and for its block's header.
pub record Receipt : Type 0 where
  pub block_number : ℕ
  pub succeeded : Bool
  pub logs : List Log

pub data Answer : Type 0 where
  found : Receipt → Answer
  not_found : Answer
  receipt_error : Answer

pub data Observation : Type 0 where
  tx_pending : Observation
  receipt_failed : Observation
  reverted : Observation
  already_seen : Observation
  irrelevant : Observation
  header_failed : Observation
  dispatch_failed : ℕ → Observation
  indexed : ℕ → Observation

abbrev pub has_topics : Log → Bool
has_topics l = elim l.topics [ [] ↦ false | t ∷ rest ↦ true ]

unfoldable pub is_relevant : List Bytes → Log → Bool
is_relevant [] l = false
is_relevant (a ∷ addrs) l = (bytes_eqb a l.address && has_topics l) || is_relevant addrs l

-- The logs in their order, up to the first that is not applied: its number is given, if any.
unfoldable pub observe_logs :
    (ℕ → Log → Store → Store × Outcome) → List Log → ℕ → Store → Store × Option ℕ
observe_logs step [] n s = (s, none)
observe_logs step (l ∷ logs) n s =
    let (s', outcome) = step n l s in
    elim outcome [
      | applied ↦ observe_logs step logs (n + 1) s'
      | malformed ↦ (s', some n)
      | retriable ↦ (s', some n)
    ]

abbrev pub Lane : Type 0
Lane = Observed × Store

-- After the loop over the logs.
abbrev pub finish_observe : Bytes → ℕ → ℕ → ℕ → Observed → Store × Option ℕ → Lane × Observation
finish_observe h now block count seen (s, some n) = ((seen, s), dispatch_failed n)
finish_observe h now block count seen (s, none) =
    ((mark h now seen, publish (Published.tx_indexed (lower h) block count) s), indexed count)

-- With the logs that are relevant and the header's time.
abbrev pub observe_relevant :
    (ℕ → ℕ → Log → Store → Store × Outcome)
    → Bytes
    → ℕ
    → Receipt
    → Option ℕ
    → List Log
    → Lane
    → Lane × Observation
observe_relevant step h now r header [] lane = (lane, irrelevant)
observe_relevant step h now r none (l ∷ logs) lane = (lane, header_failed)
observe_relevant step h now r (some t) (l ∷ logs) (seen, s) =
    finish_observe h now r.block_number (length (l ∷ logs)) seen
      (observe_logs (step t) (l ∷ logs) 0 s)

abbrev pub observe_receipt :
    (ℕ → ℕ → Log → Store → Store × Outcome)
    → List Bytes
    → Bytes
    → ℕ
    → ℕ
    → Answer
    → Option ℕ
    → Lane
    → Lane × Observation
observe_receipt step relevant h now marked_at not_found header lane = (lane, tx_pending)
observe_receipt step relevant h now marked_at receipt_error header lane = (lane, receipt_failed)
observe_receipt step relevant h now marked_at (found r) header (seen, s) =
    if not r.succeeded
    then ((seen, s), reverted)
    else if is_seen h now seen
    then ((seen, s), already_seen)
    else observe_relevant step h marked_at r header (keep (is_relevant relevant) r.logs) (seen, s)

-- ObserveTx. `now` and `marked_at` are the clock where seen and mark read it. `fails` says which
-- calls of the n-th log fail; `relevant` are the addresses of
-- relevantAddresses.
unfoldable pub observe_tx :
    (Bytes → Bytes)
    → List Bytes
    → (ℕ → Call → Bool)
    → List Bytes
    → Bytes
    → ℕ
    → ℕ
    → Answer
    → Option ℕ
    → Lane
    → Lane × Observation
unfolding is_seen is_relevant observe_logs mark lower publish dispatch
observe_tx keccak opted_in fails relevant h now marked_at answer header lane =
    observe_receipt (λ t n l s. dispatch keccak opted_in t (fails n) l s) relevant h now marked_at
      answer header lane
